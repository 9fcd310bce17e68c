-- ===== src/Value/Json.antt =====
-- What encoding/json makes of a struct: the tree of its exported fields, in their order, where a field
-- with `omitempty` is left out if it is false, 0, "", nil or empty, and one with the tag "-" always. A
-- map is written in the order of its keys.
use cbtools_autobench.Base.{
  ℕ, String, ◌==◌, code, Bool, true, false, List, [], ◌∷◌, map, Option, none, some, eqb, ltb,
  if◌then◌else◌,
}

mutual
  pub data Json : Type 0 where
    text : String → Json
    number : ℕ → Json
    boolean : Bool → Json
    array : Items → Json
    object : Fields → Json

  pub data Items : Type 0 where
    nil : Items
    item : Json → Items → Items

  pub data Fields : Type 0 where
    end : Fields
    field : String → Json → Fields → Fields

-- A field with its tag, unless it is left out.
abbrev pub Tagged : Type 0
Tagged = String × Option Json

-- The fields with `omitempty`
abbrev pub if_text : String → String → Tagged
if_text name s = (name, if s == "" then none else some (Json.text s))

abbrev pub if_number : String → ℕ → Tagged
if_number name n = (name, if eqb n 0 then none else some (Json.number n))

abbrev pub if_true : String → Bool → Tagged
if_true name b = (name, if b then some (Json.boolean true) else none)

abbrev pub items_of : List Json → Items
items_of [] = Items.nil
items_of (j ∷ js) = Items.item j (items_of js)

abbrev pub if_items : String → List Json → Tagged
if_items name js =
    (name, elim js [ [] ↦ none | j ∷ rest ↦ some (Json.array (items_of (j ∷ rest))) ])

abbrev pub if_there : {A : Type 0} → String → (A → Json) → Option A → Tagged
if_there name f o = (name, elim o [ none ↦ none | some a ↦ some (f a) ])

unfoldable pub fields_of : List Tagged → Fields
fields_of [] = Fields.end
fields_of ((name, none) ∷ rest) = fields_of rest
fields_of ((name, some j) ∷ rest) = Fields.field name j (fields_of rest)

-- The order of the bytes of two texts.
unfoldable pub before : String → String → Bool
before String.[] String.[] = false
before String.[] (String.◌∷◌ d t) = true
before (String.◌∷◌ c s) String.[] = false
before (String.◌∷◌ c s) (String.◌∷◌ d t) =
    let rest = before s t in
    if ltb (code c) (code d) then true else if eqb (code c) (code d) then rest else false

unfoldable pub insert_key : String × String → List (String × String) → List (String × String)
unfolding before
insert_key e [] = e ∷ []
insert_key e (f ∷ es) =
    let rest = insert_key e es in if before f.0 e.0 then f ∷ rest else e ∷ f ∷ es

unfoldable pub sort_keys : List (String × String) → List (String × String)
unfolding insert_key
sort_keys [] = []
sort_keys (e ∷ es) = insert_key e (sort_keys es)

-- A map of texts
abbrev map_json : List (String × String) → Option Json
map_json [] = none
map_json (e ∷ es) = some (
    Json.object
      (fields_of (map (λ (key, value). (key, some (Json.text value))) (sort_keys (e ∷ es)))))

abbrev pub if_map : String → List (String × String) → Tagged
if_map name es = (name, map_json es)
