-- ===== src/Report/Secrets.antt =====
-- What a report tells of the secrets of the configuration.
use cbtools_autobench.Base.{
  ◌≡◌, ◌≢◌, ◌∙◌, refl, List, [], ◌∷◌, String, ◌==◌, Bool, true, false, if◌then◌else◌, Option, none,
  some, Bool-cases, inl, inr, ◌⊎◌, eq_iff, arith,
}
use cbtools_autobench.Result.{Result}
use cbtools_autobench.Value.Blueprint.{CbmConfig}
use cbtools_autobench.Value.Formats.{Formats}
use cbtools_autobench.Value.Json.{Json, text, Fields, end, field, Tagged, fields_of}
use cbtools_autobench.Value.Marshal.{cbm_fields, cbm_json}
use cbtools_autobench.Value.Show.{cbm_string, cbm_rows}
use cbtools_autobench.Report.Json.{report_json}
use cbtools_autobench.Report.Print.{printed}
use cbtools_autobench.Report.Text.{Report, report_string}

-- The configuration with other secrets.
abbrev pub with_secrets : String → String → String → CbmConfig → CbmConfig
with_secrets id key passphrase c = record c {
  obj_access_key_id = id;
  obj_secret_access_key = key;
  passphrase = passphrase;
}

abbrev pub report_with : (CbmConfig → CbmConfig) → Report → Report
report_with f r = record r { cbm = f r.cbm }

-- The value of a field, if an object has it.
abbrev pub lookup_field : String → Fields → Option Json
lookup_field name end = none
lookup_field name (field key j rest) =
    let found = lookup_field name rest in if key == name then some j else found

abbrev pub field_of : String → Json → Option Json
field_of name (Json.object fs) = lookup_field name fs
field_of name (Json.text s) = none
field_of name (Json.number n) = none
field_of name (Json.boolean b) = none
field_of name (Json.array js) = none

-- The same for the list of fields.
abbrev lookup_tagged : String → List Tagged → Option Json
lookup_tagged name [] = none
lookup_tagged name ((key, o) ∷ ts) =
    let found = lookup_tagged name ts in
    if key == name then elim o [ some j ↦ some j | none ↦ found ] else found

lookup-fields_of :
    (name : String) (ts : List Tagged) → lookup_field name (fields_of ts) ≡ lookup_tagged name ts
unfolding fields_of
lookup-fields_of name [] = refl
lookup-fields_of name ((key, none) ∷ ts) = ground (arith, lookup-fields_of name ts)
lookup-fields_of name ((key, some j) ∷ ts) = ground (arith, lookup-fields_of name ts)

passphrase_field :
    (c : CbmConfig)
    → c.passphrase ≢ ""
    → field_of "passphrase" (cbm_json c) ≡ some (text c.passphrase)
unfolding cbm_json
passphrase_field c h =
    lookup-fields_of "passphrase" (cbm_fields c) ∙ shown (Bool-cases (c.passphrase == ""))
  where
    shown :
        (c.passphrase == "" ≡ true) ⊎ (c.passphrase == "" ≡ false)
        → lookup_tagged "passphrase" (cbm_fields c) ≡ some (text c.passphrase)
    shown (inl e) = absurd (h ((eq_iff c.passphrase "").0 e))
    shown (inr e) = rw e refl

module _ (format : Formats) (marshal : Json → Result String) where
  -- What is written does not depend on the two keys of the object store; the human readable form does
  -- not depend on the passphrase either, but the JSON form holds it.
  pub record Discreet (r : Report) : Type 0 where
    pub keys :
        (json : Bool) (id key : String)
        → printed format marshal json (report_with (with_secrets id key r.cbm.passphrase) r)
          ≡ printed format marshal json r
    pub passphrase :
        (id key passphrase : String)
        → printed format marshal false (report_with (with_secrets id key passphrase) r)
          ≡ printed format marshal false r
    pub told :
        r.cbm.passphrase ≢ ""
        → field_of "passphrase" (cbm_json r.cbm) ≡ some (text r.cbm.passphrase)

  -- What Print writes is the same whatever the keys of the object store are, in both forms, and the
  -- human readable form is the same whatever the passphrase is; but the JSON form of the configuration
  -- has a passphrase that is not empty in its field "passphrase".
  pub printed-Discreet : (r : Report) → Discreet r
  unfolding printed cbm_json report_json report_string cbm_string cbm_rows
  printed-Discreet r = record {
    keys = λ json id key.
        elim json
          as (λ j.
            printed format marshal j (report_with (with_secrets id key r.cbm.passphrase) r)
            ≡ printed format marshal j r) [ false ↦ refl | true ↦ refl ];
    passphrase = λ id key passphrase. refl;
    told = passphrase_field r.cbm;
  }
