-- ===== src/Effect/Plan.antt =====
-- Plans: which remote commands a procedure sends, in which order, and which of them may be left out.
use cbtools_autobench.Base.{String, ◌≡◌, refl, ap, List, [], ◌∷◌, ◌++◌, map}
use cbtools_autobench.Result.{Result, ok, err, panic, fatal}
use cbtools_autobench.Effect.Process.{combined_output, start, replied, Trace}
use cbtools_autobench.Effect.Runs.{Merge, end, left, right}

-- A command line sent to a host.
abbrev pub Action : Type 0
Action = String × String

-- The commands that a trace has sent to remote machines, whether they succeeded or not.
unfoldable pub commands : Trace → List Action
commands [] = []
commands (replied (combined_output host line) y ∷ tr) = (host, line) ∷ commands tr
commands (replied (start host line) y ∷ tr) = (host, line) ∷ commands tr
commands (_ ∷ tr) = commands tr

-- `may` leaves a command out or not, `among` sends one of a family of commands or none, `both` is one
-- after the other and `merged` is side by side.
pub data Plan : Type 0 where
  nothing : Plan
  must : String → String → Plan
  may : String → String → Plan
  among : String → (String × String → String) → Plan
  both merged : Plan → Plan → Plan

-- The whole plan has been carried out.
pub data Meets : Plan → List Action → Type 0 where
  nothing : Meets Plan.nothing []
  must : {host line : String} → Meets (Plan.must host line) ((host, line) ∷ [])
  taken : {host line : String} → Meets (Plan.may host line) ((host, line) ∷ [])
  skipped : {host line : String} → Meets (Plan.may host line) []
  chosen :
      {host : String} {line : String × String → String} (i : String × String)
      → Meets (Plan.among host line) ((host, line i) ∷ [])
  unchosen : {host : String} {line : String × String → String} → Meets (Plan.among host line) []
  both :
      {p q : Plan} {xs ys : List Action}
      → Meets p xs
      → Meets q ys
      → Meets (Plan.both p q) (xs ++ ys)
  merged :
      {p q : Plan} {xs ys zs : List Action}
      → Meets p xs
      → Meets q ys
      → Merge xs ys zs
      → Meets (Plan.merged p q) zs

-- The plan has been carried out up to some command, on each branch.
pub data Begins : Plan → List Action → Type 0 where
  stopped : {p : Plan} → Begins p []
  whole : {p : Plan} {xs : List Action} → Meets p xs → Begins p xs
  first : {p q : Plan} {xs : List Action} → Begins p xs → Begins (Plan.both p q) xs
  second :
      {p q : Plan} {xs ys : List Action}
      → Meets p xs
      → Begins q ys
      → Begins (Plan.both p q) (xs ++ ys)
  merged :
      {p q : Plan} {xs ys zs : List Action}
      → Begins p xs
      → Begins q ys
      → Merge xs ys zs
      → Begins (Plan.merged p q) zs

-- A procedure that returns nil has carried out its plan, and one that fails has stopped within it.
abbrev pub Obeys : {A : Type 0} → Plan → List Action → Result A → Type 0
Obeys p xs (ok a) = Meets p xs
Obeys p xs (err e) = Begins p xs
Obeys p xs (panic s) = Begins p xs
Obeys p xs (fatal s) = Begins p xs

-- Commands to one host, one after the other.
unfoldable pub on_host : String → List String → Plan
on_host host [] = Plan.nothing
on_host host (line ∷ lines) = Plan.both (Plan.must host line) (on_host host lines)

-- Plans side by side.
unfoldable pub all_merged : List Plan → Plan
all_merged [] = Plan.nothing
all_merged (p ∷ ps) = Plan.merged p (all_merged ps)

pub commands-append : (xs ys : Trace) → commands (xs ++ ys) ≡ commands xs ++ commands ys
unfolding commands
commands-append [] ys = refl
commands-append (replied (combined_output host line) y ∷ xs) ys =
    ap (λ cs. (host, line) ∷ cs) (commands-append xs ys)
commands-append (replied (start host line) y ∷ xs) ys =
    ap (λ cs. (host, line) ∷ cs) (commands-append xs ys)
commands-append (e ∷ xs) ys = commands-append xs ys

pub commands-Merge :
    {xs ys zs : Trace} → Merge xs ys zs → Merge (commands xs) (commands ys) (commands zs)
unfolding commands
commands-Merge end = end
commands-Merge (left (replied (combined_output host line) y) m) = left _ (commands-Merge m)
commands-Merge (left (replied (start host line) y) m) = left _ (commands-Merge m)
commands-Merge (left e m) = commands-Merge m
commands-Merge (right (replied (combined_output host line) y) m) = right _ (commands-Merge m)
commands-Merge (right (replied (start host line) y) m) = right _ (commands-Merge m)
commands-Merge (right e m) = commands-Merge m

pub Merge-nil_left : {A : Type 0} (xs : List A) → Merge [] xs xs
Merge-nil_left [] = end
Merge-nil_left (x ∷ xs) = right x (Merge-nil_left xs)

-- What a plan of commands to one host asks for.
abbrev pub at_host : String → List String → List Action
at_host host = map (λ line. (host, line))

pub Meets-on_host :
    (host : String) (lines : List String) {xs : List Action}
    → Meets (on_host host lines) xs
    → xs ≡ at_host host lines
unfolding on_host
Meets-on_host host [] nothing = refl
Meets-on_host host (l ∷ ls) (both must m) = ap (λ cs. (host, l) ∷ cs) (Meets-on_host host ls m)
