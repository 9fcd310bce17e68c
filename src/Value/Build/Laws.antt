-- ===== src/Value/Build/Laws.antt =====
-- What extractBuild of value/cluster.go finds in a text.
use text.Mathlib.TextLemmas.{
  nil-append, cons-append, tail-eq_of_cons-eq, length-cons, append-eq-nil_iff,
}
use Prim.Native.String.{count}
use Prim.Native.Nat.{◌≤◌}
use mathlib.Core.Option.{some-injective}
use cbtools_autobench.Base.{
  ◌≡◌, refl, sym, ap, ◌∙◌, ◌⊎◌, inl, inr, String, ◌<>◌, Char, Option, none, some, arith,
}
use cbtools_autobench.Value.Build.{
  is_digit, digits, number, skip, build_then, match_at, find_build, extract_build,
}
use cbtools_autobench.Value.Build.Numbers.{
  NoDigit, IsNumber, number-append, number-Read, number-some, bind-some, skip-dot, skip-dash,
}

-- The text is a build identifier in front of another text.
pub record IsBuild (m rest s : String) : Type 0 where
  pub major : String
  pub minor : String
  pub patch : String
  pub build : String
  pub numbers : IsNumber major × IsNumber minor × IsNumber patch × IsNumber build
  pub spelled : m ≡ build_then major minor patch build ""
  pub front : s ≡ build_then major minor patch build rest

match_at-some : (s m rest : String) → IsBuild m rest s → (p : String) × (match_at s ≡ some p)
unfolding match_at skip is_digit
match_at-some s m rest h =
    let (na, nb, nc, nd) = h.numbers in
    let (d, e) = number-some h.build rest nd in
    let behind_c = String.◌∷◌ "-" (h.build <> rest) in
    let behind_b = String.◌∷◌ "." (h.patch <> behind_c) in
    let behind_a = String.◌∷◌ "." (h.minor <> behind_b) in
    (
      build_then h.major h.minor h.patch d.0 "",
      rw
          (
            h.front,
            number-append h.major behind_a na refl,
            number-append h.minor behind_b nb refl,
            number-append h.patch behind_c nc refl,
            e,
          )
          refl,
    )

-- What is matched is a build with no digit behind it.
match_at-IsBuild :
    (s m : String) → match_at s ≡ some m → (rest : String) × IsBuild m rest s × NoDigit rest
unfolding match_at
match_at-IsBuild s m h =
    let (a, ea, h) = bind-some (number s) _ h in
    let (sa, fa, h) = bind-some (skip b'.' a.1) _ h in
    let (b, eb, h) = bind-some (number sa) _ h in
    let (sb, fb, h) = bind-some (skip b'.' b.1) _ h in
    let (c, ec, h) = bind-some (number sb) _ h in
    let (sc, fc, h) = bind-some (skip b'-' c.1) _ h in
    let (d, ed, h) = bind-some (number sc) _ h in
    let ra = number-Read s ea in
    let rb = number-Read sa eb in
    let rc = number-Read sb ec in
    let rd = number-Read sc ed in
    (
      d.1,
      record {
        major = a.0;
        minor = b.0;
        patch = c.0;
        build = d.0;
        numbers = (ra.read, rb.read, rc.read, rd.read);
        spelled = sym (some-injective _ _ h);
        front =
            ra.front
            ∙ ap (λ t. a.0 <> t)
                (skip-dot a.1 fa
                  ∙ ap (λ t. String.◌∷◌ "." t)
                      (rb.front
                        ∙ ap (λ t. b.0 <> t)
                            (skip-dot b.1 fb
                              ∙ ap (λ t. String.◌∷◌ "." t)
                                  (rc.front
                                    ∙ ap (λ t. c.0 <> t)
                                        (skip-dash c.1 fc
                                          ∙ ap (λ t. String.◌∷◌ "-" t) rd.front)))));
      },
      rd.behind,
    )

-- The first build of a text: no build begins before it, and no digit stands behind it.
pub record IsFirst (m s : String) : Type 0 where
  pub before : String
  pub at : String
  pub rest : String
  pub split : s ≡ before <> at
  pub build : IsBuild m rest at
  pub greedy : NoDigit rest
  pub leftmost :
      (before' at' m' rest' : String)
      → s ≡ before' <> at'
      → IsBuild m' rest' at'
      → count before ≤ count before'

abbrev pub HasNone : String → Type 0
HasNone s = (before at m rest : String) → s ≡ before <> at → ¬ IsBuild m rest at

abbrev Found : String → Option String → Type 0
Found s none = HasNone s
Found s (some m) = IsFirst m s

none-HasNone :
    (c : Char) (s : String)
    → match_at (String.◌∷◌ c s) ≡ none
    → HasNone s
    → HasNone (String.◌∷◌ c s)
none-HasNone c s h k String.[] at m rest e b =
    let (p, q) = match_at-some at m rest b in
    let at_all : String.◌∷◌ c s ≡ at = rw nil-append at e in cc (h, q, at_all)
none-HasNone c s h k (String.◌∷◌ d before) at m rest e b =
    k before at m rest (tail-eq_of_cons-eq (rw cons-append at e)) b

later-IsFirst :
    (c : Char) (s m : String)
    → match_at (String.◌∷◌ c s) ≡ none
    → IsFirst m s
    → IsFirst m (String.◌∷◌ c s)
later-IsFirst c s m h f = record {
  before = String.◌∷◌ c f.before;
  at = f.at;
  rest = f.rest;
  split = rw (cons-append, ← f.split) refl;
  build = f.build;
  greedy = f.greedy;
  leftmost = goes;
}
  where
    goes :
        (before' at' m' rest' : String)
        → String.◌∷◌ c s ≡ before' <> at'
        → IsBuild m' rest' at'
        → count (String.◌∷◌ c f.before) ≤ count before'
    goes String.[] at' m' rest' e b =
        let (p, q) = match_at-some at' m' rest' b in
        let at_all : String.◌∷◌ c s ≡ at' = rw nil-append at e in cc (h, q, at_all)
    goes (String.◌∷◌ d before') at' m' rest' e b =
        let l = f.leftmost before' at' m' rest' (tail-eq_of_cons-eq (rw cons-append at e)) b in
        omega (arith, l, length-cons c f.before, length-cons d before')

none_at_end : HasNone ""
unfolding match_at number digits
none_at_end before at m rest e b =
    let (p, q) = match_at-some at m rest b in
    let end : at ≡ "" = (append-eq-nil_iff.0 (sym e)).1 in
    let q : match_at "" ≡ some p = rw end at q in cc q

find_build-Found : (s : String) → Found s (find_build s)
unfolding find_build match_at number digits
find_build-Found String.[] = none_at_end
find_build-Found (String.◌∷◌ c s) =
    goes (match_at (String.◌∷◌ c s)) (find_build s) refl (find_build-Found s)
  where
    goes :
        (o r : Option String)
        → match_at (String.◌∷◌ c s) ≡ o
        → Found s r
        → Found (String.◌∷◌ c s) (elim o [ some found ↦ some found | none ↦ r ])
    goes (some m) r h f =
        let (rest, b, g) = match_at-IsBuild (String.◌∷◌ c s) m h in
        record {
          before = "";
          at = String.◌∷◌ c s;
          rest = rest;
          split = rw nil-append refl;
          build = b;
          greedy = g;
          leftmost = λ before' at' m' rest' e b'. omega arith;
        }
    goes none none h f = none-HasNone c s h f
    goes none (some m) h f = later-IsFirst c s m h f

abbrev named : Option String → String
named o = elim o [ some found ↦ found | none ↦ "unknown" ]

-- What is extracted from a path is its first build, `x.y.z-n` with all the digits that follow, or
-- `unknown` if the path holds no build.
pub extract_build-IsFirst :
    (s : String) → IsFirst (extract_build s) s ⊎ ((extract_build s ≡ "unknown") × HasNone s)
unfolding extract_build
extract_build-IsFirst s = goes (find_build s) (find_build-Found s)
  where
    goes :
        (o : Option String) → Found s o → IsFirst (named o) s ⊎ ((named o ≡ "unknown") × HasNone s)
    goes (some m) f = inl f
    goes none f = inr (refl, f)
