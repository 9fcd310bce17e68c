-- ===== src/Value/Build/Numbers.antt =====
-- The numbers of a build identifier, and what is read between them.
use text.Mathlib.TextLemmas.{nil-append, cons-append, cons-ne-nil}
use text.Mathlib.TextEquality.{Char-path}
use mathlib.Core.Path.{subst}
use mathlib.Core.Option.{some-injective}
use cbtools_autobench.Base.{
  ◌≡◌, ◌≢◌, refl, inl, inr, String, ◌<>◌, ◌==◌, eq_iff, Char, code, true, false, Option, none, some,
  arith, eqb, Bool-cases,
}
use cbtools_autobench.Value.Build.{is_digit, digits, behind_digits, ◌>>=◌, number, skip}

abbrev pub AllDigits : String → Type 0
AllDigits String.[] = Unit
AllDigits (String.◌∷◌ c s) = (is_digit c ≡ true) × AllDigits s

-- The text does not begin with a digit.
abbrev pub NoDigit : String → Type 0
NoDigit String.[] = Unit
NoDigit (String.◌∷◌ c s) = is_digit c ≡ false

pub record IsNumber (d : String) : Type 0 where
  pub all_digits : AllDigits d
  pub not_empty : d ≢ ""

digits-append : (d rest : String) → AllDigits d → NoDigit rest → digits (d <> rest) ≡ d
unfolding digits
digits-append String.[] String.[] h k = refl
digits-append String.[] (String.◌∷◌ c s) h k = rw nil-append (ground arith)
digits-append (String.◌∷◌ c d) rest h k =
    rw cons-append (ground (arith, digits-append d rest h.1 k))

behind_digits-append :
    (d rest : String) → AllDigits d → NoDigit rest → behind_digits (d <> rest) ≡ rest
unfolding behind_digits
behind_digits-append String.[] String.[] h k = refl
behind_digits-append String.[] (String.◌∷◌ c s) h k = rw nil-append (ground arith)
behind_digits-append (String.◌∷◌ c d) rest h k =
    rw cons-append (ground (arith, behind_digits-append d rest h.1 k))

digits-AllDigits : (s : String) → AllDigits (digits s)
unfolding digits
digits-AllDigits String.[] = tt
digits-AllDigits (String.◌∷◌ c s) = elim (Bool-cases (is_digit c)) [
  | inl e ↦ rw e (e, digits-AllDigits s)
  | inr e ↦ rw e tt
]

behind_digits-NoDigit : (s : String) → NoDigit (behind_digits s)
unfolding behind_digits
behind_digits-NoDigit String.[] = tt
behind_digits-NoDigit (String.◌∷◌ c s) = ground (arith, behind_digits-NoDigit s)

digits-behind_digits : (s : String) → s ≡ digits s <> behind_digits s
unfolding digits behind_digits
digits-behind_digits String.[] = refl
digits-behind_digits (String.◌∷◌ c s) = ground (
  arith,
  digits-behind_digits s,
  cons-append c (digits s) (behind_digits s),
  nil-append (String.◌∷◌ c s),
)

pub number-append :
    (d rest : String) → IsNumber d → NoDigit rest → number (d <> rest) ≡ some (d, rest)
unfolding number
number-append d rest h k =
    rw (digits-append d rest h.all_digits k, behind_digits-append d rest h.all_digits k)
      (let e = h.not_empty in ground (arith, eq_iff d ""))

-- What `number` reads, and that it leaves no digit behind.
pub record Read (s : String) (p : String × String) : Type 0 where
  pub front : s ≡ p.0 <> p.1
  pub read : IsNumber p.0
  pub behind : NoDigit p.1

pub number-Read : (s : String) {p : String × String} → number s ≡ some p → Read s p
unfolding number
number-Read s {p} h = elim (Bool-cases (digits s == "")) [
  | inl e ↦ let k = rw (e, number) at h in cc
  | inr e ↦
      let k : some (digits s, behind_digits s) ≡ some p = rw (e, number) at h in
      subst (Read s) (some-injective _ _ k) (record {
        front = digits-behind_digits s;
        read = record {
          all_digits = digits-AllDigits s;
          not_empty = ground (arith, eq_iff (digits s) "");
        };
        behind = behind_digits-NoDigit s;
      })
]

digits-cons :
    (c : Char) (s : String) → is_digit c ≡ true → digits (String.◌∷◌ c s) ≡ String.◌∷◌ c (digits s)
unfolding digits
digits-cons c s e = ground arith

behind_digits-cons :
    (c : Char) (s : String) → is_digit c ≡ true → behind_digits (String.◌∷◌ c s) ≡ behind_digits s
unfolding behind_digits
behind_digits-cons c s e = ground arith

-- The digits at the front are a number as soon as there is one.
pub number-some :
    (d rest : String) → IsNumber d → (p : String × String) × (number (d <> rest) ≡ some p)
unfolding number
number-some String.[] rest h = absurd (h.not_empty refl)
number-some (String.◌∷◌ c d) rest h =
    let e = h.all_digits.0 in
    (
      (String.◌∷◌ c (digits (d <> rest)), behind_digits (d <> rest)),
      rw (cons-append, digits-cons c (d <> rest) e, behind_digits-cons c (d <> rest) e)
          (ground (
            arith,
            eq_iff (String.◌∷◌ c (digits (d <> rest))) "",
            cons-ne-nil c (digits (d <> rest)),
          )),
    )

pub bind-some :
    {A B : Type 0} (m : Option A) (f : A → Option B) {b : B}
    → (m >>= f) ≡ some b
    → (a : A) × (m ≡ some a) × (f a ≡ some b)
bind-some none f h = cc
bind-some (some a) f h = (a, refl, h)

skipped : (d : Char) (s : String) {t : String} → skip (code d) s ≡ some t → s ≡ String.◌∷◌ d t
unfolding skip
skipped d String.[] h = cc
skipped d (String.◌∷◌ c s) {t} h = elim (Bool-cases (eqb (code c) (code d))) [
  | inl e ↦
      let k : some s ≡ some t = rw e at h in
      let same : c ≡ d = Char-path c d (ground arith) in cc (same, some-injective s t k)
  | inr e ↦ let k : none ≡ some t = rw e at h in cc
]

pub skip-dot : (s : String) {t : String} → skip b'.' s ≡ some t → s ≡ String.◌∷◌ "." t
skip-dot s h = skipped "." s h

pub skip-dash : (s : String) {t : String} → skip b'-' s ≡ some t → s ≡ String.◌∷◌ "-" t
skip-dash s h = skipped "-" s h
