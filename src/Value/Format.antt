-- ===== src/Value/Format.antt =====
-- `fmt.Sprintf` as the program uses it, and `strconv.Itoa`, over native texts.
pub mod Laws
use cbtools_autobench.Base.{
  ℕ, zero, suc, ◌+◌, ◌/◌, ◌%◌, Char, code, String, ◌<>◌, Bool, true, false, ◌&&◌, ◌||◌, List, [],
  ◌∷◌, ltb, leb, eqb, if◌then◌else◌,
}

-- The digit of a number below ten.
digit : ℕ → String
digit zero = "0"
digit (suc zero) = "1"
digit (suc (suc zero)) = "2"
digit (suc (suc (suc zero))) = "3"
digit (suc (suc (suc (suc zero)))) = "4"
digit (suc (suc (suc (suc (suc zero))))) = "5"
digit (suc (suc (suc (suc (suc (suc zero)))))) = "6"
digit (suc (suc (suc (suc (suc (suc (suc zero))))))) = "7"
digit (suc (suc (suc (suc (suc (suc (suc (suc zero)))))))) = "8"
digit _ = "9"

itoa_loop : ℕ → ℕ → String
unfolding digit
itoa_loop zero n = ""
itoa_loop (suc fuel) n =
    let front = itoa_loop fuel (n / 10) in if ltb n 10 then digit n else front <> digit (n % 10)

-- Decimal digits. A number `n` has at most `n + 1` digits, which is the fuel.
unfoldable pub itoa : ℕ → String
unfolding itoa_loop
itoa n = itoa_loop (suc n) n

-- The arguments that the program passes: texts and integers.
pub data Arg : Type 0 where
  str : String → Arg
  num : ℕ → Arg

-- An argument as `%s` prints a text and `%d` an integer.
unfoldable pub show_arg : Arg → String
show_arg (str s) = s
show_arg (num n) = itoa n

-- The characters that may stand between `%` and its verb: flags, width and precision.
is_modifier : Char → Bool
is_modifier c =
    let n = code c in
    (leb b'0' n && leb n b'9') || eqb n b'+' || eqb n b'-' || eqb n b'#' || eqb n b' ' || eqb n b'.'

verb : Char → List Arg → String
unfolding show_arg
verb c [] = "%!" <> (String.◌∷◌ c String.[] <> "(MISSING)")
verb c (a ∷ args) = show_arg a

rest_of : {A : Type 0} → List A → List A
rest_of [] = []
rest_of (a ∷ args) = args

-- The scan of the format; the flag is set behind a `%`. A verb without an argument prints
-- `%!v(MISSING)`, and a format that ends behind a `%` prints `%!(NOVERB)`.
scan : String → Bool → List Arg → String
scan String.[] true args = "%!(NOVERB)"
scan String.[] false args = ""
scan (String.◌∷◌ c s) true args = elim (is_modifier c) [
  | true ↦ scan s true args
  | false ↦ elim (eqb (code c) b'%') [
    | true ↦ "%" <> scan s false args
    | false ↦ verb c args <> scan s false (rest_of args)
  ]
]
scan (String.◌∷◌ c s) false args = elim (eqb (code c) b'%') [
  | true ↦ scan s true args
  | false ↦ String.◌∷◌ c (scan s false args)
]

-- Each format of the program has a verb for each argument, of the argument's type, so a mismatch and
-- a left-over argument are not modelled, nor are the modifiers `*` and `[n]`.
unfoldable pub sprintf : String → List Arg → String
unfolding scan verb rest_of is_modifier show_arg itoa
sprintf format args = scan format false args
