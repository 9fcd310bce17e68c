-- ===== src/Value/Build.antt =====
-- extractBuild of value/cluster.go and RegexBuildID of value/regex.go. The pattern is
-- `(\d+\.\d+\.\d+)-(\d+)`: each `\d+` takes all the digits there are, as no digit may follow it, and
-- the leftmost match is taken.
pub mod Numbers
pub mod Laws
pub mod RoundTrip
use Prim.Native.Nat.{ℕ}
use cbtools_autobench.Base.{
  String, ◌<>◌, ◌==◌, Char, code, Bool, ◌&&◌, Option, none, some, leb, eqb, if◌then◌else◌,
}

unfoldable pub is_digit : Char → Bool
is_digit c = leb b'0' (code c) && leb (code c) b'9'

pub digits : String → String
digits String.[] = ""
digits (String.◌∷◌ c s) = let rest = digits s in if is_digit c then String.◌∷◌ c rest else ""

pub behind_digits : String → String
behind_digits String.[] = ""
behind_digits (String.◌∷◌ c s) =
    let rest = behind_digits s in if is_digit c then rest else String.◌∷◌ c s

infixl 5 ◌>>=◌
abbrev pub ◌>>=◌ : {A : Type 0} {B : Type 0} → Option A → (A → Option B) → Option B
none >>= f = none
some a >>= f = f a

-- `\d+`: the digits, and the text behind them
unfoldable pub number : String → Option (String × String)
number s = if digits s == "" then none else some (digits s, behind_digits s)

-- One character, given by its code: the text behind it.
pub skip : ℕ → String → Option String
skip x String.[] = none
skip x (String.◌∷◌ c s) = if eqb (code c) x then some s else none

-- A build identifier with some text behind it.
abbrev pub build_then : String → String → String → String → String → String
build_then a b c d rest =
    a <> String.◌∷◌ "." (b <> String.◌∷◌ "." (c <> String.◌∷◌ "-" (d <> rest)))

-- A match that begins with the text.
pub match_at : String → Option String
match_at s = do
  (a, s) ← number s
  s ← skip b'.' s
  (b, s) ← number s
  s ← skip b'.' s
  (c, s) ← number s
  s ← skip b'-' s
  (d, s) ← number s
  some (build_then a b c d "")

pub find_build : String → Option String
find_build String.[] = match_at ""
find_build (String.◌∷◌ c s) =
    let rest = find_build s in
    elim (match_at (String.◌∷◌ c s)) [ some found ↦ some found | none ↦ rest ]

-- extractBuild
unfoldable pub extract_build : String → String
unfolding find_build match_at number skip digits behind_digits is_digit
extract_build s = elim (find_build s) [ some found ↦ found | none ↦ "unknown" ]
