-- ===== src/Base/Text.antt =====
-- The functions of Go's `strings` and `bytes` that the program calls, on native texts.
use Prim.Native.String.{String}
use Prim.Native.Char.{Char, code}
use Prim.Native.Nat.{ℕ}
use mathlib.Core.Bool.{Bool, ◌&&◌, ◌||◌}
use mathlib.Core.Option.{Option, none, some}
use mathlib.Core.List.{List, [], ◌∷◌}
use text.Mathlib.Text.{◌==◌, starts_with}
use cbtools_autobench.Base.Tests.{leb, eqb, if◌then◌else◌}

-- unicode.IsSpace
unfoldable pub is_space : Char → Bool
is_space c =
    let n = code c in
    (leb 9 n && leb n 13)
    || eqb n 32
    || eqb n 0x85
    || eqb n 0xa0
    || eqb n 0x1680
    || (leb 0x2000 n && leb n 0x200a)
    || eqb n 0x2028
    || eqb n 0x2029
    || eqb n 0x202f
    || eqb n 0x205f
    || eqb n 0x3000

trim_left : String → String
trim_left String.[] = String.[]
trim_left (String.◌∷◌ c s) = if is_space c then trim_left s else String.◌∷◌ c s

trim_right : String → String
trim_right String.[] = String.[]
trim_right (String.◌∷◌ c s) =
    let rest = trim_right s in if is_space c && rest == "" then "" else String.◌∷◌ c rest

-- strings.TrimSpace
unfoldable pub trim_space : String → String
unfolding trim_left trim_right is_space
trim_space s = trim_left (trim_right s)

-- bytes.TrimPrefix and bytes.TrimSuffix for one character, given by its code
unfoldable pub trim_prefix : ℕ → String → String
trim_prefix x String.[] = String.[]
trim_prefix x (String.◌∷◌ c s) = if eqb (code c) x then s else String.◌∷◌ c s

unfoldable pub trim_suffix : ℕ → String → String
trim_suffix x String.[] = String.[]
trim_suffix x (String.◌∷◌ c String.[]) = if eqb (code c) x then "" else String.◌∷◌ c String.[]
trim_suffix x (String.◌∷◌ c (String.◌∷◌ d s)) = String.◌∷◌ c (trim_suffix x (String.◌∷◌ d s))

-- `s[strings.Index(s, t):]`, or nothing where the index is -1
unfoldable pub from_first : String → String → Option String
from_first t String.[] = if t == "" then some "" else none
from_first t (String.◌∷◌ c s) =
    let rest = from_first t s in
    if starts_with (String.◌∷◌ c s) t then some (String.◌∷◌ c s) else rest

-- `s[:strings.Index(s, x)]` for one character, or nothing where the index is -1
unfoldable pub up_to : ℕ → String → Option String
up_to x String.[] = none
up_to x (String.◌∷◌ c s) =
    let rest = up_to x s in
    if eqb (code c) x
    then some ""
    else elim rest [ none ↦ none | some front ↦ some (String.◌∷◌ c front) ]

on_head : Char → List String → List String
on_head c [] = String.◌∷◌ c String.[] ∷ []
on_head c (s ∷ rest) = String.◌∷◌ c s ∷ rest

-- strings.Split for one character
unfoldable pub split : ℕ → String → List String
unfolding on_head
split x String.[] = "" ∷ []
split x (String.◌∷◌ c s) =
    let rest = split x s in if eqb (code c) x then "" ∷ rest else on_head c rest

non_empty : List String → List String
non_empty [] = []
non_empty (s ∷ rest) = let more = non_empty rest in if s == "" then more else s ∷ more

split_spaces : String → List String
unfolding on_head is_space
split_spaces String.[] = "" ∷ []
split_spaces (String.◌∷◌ c s) =
    let rest = split_spaces s in if is_space c then "" ∷ rest else on_head c rest

-- strings.Fields
unfoldable pub fields : String → List String
unfolding non_empty split_spaces
fields s = non_empty (split_spaces s)
