-- ===== src/Value/Build/RoundTrip.antt =====
-- extractBuild of value/cluster.go on the name of a package.
use text.Mathlib.TextLemmas.{nil-append, cons-append}
use cbtools_autobench.Base.{◌≡◌, refl, String, ◌<>◌, false, some, none, Char}
use cbtools_autobench.Value.Build.{
  is_digit, digits, number, skip, build_then, match_at, find_build, extract_build,
}
use cbtools_autobench.Value.Build.Numbers.{IsNumber, NoDigit, number-append}

abbrev pub HasNoDigits : String → Type 0
HasNoDigits String.[] = Unit
HasNoDigits (String.◌∷◌ c s) = (is_digit c ≡ false) × HasNoDigits s

find_build_now : (s m : String) → match_at s ≡ some m → find_build s ≡ some m
unfolding find_build
find_build_now String.[] m h = h
find_build_now (String.◌∷◌ c s) m h = rw (find_build, h) refl

match_at-none : (c : Char) (s : String) → is_digit c ≡ false → match_at (String.◌∷◌ c s) ≡ none
unfolding match_at number digits
match_at-none c s h = rw h refl

match_at-build_then :
    (major minor patch build rest : String)
    → IsNumber major
    → IsNumber minor
    → IsNumber patch
    → IsNumber build
    → NoDigit rest
    → match_at (build_then major minor patch build rest)
      ≡ some (build_then major minor patch build "")
unfolding match_at skip is_digit
match_at-build_then major minor patch build rest na nb nc nd h =
    let behind_patch = String.◌∷◌ "-" (build <> rest) in
    let behind_minor = String.◌∷◌ "." (patch <> behind_patch) in
    let behind_major = String.◌∷◌ "." (minor <> behind_minor) in
    rw
      (
        number-append major behind_major na refl,
        number-append minor behind_minor nb refl,
        number-append patch behind_patch nc refl,
        number-append build rest nd h,
      )
      refl

-- A build identifier behind a front without digits, and with no digit right behind it, is what
-- extractBuild returns: no part of it is lost, nothing is added.
pub extract_build-build_then :
    (front major minor patch build rest : String)
    → HasNoDigits front
    → IsNumber major
    → IsNumber minor
    → IsNumber patch
    → IsNumber build
    → NoDigit rest
    → extract_build (front <> build_then major minor patch build rest)
      ≡ build_then major minor patch build ""
unfolding extract_build find_build
extract_build-build_then front major minor patch build rest clean na nb nc nd h =
    rw (extract_build, found front clean) refl
  where
    text : String
    text = build_then major minor patch build rest

    found :
        (front : String)
        → HasNoDigits front
        → find_build (front <> text) ≡ some (build_then major minor patch build "")
    found String.[] clean =
        rw nil-append
          (find_build_now text _ (match_at-build_then major minor patch build rest na nb nc nd h))
    found (String.◌∷◌ c s) (e, clean) =
        rw (cons-append, find_build, match_at-none c (s <> text) e) (found s clean)
