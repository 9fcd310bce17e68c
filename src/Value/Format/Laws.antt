-- ===== src/Value/Format/Laws.antt =====
-- `sprintf` on texts that hold no verb.
use text.Mathlib.TextLemmas.{nil-append, cons-append, append-nil}
use cbtools_autobench.Base.{
  ◌≡◌, refl, ◌<>◌, ap, ◌∙◌, ℕ, String, code, Bool, true, false, not, ◌&&◌, List, [], ◌∷◌, arith,
  eqb,
}
use cbtools_autobench.Value.Format.{Arg, str, num, sprintf, scan, itoa}

-- The text holds no `%`.
abbrev pub IsVerbFree : String → Type 0
IsVerbFree String.[] = Unit
IsVerbFree (String.◌∷◌ c s) = (eqb (code c) b'%' ≡ false) × IsVerbFree s

-- The same as a test, which `refl` decides for a given text.
abbrev pub verb_free : String → Bool
verb_free String.[] = true
verb_free (String.◌∷◌ c s) = not (eqb (code c) b'%') && verb_free s

pub verb_free-IsVerbFree : (s : String) → verb_free s ≡ true → IsVerbFree s
verb_free-IsVerbFree String.[] h = tt
verb_free-IsVerbFree (String.◌∷◌ c s) h = (ground arith, verb_free-IsVerbFree s (ground arith))

scan-IsVerbFree : (s : String) → IsVerbFree s → scan s false [] ≡ s
unfolding scan
scan-IsVerbFree String.[] h = refl
scan-IsVerbFree (String.◌∷◌ c s) (plain, h) = ground (arith, scan-IsVerbFree s h)

pub sprintf-IsVerbFree : (s : String) → IsVerbFree s → sprintf s [] ≡ s
unfolding sprintf
sprintf-IsVerbFree s h = scan-IsVerbFree s h

scan-append :
    (p s : String) (args : List Arg)
    → IsVerbFree p
    → scan (p <> s) false args ≡ p <> scan s false args
unfolding scan
scan-append String.[] s args h = rw (nil-append, nil-append)
scan-append (String.◌∷◌ c p) s args (plain, h) =
    rw (cons-append, cons-append) (ground (arith, scan-append p s args h))

-- A last `%s` or `%d` prints its argument.
pub sprintf-str : (p x : String) → IsVerbFree p → sprintf (p <> "%s") (str x ∷ []) ≡ p <> x
unfolding sprintf
sprintf-str p x h = scan-append p "%s" (str x ∷ []) h ∙ ap (λ t. p <> t) (append-nil x)

pub sprintf-num :
    (p : String) (n : ℕ) → IsVerbFree p → sprintf (p <> "%d") (num n ∷ []) ≡ p <> itoa n
unfolding sprintf
sprintf-num p n h = scan-append p "%d" (num n ∷ []) h ∙ ap (λ t. p <> t) (append-nil (itoa n))
