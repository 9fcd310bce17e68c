-- ===== src/Value/Command/Laws.antt =====
-- What `NewCommand` makes of a text.
use cbtools_autobench.Base.{◌≡◌, refl, ℕ, String, code, false, List, [], eqb, arith, ◌∙◌, ap}
use cbtools_autobench.Value.Format.{Arg, sprintf}
use cbtools_autobench.Value.Format.Laws.{IsVerbFree, sprintf-IsVerbFree}
use cbtools_autobench.Value.Command.{new_command, remove_char, remove_continuations}

-- No character of the text has the given code.
abbrev pub Lacks : ℕ → String → Type 0
Lacks x String.[] = Unit
Lacks x (String.◌∷◌ c s) = (eqb (code c) x ≡ false) × Lacks x s

remove_char-Lacks : (x : ℕ) (s : String) → Lacks x (remove_char x s)
unfolding remove_char
remove_char-Lacks x String.[] = tt
remove_char-Lacks x (String.◌∷◌ c s) = ground (arith, remove_char-Lacks x s)

remove_char-keeps_Lacks : (x y : ℕ) (s : String) → Lacks y s → Lacks y (remove_char x s)
unfolding remove_char
remove_char-keeps_Lacks x y String.[] h = tt
remove_char-keeps_Lacks x y (String.◌∷◌ c s) h = ground (arith, remove_char-keeps_Lacks x y s h.1)

remove_char_of_Lacks : (x : ℕ) (s : String) → Lacks x s → remove_char x s ≡ s
unfolding remove_char
remove_char_of_Lacks x String.[] h = refl
remove_char_of_Lacks x (String.◌∷◌ c s) h = ground (arith, remove_char_of_Lacks x s h.1)

remove_continuations_of_Lacks : (s : String) → Lacks b'\n' s → remove_continuations s ≡ s
unfolding remove_continuations
remove_continuations_of_Lacks String.[] h = refl
remove_continuations_of_Lacks (String.◌∷◌ c String.[]) h = refl
remove_continuations_of_Lacks (String.◌∷◌ c (String.◌∷◌ d s)) h =
    ground (arith, remove_continuations_of_Lacks (String.◌∷◌ d s) h.1)

-- Whatever the format and its arguments, a command holds no line end and no tab.
pub new_command-OneLine :
    (format : String) (args : List Arg)
    → Lacks b'\n' (new_command format args) × Lacks b'\t' (new_command format args)
unfolding new_command
new_command-OneLine format args =
    let joined = remove_continuations (sprintf format args) in
    (
      remove_char-keeps_Lacks b'\t' b'\n' (remove_char b'\n' joined)
          (remove_char-Lacks b'\n' joined),
      remove_char-Lacks b'\t' (remove_char b'\n' joined),
    )

-- The text is one line without tabs and verbs.
pub record IsPlain (s : String) : Type 0 where
  pub verbs : IsVerbFree s
  pub lines : Lacks b'\n' s
  pub tabs : Lacks b'\t' s

-- A text of one line that holds no tab and no `%` is a command as it stands.
pub new_command-IsPlain : (s : String) → IsPlain s → new_command s [] ≡ s
unfolding new_command
new_command-IsPlain s h =
    ap (λ t. remove_char b'\t' (remove_char b'\n' (remove_continuations t)))
      (sprintf-IsVerbFree s h.verbs)
    ∙ ap (λ t. remove_char b'\t' (remove_char b'\n' t)) (remove_continuations_of_Lacks s h.lines)
    ∙ ap (remove_char b'\t') (remove_char_of_Lacks b'\n' s h.lines)
    ∙ remove_char_of_Lacks b'\t' s h.tabs
