-- ===== src/Cmd/Main/Errors.antt =====
-- The message with which the program ends.
use cbtools_autobench.Base.{◌≡◌, refl, ap, String, ◌<>◌, false, List, [], ◌∷◌}
use cbtools_autobench.Result.{Error, message, wrap, embed}
use cbtools_autobench.Cmd.Main.{error_text, cause, parse_bool, Outside, error_line}

-- The error is not one of errors.Wrap.
abbrev pub IsRoot : Error → Type 0
IsRoot (message s) = Unit
IsRoot (wrap s e) = ⊥
IsRoot (embed s e) = Unit

-- errors.Wrap with each of these contexts, the last one innermost
unfoldable pub wraps : List String → Error → Error
wraps [] e = e
wraps (context ∷ contexts) e = wrap context (wraps contexts e)

-- The error `c` behind all contexts that errors.Wrap has put in front of it.
pub record IsCause (e c : Error) : Type 0 where
  pub contexts : List String
  pub behind : e ≡ wraps contexts c
  pub root : IsRoot c

cause-IsCause : (e : Error) → IsCause e (cause e)
unfolding cause wraps
cause-IsCause (message s) = record { contexts = []; behind = refl; root = tt }
cause-IsCause (wrap s e) =
    let h = cause-IsCause e in
    record { contexts = s ∷ h.contexts; behind = ap (wrap s) h.behind; root = h.root }
cause-IsCause (embed s e) = record { contexts = []; behind = refl; root = tt }

-- Unless a stack trace is asked for, the message with which the program ends is that of the error behind
-- all contexts that errors.Wrap has put in front of it, without any of these; the contexts of the `%w`
-- of fmt.Errorf behind them are kept.
pub error_line-IsCause :
    (outside : Outside) (e : Error)
    → parse_bool outside.display ≡ false
    → (c : Error) × IsCause e c × (error_line outside e ≡ "Error: " <> (error_text c <> "\n"))
unfolding error_line
error_line-IsCause outside e h = (cause e, cause-IsCause e, rw h refl)
