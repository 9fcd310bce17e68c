-- ===== src/Effect/Last.antt =====
-- A property of the last part of a procedure that goes over to the whole.
use cbtools_autobench.Base.{◌++◌}
use cbtools_autobench.Result.{Result, ok, err, panic, fatal, Succeeds}
use cbtools_autobench.Effect.Process.{Trace, Exec, on_ok, ◌>>=◌}
use cbtools_autobench.Effect.Runs.{Pooling, Ensures, Ensures-always, Ensures-mono, Ensures-continue}

-- `Q` says nothing of failures, and stays true if events come before.
pub record IsLate {B : Type 0} (Q : Trace → Result B → Type 0) : Type 0 where
  pub failures : (tr : Trace) (r : Result B) → ¬ Succeeds r → Q tr r
  pub before : (front tr : Trace) (r : Result B) → Q tr r → Q (front ++ tr) r

module _ {W : Type 0} (Pooled : Pooling W) {A B : Type 0} where
  pub Ensures-last :
      (Q : Trace → Result B → Type 0) (m : Exec W A) (f : A → Exec W B)
      → IsLate Q
      → ((a : A) → Ensures Pooled (f a) Q)
      → Ensures Pooled (m >>= f) Q
  unfolding ◌>>=◌ Ensures
  Ensures-last Q m f late h = Ensures-continue Pooled m (on_ok f) Q (Ensures-always Pooled m _ goes)
    where
      goes : (tr : Trace) (r : Result A) → Ensures Pooled (on_ok f r) (λ tr' s. Q (tr ++ tr') s)
      goes tr (ok a) = Ensures-mono Pooled (f a) _ _ (late.before tr) (h a)
      goes tr (err e) = late.failures _ _ (λ s. s)
      goes tr (panic e) = late.failures _ _ (λ s. s)
      goes tr (fatal e) = late.failures _ _ (λ s. s)
