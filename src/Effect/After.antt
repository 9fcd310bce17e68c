-- ===== src/Effect/After.antt =====
-- What comes after a first part that follows a plan.
use mathlib.Core.List.{append-nil}
use cbtools_autobench.Base.{◌++◌}
use cbtools_autobench.Result.{Result, ok, err, panic, fatal, Succeeds}
use cbtools_autobench.Effect.Process.{Trace, Exec, on_ok, ◌>>=◌}
use cbtools_autobench.Effect.Runs.{Pooling, Ensures, Ensures-mono, Ensures-continue}
use cbtools_autobench.Effect.Plan.{commands, Plan, Meets, Begins, Obeys}
use cbtools_autobench.Effect.Follows.{Follows}

module _ {W : Type 0} (Pooled : Pooling W) {A B : Type 0} where
  pub Ensures-after :
      (p : Plan) (R : Trace → Result B → Type 0) (m : Exec W A) (f : A → Exec W B)
      → Follows Pooled p m
      → ((tr : Trace) (r : Result B) → ¬ Succeeds r → Begins p (commands tr) → R tr r)
      → ((tr : Trace) (a : A)
          → Meets p (commands tr)
          → Ensures Pooled (f a) (λ tr' r. R (tr ++ tr') r))
      → Ensures Pooled (m >>= f) R
  unfolding ◌>>=◌ Ensures
  Ensures-after p R m f hm failed go =
      Ensures-continue Pooled m (on_ok f) R (Ensures-mono Pooled m _ _ goes hm.runs)
    where
      goes :
          (tr : Trace) (r : Result A)
          → Obeys p (commands tr) r
          → Ensures Pooled (on_ok f r) (λ tr' s. R (tr ++ tr') s)
      goes tr (ok a) h = go tr a h
      goes tr (err e) h = rw append-nil (failed tr (err e) (λ s. s) h)
      goes tr (panic e) h = rw append-nil (failed tr (panic e) (λ s. s) h)
      goes tr (fatal e) h = rw append-nil (failed tr (fatal e) (λ s. s) h)
