-- ===== src/Effect/Session/Blame.antt =====
-- Sessions that fail only if something that they asked for has failed.
use mathlib.Core.List.{append-nil}
use cbtools_autobench.Base.{ℕ, String, List, [], All, map, ◌++◌}
use cbtools_autobench.Result.{Result, ok, err, panic, fatal}
use cbtools_autobench.Effect.Process.{Trace}
use cbtools_autobench.Effect.Runs.{Pooling, Ensures-mono}
use cbtools_autobench.Effect.Blame.{
  Blamed, Blames, Blamed-right, Blamed-wrapping, Blamed-Shuffled, failure_left,
}
use cbtools_autobench.Effect.Session.{
  Routine, finish, beside, Script, if_ok, ◌>>=◌, run, returning, in_context, Pools, Always,
  Always-mono, Always-and_then,
}

module _ {Below : Pooling ⊥} (P : Pools Below) {A : Type 0} where
  pub record BlamesAlways (s : Script A) : Type 0 where
    pub runs : Always P s (λ tr r. Blamed tr r)

  pub BlamesAlways-run : (m : Routine A) → Blames P.tasks.pooled m → BlamesAlways (run m)
  unfolding Always
  BlamesAlways-run m h = record {
    runs = Ensures-mono P.tasks.pooled m _ _ (λ tr r b. rw append-nil b) h.runs;
  }

  pub BlamesAlways-value : (a : A) → BlamesAlways (returning (ok a))
  unfolding Always
  BlamesAlways-value a = record { runs = tt }

  pub BlamesAlways-in_context :
      (context : String) (s : Script A) → BlamesAlways s → BlamesAlways (in_context context s)
  unfolding in_context Always
  BlamesAlways-in_context context s h = record {
    runs =
        Always-and_then P s _ _
          (Always-mono P s _ _ (λ tr r b. rw append-nil (Blamed-wrapping context tr r b)) h.runs);
  }

module _ {Below : Pooling ⊥} (P : Pools Below) {A B : Type 0} where
  pub BlamesAlways-bind :
      (s : Script A) (f : A → Script B)
      → BlamesAlways P s
      → ((a : A) → BlamesAlways P (f a))
      → BlamesAlways P (s >>= f)
  unfolding ◌>>=◌ Always
  BlamesAlways-bind s f hs hf = record {
    runs = Always-and_then P s (if_ok f) _ (Always-mono P s _ _ goes hs.runs);
  }
    where
      goes :
          (tr : Trace) (r : Result A)
          → Blamed tr r
          → Always P (if_ok f r) (λ tr' s. Blamed (tr ++ tr') s)
      goes tr (ok a) b = Always-mono P (f a) _ _ (Blamed-right tr) (hf a).runs
      goes tr (err e) b = failure_left [] b
      goes tr (panic s) b = failure_left [] b
      goes tr (fatal s) b = failure_left [] b

module _ {Below : Pooling ⊥} (P : Pools Below) {X : Type 0} (f : X → Routine Unit) (Q : X → Type 0)
    (blames : (x : X) → Q x → Blames P.tasks.pooled (f x)) where
  pub BlamesAlways-beside :
      (n : ℕ) (xs : List X) → All Q xs → BlamesAlways P (beside n (map f xs) (λ r. finish r))
  unfolding Always
  BlamesAlways-beside n xs h = record {
    runs = λ front r pooled.
        rw append-nil (Blamed-Shuffled f Q blames xs h (P.routines.documented pooled));
  }
