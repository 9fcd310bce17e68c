-- ===== src/Effect/Session/Plans.antt =====
-- Sessions that follow a plan.
use mathlib.Core.List.{append-nil}
use cbtools_autobench.Base.{ℕ, String, ◌≡◌, List, [], ◌++◌, map}
use cbtools_autobench.Result.{Result, ok, err, panic, fatal, wrapping}
use cbtools_autobench.Effect.Process.{Trace}
use cbtools_autobench.Effect.Runs.{Pooling, Ensures, Ensures-mono}
use cbtools_autobench.Effect.Plan.{
  commands, commands-append, Plan, nothing, both, first, all_merged, Meets, Obeys,
}
use cbtools_autobench.Effect.Follows.{Follows, Obeys-both}
use cbtools_autobench.Effect.Pools.{Obeys-Shuffled}
use cbtools_autobench.Effect.Session.{
  Routine, finish, beside, Script, if_ok, ◌>>=◌, run, returning, in_context, closing, finally,
  Pools, Always, Always-mono, Always-and_then,
}

module _ {Below : Pooling ⊥} (P : Pools Below) {A : Type 0} where
  pub record Carries (plan : Plan) (s : Script A) : Type 0 where
    pub runs : Always P s (λ tr r. Obeys plan (commands tr) r)

  pub Carries-run :
      (plan : Plan) (m : Routine A) → Follows P.tasks.pooled plan m → Carries plan (run m)
  unfolding Always
  Carries-run plan m h = record {
    runs = Ensures-mono P.tasks.pooled m _ _ (λ tr r o. rw append-nil o) h.runs;
  }

  pub Carries-value : (a : A) → Carries nothing (returning (ok a))
  unfolding Always commands
  Carries-value a = record { runs = Meets.nothing }

  keep :
      (plan : Plan) (context : String) (tr : Trace) (r : Result A)
      → Obeys plan (commands tr) r
      → Obeys plan (commands (tr ++ [])) (wrapping context r)
  keep plan context tr (ok a) h = rw append-nil h
  keep plan context tr (err e) h = rw append-nil h
  keep plan context tr (panic e) h = rw append-nil h
  keep plan context tr (fatal e) h = rw append-nil h

  pub Carries-in_context :
      (plan : Plan) (context : String) (s : Script A)
      → Carries plan s
      → Carries plan (in_context context s)
  unfolding in_context Always
  Carries-in_context plan context s h = record {
    runs = Always-and_then P s _ _ (Always-mono P s _ _ (keep plan context) h.runs);
  }

  -- Whatever is closed at the end sends no command.
  pub Carries-finally :
      (plan : Plan) (close : Routine Unit) (s : Script A)
      → Ensures P.tasks.pooled close (λ tr r. commands tr ≡ [])
      → Carries plan s
      → Carries plan (finally close s)
  unfolding finally Always
  Carries-finally plan close s silent h = record {
    runs = Always-and_then P s _ _ (Always-mono P s _ _ goes h.runs);
  }
    where
      quiet :
          (tr : Trace) (r : Result A)
          → Obeys plan (commands tr) r
          → (tr' : Trace) → commands tr' ≡ []
          → Obeys plan (commands (tr ++ (tr' ++ []))) r
      quiet tr r o tr' e = rw (append-nil, commands-append, e, append-nil) o

      goes :
          (tr : Trace) (r : Result A)
          → Obeys plan (commands tr) r
          → Always P (closing close r) (λ tr' s. Obeys plan (commands (tr ++ tr')) s)
      goes tr (ok a) o =
          Ensures-mono P.tasks.pooled close _ _ (λ tr' x e. quiet tr (ok a) o tr' e) silent
      goes tr (err e) o =
          Ensures-mono P.tasks.pooled close _ _ (λ tr' x q. quiet tr (err e) o tr' q) silent
      goes tr (panic e) o =
          Ensures-mono P.tasks.pooled close _ _ (λ tr' x q. quiet tr (panic e) o tr' q) silent
      goes tr (fatal e) o = rw append-nil o

module _ {Below : Pooling ⊥} (P : Pools Below) {A B : Type 0} where
  pub Carries-bind :
      (p q : Plan) (s : Script A) (f : A → Script B)
      → Carries P p s
      → ((a : A) → Carries P q (f a))
      → Carries P (both p q) (s >>= f)
  unfolding ◌>>=◌ Always
  Carries-bind p q s f hs hf = record {
    runs = Always-and_then P s (if_ok f) _ (Always-mono P s _ _ goes hs.runs);
  }
    where
      goes :
          (tr : Trace) (r : Result A)
          → Obeys p (commands tr) r
          → Always P (if_ok f r) (λ tr' s. Obeys (both p q) (commands (tr ++ tr')) s)
      goes tr (ok a) h = Always-mono P (f a) _ _ (λ tr' s. Obeys-both p q tr tr' s h) (hf a).runs
      goes tr (err e) h = rw append-nil (first h)
      goes tr (panic e) h = rw append-nil (first h)
      goes tr (fatal e) h = rw append-nil (first h)

-- The plan of a pool of routines: their plans, side by side.
module _ {Below : Pooling ⊥} (P : Pools Below) {X : Type 0} (f : X → Routine Unit) (plan : X → Plan)
    (obey : (x : X) → Follows P.tasks.pooled (plan x) (f x)) where
  pub Carries-beside :
      (n : ℕ) (xs : List X)
      → Carries P (all_merged (map plan xs)) (beside n (map f xs) (λ r. finish r))
  unfolding Always
  Carries-beside n xs = record {
    runs = λ front r pooled.
        rw append-nil (Obeys-Shuffled f plan obey xs (P.routines.documented pooled));
  }
