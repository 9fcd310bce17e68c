-- ===== src/Effect/FollowsSome.antt =====
-- Procedures whose plan depends on what the machines answer.
use mathlib.Core.List.{append-nil}
use cbtools_autobench.Base.{◌++◌}
use cbtools_autobench.Result.{Result, ok, err, panic, fatal}
use cbtools_autobench.Effect.Process.{Trace, Exec, on_ok, ◌>>=◌}
use cbtools_autobench.Effect.Runs.{Pooling, Ensures, Ensures-mono, Ensures-continue}
use cbtools_autobench.Effect.Plan.{commands, Plan, both, first, Obeys}
use cbtools_autobench.Effect.Follows.{Follows, Obeys-both}

module _ {W : Type 0} (Pooled : Pooling W) {X A : Type 0} where
  -- Whatever the environment answers, the remote commands keep to one of the plans.
  pub record FollowsSome (plan : X → Plan) (m : Exec W A) : Type 0 where
    pub runs : Ensures Pooled m (λ tr r. (x : X) × Obeys (plan x) (commands tr) r)

  pub FollowsSome-given :
      (plan : X → Plan) (x : X) (m : Exec W A) → Follows Pooled (plan x) m → FollowsSome plan m
  FollowsSome-given plan x m h = record {
    runs = Ensures-mono Pooled m _ _ (λ tr r o. (x, o)) h.runs;
  }

module _ {W : Type 0} (Pooled : Pooling W) {X A B : Type 0} where
  -- A first part with a fixed plan; some `x` is needed for the runs that stop in it.
  pub FollowsSome-bind :
      (p : Plan) (q : X → Plan) (x : X) (m : Exec W A) (f : A → Exec W B)
      → Follows Pooled p m
      → ((a : A) → FollowsSome Pooled q (f a))
      → FollowsSome Pooled (λ x. both p (q x)) (m >>= f)
  unfolding ◌>>=◌ Ensures
  FollowsSome-bind p q x m f hm hf = record {
    runs =
        Ensures-continue Pooled m (on_ok f) _
          (Ensures-mono Pooled m _ _ (λ tr r. goes tr r) hm.runs);
  }
    where
      goes :
          (tr : Trace) (r : Result A)
          → Obeys p (commands tr) r
          → Ensures Pooled
              (on_ok f r)
              (λ tr' s. (x : X) × Obeys (both p (q x)) (commands (tr ++ tr')) s)
      goes tr (ok a) h =
          Ensures-mono Pooled (f a) _ _ (λ tr' s (y, o). (y, Obeys-both p (q y) tr tr' s h o))
            (hf a).runs
      goes tr (err e) h = (x, rw append-nil (first h))
      goes tr (panic e) h = (x, rw append-nil (first h))
      goes tr (fatal e) h = (x, rw append-nil (first h))

module _ {W : Type 0} (Pooled : Pooling W) {X Y A B : Type 0} where
  -- Two parts whose plans both depend on the answers; some `y` is needed for the runs that stop in the
  -- first.
  pub FollowsSome-then :
      (p : X → Plan) (q : Y → Plan) (y : Y) (m : Exec W A) (f : A → Exec W B)
      → FollowsSome Pooled p m
      → ((a : A) → FollowsSome Pooled q (f a))
      → FollowsSome Pooled (λ (x, y). both (p x) (q y)) (m >>= f)
  unfolding ◌>>=◌ Ensures
  FollowsSome-then p q y m f hm hf = record {
    runs =
        Ensures-continue Pooled m (on_ok f) _
          (Ensures-mono Pooled m _ _ (λ tr r (x, o). goes x tr r o) hm.runs);
  }
    where
      goes :
          (x : X) (tr : Trace) (r : Result A)
          → Obeys (p x) (commands tr) r
          → Ensures Pooled
              (on_ok f r)
              (λ tr' s. (z : X × Y) × Obeys (both (p z.0) (q z.1)) (commands (tr ++ tr')) s)
      goes x tr (ok a) h =
          Ensures-mono Pooled (f a) _ _
            (λ tr' s (z, o). ((x, z), Obeys-both (p x) (q z) tr tr' s h o)) (hf a).runs
      goes x tr (err e) h = ((x, y), rw append-nil (first h))
      goes x tr (panic e) h = ((x, y), rw append-nil (first h))
      goes x tr (fatal e) h = ((x, y), rw append-nil (first h))

module _ {W : Type 0} (Pooled : Pooling W) {X Y A : Type 0} where
  -- Some of the plans.
  pub FollowsSome-along :
      (plan : X → Plan) (g : Y → X) (m : Exec W A)
      → FollowsSome Pooled (λ y. plan (g y)) m
      → FollowsSome Pooled plan m
  FollowsSome-along plan g m h = record {
    runs = Ensures-mono Pooled m _ _ (λ tr r (y, o). (g y, o)) h.runs;
  }
