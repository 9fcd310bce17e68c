-- ===== src/Effect/FollowsMaking.antt =====
-- Procedures whose plan and result both depend on what the machines answer.
use mathlib.Core.List.{append-nil}
use cbtools_autobench.Base.{◌++◌}
use cbtools_autobench.Result.{Result, ok, err, panic, fatal}
use cbtools_autobench.Effect.Process.{Trace, Exec, on_ok, ◌>>=◌}
use cbtools_autobench.Effect.Runs.{Pooling, Ensures, Ensures-both, Ensures-mono, Ensures-continue}
use cbtools_autobench.Effect.Plan.{commands, Plan, both, first, Obeys}
use cbtools_autobench.Effect.Follows.{Follows, Obeys-both}
use cbtools_autobench.Effect.FollowsSome.{FollowsSome}
use cbtools_autobench.Effect.Yields.{OnOk, Yields}

module _ {W : Type 0} (Pooled : Pooling W) {X A : Type 0} where
  -- Whatever the environment answers, the remote commands keep to one of the plans, and the result, if
  -- there is one, is related to the same `x`.
  pub record FollowsMaking (plan : X → Plan) (R : X → A → Type 0) (m : Exec W A) : Type 0 where
    pub runs : Ensures Pooled m (λ tr r. (x : X) × Obeys (plan x) (commands tr) r × OnOk (R x) r)

  pub FollowsMaking-given :
      (plan : X → Plan) (R : X → A → Type 0) (x : X) (m : Exec W A)
      → Follows Pooled (plan x) m
      → Yields Pooled (R x) m
      → FollowsMaking plan R m
  FollowsMaking-given plan R x m h k = record {
    runs =
        Ensures-mono Pooled m _ _ (λ tr r (o, k'). (x, o, k'))
          (Ensures-both Pooled m _ _ h.runs k.runs);
  }

module _ {W : Type 0} (Pooled : Pooling W) {X Y A B : Type 0} where
  -- A first part, some `y` being needed for the runs that stop in it.
  pub FollowsMaking-then :
      (p : X → Plan) (q : Y → Plan) (R : Y → B → Type 0) (y : Y) (m : Exec W A) (f : A → Exec W B)
      → FollowsSome Pooled p m
      → ((a : A) → FollowsMaking Pooled q R (f a))
      → FollowsMaking Pooled (λ (x, y). both (p x) (q y)) (λ (x, y). R y) (m >>= f)
  unfolding ◌>>=◌ Ensures
  FollowsMaking-then p q R y m f hm hf = record {
    runs =
        Ensures-continue Pooled m (on_ok f) _
          (Ensures-mono Pooled m _ _ (λ tr r (x, o). goes x tr r o) hm.runs);
  }
    where
      goes :
          (x : X) (tr : Trace) (r : Result A)
          → Obeys (p x) (commands tr) r
          → Ensures Pooled (on_ok f r) (λ tr' s.
            (z : X × Y) × Obeys (both (p z.0) (q z.1)) (commands (tr ++ tr')) s × OnOk (R z.1) s)
      goes x tr (ok a) h =
          Ensures-mono Pooled (f a) _ _
            (λ tr' s (z, o, k). ((x, z), Obeys-both (p x) (q z) tr tr' s h o, k)) (hf a).runs
      goes x tr (err e) h = ((x, y), rw append-nil (first h), tt)
      goes x tr (panic e) h = ((x, y), rw append-nil (first h), tt)
      goes x tr (fatal e) h = ((x, y), rw append-nil (first h), tt)

module _ {W : Type 0} (Pooled : Pooling W) {X A B : Type 0} where
  -- A first part with a fixed plan.
  pub FollowsMaking-bind :
      (p : Plan) (q : X → Plan) (R : X → B → Type 0) (x : X) (m : Exec W A) (f : A → Exec W B)
      → Follows Pooled p m
      → ((a : A) → FollowsMaking Pooled q R (f a))
      → FollowsMaking Pooled (λ x. both p (q x)) R (m >>= f)
  unfolding ◌>>=◌ Ensures
  FollowsMaking-bind p q R x m f hm hf = record {
    runs = Ensures-continue Pooled m (on_ok f) _ (Ensures-mono Pooled m _ _ goes hm.runs);
  }
    where
      goes :
          (tr : Trace) (r : Result A)
          → Obeys p (commands tr) r
          → Ensures Pooled
              (on_ok f r)
              (λ tr' s. (x : X) × Obeys (both p (q x)) (commands (tr ++ tr')) s × OnOk (R x) s)
      goes tr (ok a) h =
          Ensures-mono Pooled (f a) _ _ (λ tr' s (x, o, k). (x, Obeys-both p (q x) tr tr' s h o, k))
            (hf a).runs
      goes tr (err e) h = (x, rw append-nil (first h), tt)
      goes tr (panic e) h = (x, rw append-nil (first h), tt)
      goes tr (fatal e) h = (x, rw append-nil (first h), tt)
