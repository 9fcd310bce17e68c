-- ===== src/Effect/Pools.antt =====
-- The plan of a worker pool: the plans of its workers, side by side.
use mathlib.Core.List.{append-nil}
use cbtools_autobench.Base.{ℕ, List, [], ◌∷◌, map}
use cbtools_autobench.Result.{Result, ok, err, panic, fatal, ended, ended-fails, Succeeds}
use cbtools_autobench.Effect.Process.{Trace, done, pool, Exec}
use cbtools_autobench.Effect.Runs.{
  Merge, Pooling, Runs, Ensures, Ensures-Runs, Partly, none, queued, unqueued, Shuffled, idle,
  finished, reported, hidden, dropped, Pool,
}
use cbtools_autobench.Effect.Plan.{
  commands, commands-Merge, Action, Plan, merged, Meets, Begins, stopped, whole, Obeys,
  Merge-nil_left, all_merged,
}
use cbtools_autobench.Effect.Follows.{Follows, Obeys-Begins}

Obeys-merged :
    {p : Plan} (q : Plan) {xs : List Action} (ys : List Action) {zs : List Action} (r : Result Unit)
    → Meets p xs
    → Obeys q ys r
    → Merge xs ys zs
    → Obeys (merged p q) zs r
Obeys-merged q ys (ok a) h k m = Meets.merged h k m
Obeys-merged q ys (err e) h k m = Begins.merged (whole h) k m
Obeys-merged q ys (panic e) h k m = Begins.merged (whole h) k m
Obeys-merged q ys (fatal e) h k m = Begins.merged (whole h) k m

Begins-failed :
    {p : Plan} {xs : List Action} (r : Result Unit) → ¬ Succeeds r → Begins p xs → Obeys p xs r
Begins-failed (ok a) n h = absurd (n tt)
Begins-failed (err e) n h = h
Begins-failed (panic e) n h = h
Begins-failed (fatal e) n h = h

module _ {V X : Type 0} {Below : Pooling V} (f : X → Exec V Unit) (plan : X → Plan)
    (obey : (x : X) → Follows Below (plan x) (f x)) where
  Obeys-Runs :
      (x : X) {tr : Trace} {r : Result Unit}
      → Runs Below (f x) tr r
      → Obeys (plan x) (commands tr) r
  Obeys-Runs x runs = Ensures-Runs Below (λ tr r. Obeys (plan x) (commands tr) r) (obey x).runs runs

  Begins-Partly :
      (xs : List X) {tr : Trace}
      → Partly (Runs Below) (map f xs) tr
      → Begins (all_merged (map plan xs)) (commands tr)
  unfolding all_merged commands
  Begins-Partly [] none = stopped
  Begins-Partly (x ∷ xs) (queued {r} runs rest m) =
      Begins.merged (Obeys-Begins r (Obeys-Runs x runs)) (Begins-Partly xs rest) (commands-Merge m)
  Begins-Partly (x ∷ xs) (unqueued rest) =
      Begins.merged stopped (Begins-Partly xs rest) (Merge-nil_left _)

  pub Obeys-Shuffled :
      (xs : List X) {tr : Trace} {r : Result Unit}
      → Shuffled (Runs Below) (map f xs) tr r
      → Obeys (all_merged (map plan xs)) (commands tr) r
  unfolding all_merged commands
  Obeys-Shuffled [] idle = Meets.nothing
  Obeys-Shuffled (x ∷ xs) (finished {r} runs rest m) =
      Obeys-merged _ _ r (Obeys-Runs x runs) (Obeys-Shuffled xs rest) (commands-Merge m)
  Obeys-Shuffled (x ∷ xs) (reported {r} runs n rest m) = Begins-failed (ended r) (ended-fails r n) (
      Begins.merged (Obeys-Begins r (Obeys-Runs x runs)) (Begins-Partly xs rest) (commands-Merge m))
  Obeys-Shuffled (x ∷ xs) (hidden {r} {s} runs rest n m) = Begins-failed s n (
      Begins.merged (Obeys-Begins r (Obeys-Runs x runs)) (Obeys-Begins s (Obeys-Shuffled xs rest))
        (commands-Merge m))
  Obeys-Shuffled (x ∷ xs) (dropped {s} rest n) =
      Begins-failed s n
        (Begins.merged stopped (Obeys-Begins s (Obeys-Shuffled xs rest)) (Merge-nil_left _))

  pub Follows-pool :
      (P : Pool (Exec V Unit) (Runs Below)) (n : ℕ) (xs : List X)
      → Follows P.pooled (all_merged (map plan xs)) (pool n (map f xs) (λ r. done r))
  unfolding Ensures
  Follows-pool P n xs = record {
    runs = λ front r pooled. rw append-nil (Obeys-Shuffled xs (P.documented pooled));
  }
