-- ===== src/Effect/Simulate.antt =====
-- The run of a process in a given environment: every process ends, whatever it is answered.
use cbtools_autobench.Base.{ℕ, Bool, List, [], ◌∷◌, ◌++◌}
use cbtools_autobench.Result.{Result, ok, err, panic, fatal, crashed}
use cbtools_autobench.Effect.Process.{
  Request, Reply, Question, Gauge, replied, answered, read, Trace, Process, done, request, ask,
  measure, pool, Task,
}
use cbtools_autobench.Effect.Runs.{
  Merge, end, left, right, Pooling, Runs, ends, replies, answers, reads, pools, Shuffled, idle,
  finished, reported, Shuffled-Partly, Pool,
}

-- What is answered to each request and question, the numbers, and how a pool of workers ends.
pub record Environment (W : Type 0) : Type 0 where
  pub reply : Request → Reply
  pub settle : Question → Bool
  pub gauge : Gauge → ℕ
  pub stop : List W → Trace × Result (Unit {0})

module _ {W A : Type 0} (e : Environment W) where
  unfoldable pub simulate : Process W A → Trace × A
  simulate (done a) = ([], a)
  simulate (request r k) =
      let rest = simulate (k (e.reply r)) in (replied r (e.reply r) ∷ rest.0, rest.1)
  simulate (ask q k) =
      let rest = simulate (k (e.settle q)) in (answered q (e.settle q) ∷ rest.0, rest.1)
  simulate (measure g k) =
      let rest = simulate (k (e.gauge g)) in (read g (e.gauge g) ∷ rest.0, rest.1)
  simulate (pool n ws k) =
      let rest = simulate (k (e.stop ws).1) in ((e.stop ws).0 ++ rest.0, rest.1)

  pub simulate-Runs :
      (Pooled : Pooling W)
      → ((n : ℕ) (ws : List W) → Pooled n ws (e.stop ws).0 (e.stop ws).1)
      → (p : Process W A) → Runs Pooled p (simulate p).0 (simulate p).1
  unfolding simulate
  simulate-Runs Pooled h (done a) = ends a
  simulate-Runs Pooled h (request r k) = replies _ (simulate-Runs Pooled h (k (e.reply r)))
  simulate-Runs Pooled h (ask q k) = answers _ (simulate-Runs Pooled h (k (e.settle q)))
  simulate-Runs Pooled h (measure g k) = reads _ (simulate-Runs Pooled h (k (e.gauge g)))
  simulate-Runs Pooled h (pool n ws k) = pools _ (h n ws) (simulate-Runs Pooled h (k (e.stop ws).1))

-- The result of a pool: that of its first worker to fail.
abbrev pub first_failure : Result (Unit {0}) → Result (Unit {0}) → Result (Unit {0})
first_failure (ok a) s = s
first_failure (err e) s = err e
first_failure (panic m) s = fatal (crashed m)
first_failure (fatal m) s = fatal m

-- The workers of a pool, one after the other.
module _ (reply : Request → Reply) (settle : Question → Bool) (gauge : Gauge → ℕ) where
  abbrev pub worker : Environment ⊥
  worker = record { reply = reply; settle = settle; gauge = gauge; stop = λ ws. ([], ok tt) }

  unfoldable pub in_turn : List (Task Unit) → Trace × Result (Unit {0})
  in_turn [] = ([], ok tt)
  in_turn (w ∷ ws) =
      let first = simulate worker w in
      let rest = in_turn ws in (first.0 ++ rest.0, first_failure first.1 rest.1)

  unfoldable pub machine : Environment (Task Unit)
  machine = record { reply = reply; settle = settle; gauge = gauge; stop = in_turn }

pub Merge-append : {A : Type 0} (xs ys : List A) → Merge xs ys (xs ++ ys)
Merge-append [] [] = end
Merge-append [] (y ∷ ys) = right y (Merge-append [] ys)
Merge-append (x ∷ xs) ys = left x (Merge-append xs ys)

-- No worker has a pool of its own.
abbrev pub no_pool : Pooling ⊥
no_pool n ws tr r = Unit

-- A pool that does all that is documented.
abbrev pub any_pool : Pool (Task Unit) (Runs no_pool)
any_pool = record { pooled = λ n ws tr r. Shuffled (Runs no_pool) ws tr r; documented = λ p. p }

pub Shuffled-cons :
    {W : Type 0} (RunsWorker : W → Trace → Result (Unit {0}) → Type 0) (w : W) (ws : List W)
    (xs ys : Trace) (r s : Result (Unit {0}))
    → RunsWorker w xs r
    → Shuffled RunsWorker ws ys s
    → Shuffled RunsWorker (w ∷ ws) (xs ++ ys) (first_failure r s)
Shuffled-cons RunsWorker w ws xs ys (ok tt) s h k = finished h k (Merge-append _ _)
Shuffled-cons RunsWorker w ws xs ys (err e) s h k =
    reported h (λ x. x) (Shuffled-Partly RunsWorker k) (Merge-append _ _)
Shuffled-cons RunsWorker w ws xs ys (panic e) s h k =
    reported h (λ x. x) (Shuffled-Partly RunsWorker k) (Merge-append _ _)
Shuffled-cons RunsWorker w ws xs ys (fatal e) s h k =
    reported h (λ x. x) (Shuffled-Partly RunsWorker k) (Merge-append _ _)

module _ (reply : Request → Reply) (settle : Question → Bool) (gauge : Gauge → ℕ) where
  in_turn-Shuffled :
      (ws : List (Task Unit))
      → Shuffled
          (Runs no_pool)
          ws
          (in_turn reply settle gauge ws).0
          (in_turn reply settle gauge ws).1
  unfolding in_turn
  in_turn-Shuffled [] = idle
  in_turn-Shuffled (w ∷ ws) =
      Shuffled-cons (Runs no_pool) w ws _ _ _ _
        (simulate-Runs (worker reply settle gauge) no_pool (λ n ws. tt) w) (in_turn-Shuffled ws)

  -- The workers may run one after the other, so whatever is answered, each procedure has a run, with
  -- the trace and the result that `simulate` computes.
  pub machine-Runs :
      {A : Type 0} (p : Process (Task Unit) A)
      → Runs any_pool.pooled p
          (simulate (machine reply settle gauge) p).0
          (simulate (machine reply settle gauge) p).1
  unfolding machine
  machine-Runs p =
      simulate-Runs (machine reply settle gauge) any_pool.pooled (λ n ws. in_turn-Shuffled ws) p
