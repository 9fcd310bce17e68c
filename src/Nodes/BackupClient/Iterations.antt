-- ===== src/Nodes/BackupClient/Iterations.antt =====
-- How many results a benchmark returns.
use mathlib.Core.Path.{subst}
use cbtools_autobench.Base.{
  ◌≡◌, ℕ, zero, suc, ◌+◌, ◌≤◌, max, Bool, true, false, [], ◌∷◌, ◌++◌, length, length-append, arith,
}
use cbtools_autobench.Result.{Result, ok, err, panic, fatal, Succeeds}
use cbtools_autobench.Value.Blueprint.{BenchmarkConfig}
use cbtools_autobench.Value.Benchmark.{BenchmarkResult, BenchmarkResults}
use cbtools_autobench.Effect.Process.{answered, interrupted, Trace, Task, pure}
use cbtools_autobench.Effect.Runs.{Pooling, Ensures, Ensures-mono}
use cbtools_autobench.Effect.Last.{IsLate, Ensures-last}
use cbtools_autobench.Nodes.Library.{Library}
use cbtools_autobench.Nodes.Cluster.{Cluster, Main}
use cbtools_autobench.Nodes.BackupClient.{BackupClient, iterate, run_backups, run_restores}

-- The context is never seen cancelled.
pub Uninterrupted : Trace → Type 0
Uninterrupted [] = Unit
Uninterrupted (answered interrupted true ∷ tr) = ⊥
Uninterrupted (_ ∷ tr) = Uninterrupted tr

Uninterrupted-rest : (xs ys : Trace) → Uninterrupted (xs ++ ys) → Uninterrupted ys
unfolding Uninterrupted
Uninterrupted-rest [] ys h = h
Uninterrupted-rest (answered interrupted true ∷ xs) ys h = absurd h
Uninterrupted-rest (e ∷ xs) ys h = Uninterrupted-rest xs ys h

pub Uninterrupted-front : (xs ys : Trace) → Uninterrupted (xs ++ ys) → Uninterrupted xs
unfolding Uninterrupted
Uninterrupted-front [] ys h = tt
Uninterrupted-front (answered interrupted true ∷ xs) ys h = h
Uninterrupted-front (e ∷ xs) ys h = Uninterrupted-front xs ys h

-- From `least` to `most` results, and `most` if the run was not interrupted.
pub record Counted (least most : ℕ) (tr : Trace) (results : BenchmarkResults) : Type 0 where
  pub enough : least ≤ length results
  pub bounded : length results ≤ most
  pub complete : Uninterrupted tr → length results ≡ most

abbrev pub WhenOk : ℕ → ℕ → Trace → Result BenchmarkResults → Type 0
WhenOk least most tr (ok results) = Counted least most tr results
WhenOk least most tr (err e) = Unit
WhenOk least most tr (panic s) = Unit
WhenOk least most tr (fatal s) = Unit

WhenOk-IsLate : (least most : ℕ) → IsLate (WhenOk least most)
WhenOk-IsLate least most = record { failures = failures; before = before }
  where
    failures : (tr : Trace) (r : Result BenchmarkResults) → ¬ Succeeds r → WhenOk least most tr r
    failures tr (ok rs) h = absurd (h tt)
    failures tr (err e) h = tt
    failures tr (panic e) h = tt
    failures tr (fatal e) h = tt

    before :
        (front tr : Trace) (r : Result BenchmarkResults)
        → WhenOk least most tr r
        → WhenOk least most (front ++ tr) r
    before front tr (ok rs) h = record {
      enough = h.enough;
      bounded = h.bounded;
      complete = λ u. h.complete (Uninterrupted-rest front tr u);
    }
    before front tr (err e) h = tt
    before front tr (panic e) h = tt
    before front tr (fatal e) h = tt

-- One more result, and the look at the context behind it.
WhenOk-answered :
    (least : ℕ) (results : BenchmarkResults) (result : BenchmarkResult) (left : ℕ) (tr : Trace)
    (r : Result BenchmarkResults)
    → WhenOk least (length (results ++ result ∷ []) + left) tr r
    → WhenOk least (length results + suc left) (answered interrupted false ∷ tr) r
unfolding Uninterrupted
WhenOk-answered least results result left tr (ok rs) h = record {
  enough = h.enough;
  bounded = more h.bounded;
  complete = λ u. total (h.complete u);
}
  where
    grown : length (results ++ result ∷ []) ≡ length results + 1
    grown = length-append results (result ∷ [])

    more :
        length rs ≤ length (results ++ result ∷ []) + left → length rs ≤ length results + suc left
    more h = let g = grown in omega arith

    total :
        length rs ≡ length (results ++ result ∷ []) + left → length rs ≡ length results + suc left
    total h = let g = grown in omega arith
WhenOk-answered least results result left tr (err e) h = tt
WhenOk-answered least results result left tr (panic e) h = tt
WhenOk-answered least results result left tr (fatal e) h = tt

-- The loop is left early.
Counted-interrupted :
    (least : ℕ) (results : BenchmarkResults) (result : BenchmarkResult) (left : ℕ)
    → least ≤ length results + 1
    → Counted least
        (length results + suc left)
        (answered interrupted true ∷ [])
        (results ++ result ∷ [])
unfolding Uninterrupted
Counted-interrupted least results result left k = record {
  enough = let g = grown in omega arith;
  bounded = let g = grown in omega arith;
  complete = λ u. absurd u;
}
  where
    grown : length (results ++ result ∷ []) ≡ length results + 1
    grown = length-append results (result ∷ [])

module _ (Pooled : Pooling (Task Unit)) where
  iterate-WhenOk :
      (left : ℕ) (benchmark : Main BenchmarkResult) (results : BenchmarkResults) (least : ℕ)
      → least ≤ length results + left
      → least ≤ length results + 1
      → Ensures Pooled (iterate left benchmark results) (WhenOk least (length results + left))
  unfolding iterate Ensures
  iterate-WhenOk zero benchmark results least h k = record {
    enough = omega arith;
    bounded = omega arith;
    complete = λ u. omega arith;
  }
  iterate-WhenOk (suc left) benchmark results least h k =
      Ensures-last Pooled _ benchmark _ (WhenOk-IsLate _ _) (λ result stop.
        let grown = length-append results (result ∷ []) in
        goes result
          (iterate-WhenOk left benchmark (results ++ result ∷ []) least (omega arith) (omega arith))
          stop)
    where
      goes :
          (result : BenchmarkResult)
          → Ensures Pooled
              (iterate left benchmark (results ++ result ∷ []))
              (WhenOk least (length (results ++ result ∷ []) + left))
          → (stop : Bool)
          → Ensures Pooled
              (elim stop [
                | true ↦ pure (results ++ result ∷ [])
                | false ↦ iterate left benchmark (results ++ result ∷ [])
              ])
              (λ tr r. WhenOk least (length results + suc left) (answered interrupted stop ∷ tr) r)
      goes result rest true = Counted-interrupted least results result left k
      goes result rest false =
          Ensures-mono Pooled (iterate left benchmark (results ++ result ∷ [])) _ _
            (WhenOk-answered least results result left) rest

  counted :
      (n : ℕ) (benchmark : Main BenchmarkResult)
      → Ensures Pooled (iterate (max 1 n) benchmark []) (WhenOk 1 (max 1 n))
  counted n benchmark =
      let all : length {A = BenchmarkResult} [] + max 1 n ≡ max 1 n = omega arith in
      subst (λ (most : ℕ). Ensures Pooled (iterate (max 1 n) benchmark []) (WhenOk 1 most)) all
        (iterate-WhenOk (max 1 n) benchmark [] 1 (omega arith) (omega arith))

  -- Whatever the remote machines answer, a backup benchmark that succeeds returns at least one and at
  -- most `max 1 iterations` results, and exactly that many if the context is never seen cancelled.
  pub run_backups-Counted :
      (library : Library) (b : BackupClient) (config : BenchmarkConfig) (cluster : Cluster)
      → Ensures Pooled (run_backups library b config cluster) (WhenOk 1 (max 1 config.iterations))
  unfolding run_backups
  run_backups-Counted library b config cluster =
      Ensures-last Pooled _ _ _ (WhenOk-IsLate _ _)
        (λ _. Ensures-last Pooled _ _ _ (WhenOk-IsLate _ _) (λ _. counted _ _))

  -- Whatever the remote machines answer, a restore benchmark that succeeds returns at least one and at
  -- most `max 1 iterations` results, and exactly that many if the context is never seen cancelled.
  pub run_restores-Counted :
      (library : Library) (b : BackupClient) (config : BenchmarkConfig) (cluster : Cluster)
      → Ensures Pooled (run_restores library b config cluster) (WhenOk 1 (max 1 config.iterations))
  unfolding run_restores
  run_restores-Counted library b config cluster =
      Ensures-last Pooled _ _ _ (WhenOk-IsLate _ _) (λ _.
        Ensures-last Pooled _ _ _ (WhenOk-IsLate _ _)
          (λ _. Ensures-last Pooled _ _ _ (WhenOk-IsLate _ _) (λ info. counted _ _)))

  -- Whatever the remote machines answer, a backup benchmark that succeeds, and likewise a restore
  -- benchmark that succeeds, returns at least one and at most `max 1 iterations` results, and exactly
  -- that many if the context is never seen cancelled.
  pub runs-Counted :
      (library : Library) (b : BackupClient) (config : BenchmarkConfig) (cluster : Cluster)
      → Ensures Pooled (run_backups library b config cluster) (WhenOk 1 (max 1 config.iterations))
        × Ensures Pooled
            (run_restores library b config cluster)
            (WhenOk 1 (max 1 config.iterations))
  runs-Counted library b config cluster =
      (run_backups-Counted library b config cluster, run_restores-Counted library b config cluster)
