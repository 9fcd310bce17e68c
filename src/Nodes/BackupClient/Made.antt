-- ===== src/Nodes/BackupClient/Made.antt =====
-- Where the results of BenchmarkBackup and BenchmarkRestore of nodes/backup_client.go come from.
use mathlib.Core.List.{append-nil, append_assoc}
use cbtools_autobench.Base.{
  ℕ, zero, suc, String, ◌≡◌, refl, Bool, true, false, not, [], ◌∷◌, ◌++◌, if◌then◌else◌,
}
use cbtools_autobench.Result.{Result, ok, err, panic, fatal, wrapping, Succeeds}
use cbtools_autobench.Value.Blueprint.{BenchmarkConfig}
use cbtools_autobench.Value.Benchmark.{BenchmarkResult, BenchmarkResults}
use cbtools_autobench.Effect.Process.{
  Trace, Task, answered, interrupted, ask, on_ok, wrapped, pure, ◌>>=◌,
}
use cbtools_autobench.Effect.Runs.{Pooling, Runs, Pool, Ensures, Ensures-mono, Ensures-continue}
use cbtools_autobench.Effect.Yields.{OnOk}
use cbtools_autobench.Effect.Last.{IsLate, Ensures-last}
use cbtools_autobench.Effect.After.{Ensures-after}
use cbtools_autobench.Effect.Plan.{Plan, nothing, both, commands, Meets}
use cbtools_autobench.Effect.Follows.{Follows-wrapped, Follows-pure}
use cbtools_autobench.Nodes.Library.{Library}
use cbtools_autobench.Nodes.Cluster.{Cluster, Main}
use cbtools_autobench.Nodes.Cluster.Load.{flush_bucket_command}
use cbtools_autobench.Nodes.Cluster.Load.Plans.{flush_bucket-Follows}
use cbtools_autobench.Nodes.Cluster.Setup.Plans.{first_plan, Follows-choice}
use cbtools_autobench.Nodes.BackupClient.{
  BackupClient, iterate, restore_once, run_backups, run_restores,
}
use cbtools_autobench.Nodes.BackupClient.Benchmarks.{
  Timed, WhenTimed, backup_plan, restore_plan, benchmark_backup-WhenTimed,
  benchmark_restore-WhenTimed,
}

-- The rounds of a run, one after the other, each with its result and a look at the context behind it.
pub data Iterated (Round : Trace → BenchmarkResult → Type 0)
    : Trace → BenchmarkResults → Type 0 where
  none : Iterated Round [] []
  next :
      {tr tr' : Trace} {result : BenchmarkResult} {results : BenchmarkResults} (stop : Bool)
      → Round tr result
      → Iterated Round tr' results
      → Iterated Round (tr ++ answered interrupted stop ∷ tr') (result ∷ results)

-- After a first part, the run is rounds with these results.
pub record Made (Round : Trace → BenchmarkResult → Type 0) (tr : Trace) (results : BenchmarkResults)
    : Type 0 where
  pub setup : Trace
  pub rounds : Trace
  pub whole_trace : tr ≡ setup ++ rounds
  pub iterated : Iterated Round rounds results

-- A restore that is timed, behind the flush of the bucket if there is one.
pub record Restored (flush restore : Plan) (tr : Trace) (result : BenchmarkResult) : Type 0 where
  pub front : Trace
  pub back : Trace
  pub whole_trace : tr ≡ front ++ back
  pub flushed : Meets flush (commands front)
  pub restored : Timed restore back result

module _ (Round : Trace → BenchmarkResult → Type 0) where
  abbrev pub WhenMade : Trace → Result BenchmarkResults → Type 0
  WhenMade tr r = OnOk (Made Round tr) r

  WhenMade-IsLate : IsLate WhenMade
  WhenMade-IsLate = record { failures = failures; before = before }
    where
      failures : (tr : Trace) (r : Result BenchmarkResults) → ¬ Succeeds r → WhenMade tr r
      failures tr (ok rs) h = absurd (h tt)
      failures tr (err e) h = tt
      failures tr (panic e) h = tt
      failures tr (fatal e) h = tt

      before :
          (front tr : Trace) (r : Result BenchmarkResults)
          → WhenMade tr r
          → WhenMade (front ++ tr) r
      before front tr (ok rs) h = record {
        setup = front ++ h.setup;
        rounds = h.rounds;
        whole_trace = rw (h.whole_trace, append_assoc) refl;
        iterated = h.iterated;
      }
      before front tr (err e) h = tt
      before front tr (panic e) h = tt
      before front tr (fatal e) h = tt

  -- The results that have been added to the first ones are those of rounds.
  abbrev WhenAdded : BenchmarkResults → Trace → Result BenchmarkResults → Type 0
  WhenAdded before tr r =
      OnOk
        (λ results.
          (added : BenchmarkResults) × (results ≡ before ++ added) × Iterated Round tr added)
        r

  one_more :
      (before : BenchmarkResults) (result : BenchmarkResult) (tr : Trace) (stop : Bool)
      → Round tr result
      → (tr' : Trace) (r : Result BenchmarkResults) → WhenAdded (before ++ result ∷ []) tr' r
      → WhenAdded before (tr ++ answered interrupted stop ∷ tr') r
  one_more before result tr stop q tr' (ok results) (added, e, i) =
      (result ∷ added, rw (e, append_assoc) refl, next stop q i)
  one_more before result tr stop q tr' (err e) h = tt
  one_more before result tr stop q tr' (panic e) h = tt
  one_more before result tr stop q tr' (fatal e) h = tt

  module _ (Pooled : Pooling (Task Unit)) where
    iterate-WhenAdded :
        (left : ℕ) (benchmark : Main BenchmarkResult) (before : BenchmarkResults)
        → Ensures Pooled benchmark (λ tr r. OnOk (Round tr) r)
        → Ensures Pooled (iterate left benchmark before) (WhenAdded before)
    unfolding iterate Ensures ◌>>=◌
    iterate-WhenAdded zero benchmark before h = ([], rw append-nil refl, none)
    iterate-WhenAdded (suc left) benchmark before h = Ensures-continue Pooled benchmark _ _ (
        Ensures-mono Pooled benchmark _ _
          (goes (λ result. iterate-WhenAdded left benchmark (before ++ result ∷ []) h)) h)
      where
        looked :
            (tr : Trace) (result : BenchmarkResult) (stop : Bool)
            → Round tr result
            → Ensures Pooled
                (iterate left benchmark (before ++ result ∷ []))
                (WhenAdded (before ++ result ∷ []))
            → Ensures Pooled
                (elim stop [
                  | true ↦ pure (before ++ result ∷ [])
                  | false ↦ iterate left benchmark (before ++ result ∷ [])
                ])
                (λ tr' r. WhenAdded before (tr ++ answered interrupted stop ∷ tr') r)
        looked tr result true q rest = (result ∷ [], refl, next true q none)
        looked tr result false q rest =
            Ensures-mono Pooled _ _ _ (one_more before result tr false q) rest

        goes :
            ((result : BenchmarkResult)
              → Ensures Pooled
                  (iterate left benchmark (before ++ result ∷ []))
                  (WhenAdded (before ++ result ∷ [])))
            → (tr : Trace) (r : Result BenchmarkResult) → OnOk (Round tr) r
            → Ensures Pooled
                (on_ok
                  (λ result. ask interrupted (λ stop. elim stop [
                    | true ↦ pure (before ++ result ∷ [])
                    | false ↦ iterate left benchmark (before ++ result ∷ [])
                  ]))
                  r)
                (λ tr' r. WhenAdded before (tr ++ tr') r)
        goes rest tr (ok result) q = λ stop. looked tr result stop q (rest result)
        goes rest tr (err e) q = tt
        goes rest tr (panic e) q = tt
        goes rest tr (fatal e) q = tt

    all_made : (tr : Trace) (r : Result BenchmarkResults) → WhenAdded [] tr r → WhenMade tr r
    all_made tr (ok results) (added, e, i) = record {
      setup = [];
      rounds = tr;
      whole_trace = refl;
      iterated = rw e i;
    }
    all_made tr (err e) h = tt
    all_made tr (panic e) h = tt
    all_made tr (fatal e) h = tt

    iterate-Made :
        (n : ℕ) (benchmark : Main BenchmarkResult)
        → Ensures Pooled benchmark (λ tr r. OnOk (Round tr) r)
        → Ensures Pooled (iterate n benchmark []) WhenMade
    iterate-Made n benchmark h =
        Ensures-mono Pooled _ _ _ all_made (iterate-WhenAdded n benchmark [] h)

    kept :
        (context : String) (tr : Trace) (r : Result BenchmarkResult)
        → OnOk (Round tr) r
        → OnOk (Round (tr ++ [])) (wrapping context r)
    kept context tr (ok result) h = rw append-nil h
    kept context tr (err e) h = tt
    kept context tr (panic e) h = tt
    kept context tr (fatal e) h = tt

    wrapped-Round :
        (context : String) (m : Main BenchmarkResult)
        → Ensures Pooled m (λ tr r. OnOk (Round tr) r)
        → Ensures Pooled (wrapped context m) (λ tr r. OnOk (Round tr) r)
    unfolding wrapped Ensures
    wrapped-Round context m h =
        Ensures-continue Pooled m _ _ (Ensures-mono Pooled m _ _ (kept context) h)

OnOk-Timed :
    (plan : Plan) (tr : Trace) (r : Result BenchmarkResult)
    → WhenTimed plan tr r
    → OnOk (Timed plan tr) r
OnOk-Timed plan tr (ok result) h = h
OnOk-Timed plan tr (err e) h = tt
OnOk-Timed plan tr (panic e) h = tt
OnOk-Timed plan tr (fatal e) h = tt

OnOk-Restored :
    (flush restore : Plan) (front : Trace)
    → Meets flush (commands front)
    → (tr : Trace) (r : Result BenchmarkResult) → OnOk (Timed restore tr) r
    → OnOk (Restored flush restore (front ++ tr)) r
OnOk-Restored flush restore front m tr (ok result) h = record {
  front = front;
  back = tr;
  whole_trace = refl;
  flushed = m;
  restored = h;
}
OnOk-Restored flush restore front m tr (err e) h = tt
OnOk-Restored flush restore front m tr (panic e) h = tt
OnOk-Restored flush restore front m tr (fatal e) h = tt

OnOk-failed :
    (flush restore : Plan) (tr : Trace) (r : Result BenchmarkResult)
    → ¬ Succeeds r
    → OnOk (Restored flush restore tr) r
OnOk-failed flush restore tr (ok result) n = absurd (n tt)
OnOk-failed flush restore tr (err e) n = tt
OnOk-failed flush restore tr (panic e) n = tt
OnOk-failed flush restore tr (fatal e) n = tt

-- What is flushed before a restore.
abbrev pub flush_plan : BenchmarkConfig → Cluster → Plan
flush_plan config cluster =
    if not config.cbm_config.blackhole
    then both (first_plan cluster flush_bucket_command) nothing
    else nothing

module _ {Below : Pooling ⊥} (P : Pool (Task Unit) (Runs Below)) (library : Library)
    (b : BackupClient) (config : BenchmarkConfig) (cluster : Cluster) where
  -- Each result of a backup benchmark is that of a round that carries out `backup_plan` between two
  -- readings of the clock.
  pub run_backups-Made :
      Ensures P.pooled
        (run_backups library b config cluster)
        (WhenMade (Timed (backup_plan b config cluster)))
  unfolding run_backups
  run_backups-Made =
      let late = WhenMade-IsLate _ in
      Ensures-last P.pooled _ _ _ late (λ _. Ensures-last P.pooled _ _ _ late (λ _.
        iterate-Made _ P.pooled _ _ (
          wrapped-Round _ P.pooled _ _ (
            Ensures-mono P.pooled _ _ _ (OnOk-Timed _)
              (benchmark_backup-WhenTimed P library b config cluster)))))

  restore_once-Restored :
      (ads : ℕ)
      → Ensures P.pooled
          (restore_once library b config cluster ads)
          (λ tr r. OnOk (Restored (flush_plan config cluster) (restore_plan b config cluster) tr) r)
  unfolding restore_once
  restore_once-Restored ads =
      Ensures-after P.pooled (flush_plan config cluster) _ _ _
        (Follows-choice P.pooled (not config.cbm_config.blackhole) _ _ _ _
          (Follows-wrapped P.pooled _ _ _ (flush_bucket-Follows P.pooled cluster))
          (Follows-pure P.pooled tt))
        (λ tr r n h. OnOk-failed _ _ tr r n)
        (λ tr _ m. Ensures-mono P.pooled _ _ _ (OnOk-Restored _ _ tr m) (
          wrapped-Round _ P.pooled _ _ (
            Ensures-mono P.pooled _ _ _ (OnOk-Timed _)
              (benchmark_restore-WhenTimed P library b config cluster ads))))

  -- Each result of a restore benchmark is that of a round that flushes the bucket, unless the restored
  -- data is thrown away, and then carries out `restore_plan` between two readings of the clock.
  pub run_restores-Made :
      Ensures P.pooled
        (run_restores library b config cluster)
        (WhenMade (Restored (flush_plan config cluster) (restore_plan b config cluster)))
  unfolding run_restores
  run_restores-Made =
      let late = WhenMade-IsLate _ in
      Ensures-last P.pooled _ _ _ late (λ _. Ensures-last P.pooled _ _ _ late (λ _.
        Ensures-last P.pooled _ _ _ late
          (λ info. iterate-Made _ P.pooled _ _ (restore_once-Restored info.backup_size))))
