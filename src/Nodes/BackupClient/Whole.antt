-- ===== src/Nodes/BackupClient/Whole.antt =====
-- BenchmarkBackup and BenchmarkRestore of nodes/backup_client.go as a whole: their remote commands.
use cbtools_autobench.Base.{◌≡◌, refl, ℕ, max, true, not, [], ◌∷◌, ◌++◌, if◌then◌else◌}
use cbtools_autobench.Result.{Result, ok, err, panic, fatal}
use cbtools_autobench.Value.Blueprint.{BenchmarkConfig}
use cbtools_autobench.Value.Benchmark.{BenchmarkResult}
use cbtools_autobench.Value.Cbm.{command_config}
use cbtools_autobench.Effect.Process.{Trace, Task, clock, read}
use cbtools_autobench.Effect.Runs.{Pooling, Runs, Ensures, Ensures-mono, Pool}
use cbtools_autobench.Effect.Plan.{commands, commands-append, Plan, nothing, both, Obeys, on_host}
use mathlib.Core.List.{append-nil}
use cbtools_autobench.Effect.Follows.{
  Follows, Follows-bind, Follows-print, Follows-pure, Follows-wrapped,
}
use cbtools_autobench.Ssh.Client.{remote_line}
use cbtools_autobench.Ssh.Client.Methods.{ignored-Follows}
use cbtools_autobench.Nodes.Library.{Library}
use cbtools_autobench.Nodes.Cluster.{Cluster, connection_string}
use cbtools_autobench.Nodes.Cluster.Load.{flush_bucket_command}
use cbtools_autobench.Nodes.Cluster.Load.Plans.{flush_bucket-Follows}
use cbtools_autobench.Nodes.Cluster.Setup.Plans.{first_plan, Follows-choice}
use cbtools_autobench.Nodes.BackupClient.{
  BackupClient, create_repository, benchmark_backup, restore_once, run_backups, run_restores,
}
use cbtools_autobench.Nodes.BackupClient.Benchmarks.{
  WhenTimed, backup_plan, restore_plan, create_plan, create_backup-Follows,
  benchmark_backup-WhenTimed, benchmark_restore-WhenTimed,
}
use cbtools_autobench.Nodes.BackupClient.Purge.{purge_plan, purge_archive-Follows}
use cbtools_autobench.Nodes.BackupClient.Rounds.{Rounds, Rounds-bind, iterate-Rounds}

abbrev config_plan : BackupClient → BenchmarkConfig → Plan
config_plan b config =
    on_host b.node.client.host (remote_line (command_config config.cbm_config) ∷ [])

-- The archive is removed and configured again.
unfoldable pub fresh_plan : BackupClient → BenchmarkConfig → Plan → Plan
fresh_plan b config rest = both (purge_plan b config) (both (config_plan b config) rest)

-- For a restore there is a backup, whose data is kept even if that of the restores is thrown away.
unfoldable pub filled_plan : BackupClient → BenchmarkConfig → Cluster → Plan → Plan
unfolding fresh_plan
filled_plan b config cluster rest =
    fresh_plan b config (both (create_plan b config true (connection_string cluster)) rest)

-- The bucket is flushed before each restore that writes into it.
unfoldable pub restore_round : BackupClient → BenchmarkConfig → Cluster → Plan
unfolding restore_plan
restore_round b config cluster =
    both
      (if not config.cbm_config.blackhole
        then both (first_plan cluster flush_bucket_command) nothing
        else nothing)
      (restore_plan b config cluster)

between_readings :
    (s e : ℕ) (between : Trace)
    → commands (read clock s ∷ (between ++ read clock e ∷ [])) ≡ commands between
unfolding commands
between_readings s e between = rw (commands-append, append-nil) refl

WhenTimed-Obeys :
    (plan : Plan) (tr : Trace) (r : Result BenchmarkResult)
    → WhenTimed plan tr r
    → Obeys plan (commands tr) r
WhenTimed-Obeys plan tr (ok result) h =
    rw (h.whole_trace, between_readings h.start h.end h.between) h.carried_out
WhenTimed-Obeys plan tr (err e) h = h
WhenTimed-Obeys plan tr (panic s) h = h
WhenTimed-Obeys plan tr (fatal s) h = h

module _ {Below : Pooling ⊥} (P : Pool (Task Unit) (Runs Below)) (library : Library)
    (b : BackupClient) (config : BenchmarkConfig) (cluster : Cluster) where
  benchmark_backup-Follows :
      Follows P.pooled (backup_plan b config cluster) (benchmark_backup library b config cluster)
  benchmark_backup-Follows = record {
    runs =
        Ensures-mono P.pooled _ _ _ (WhenTimed-Obeys _)
          (benchmark_backup-WhenTimed P library b config cluster);
  }

  restore_once-Follows :
      (ads : ℕ)
      → Follows P.pooled
          (restore_round b config cluster)
          (restore_once library b config cluster ads)
  unfolding restore_once restore_round
  restore_once-Follows ads =
      Follows-bind P.pooled _ _ _ _
        (Follows-choice P.pooled (not config.cbm_config.blackhole) _ _ _ _
          (Follows-wrapped P.pooled _ _ _ (flush_bucket-Follows P.pooled cluster))
          (Follows-pure P.pooled tt))
        (λ _. Follows-wrapped P.pooled _ _ _ (record {
          runs =
              Ensures-mono P.pooled _ _ _ (WhenTimed-Obeys _)
                (benchmark_restore-WhenTimed P library b config cluster ads);
        }))

  create_repository-Follows : Follows P.pooled (config_plan b config) (create_repository b config)
  unfolding create_repository
  create_repository-Follows =
      Follows-print P.pooled _ _ _ (ignored-Follows P.pooled b.node.client _)

  -- A backup benchmark that succeeds has removed the archive, configured it again, and then carried out
  -- `backup_plan` once for each of its results, one round after the other, at most `max 1 iterations`
  -- times; if it fails, it has stopped within this sequence.
  pub run_backups-Rounds :
      Ensures P.pooled
        (run_backups library b config cluster)
        (Rounds (fresh_plan b config) (backup_plan b config cluster) (max 1 config.iterations))
  unfolding run_backups fresh_plan
  run_backups-Rounds =
      let round = backup_plan b config cluster in
      Rounds-bind P.pooled _ (λ rest. both (config_plan b config) rest) round _ _ _
        (Follows-wrapped P.pooled _ _ _ (purge_archive-Follows P.pooled b config))
        (λ _.
          Rounds-bind P.pooled _ (λ rest. rest) round _ _ _
            (Follows-wrapped P.pooled _ _ _ create_repository-Follows)
            (λ _.
              iterate-Rounds P.pooled round _ _
                (Follows-wrapped P.pooled _ _ _ benchmark_backup-Follows)))

  -- A restore benchmark that succeeds has removed the archive, configured it again, made a backup whose
  -- data is kept, and then carried out `restore_round` once for each of its results, at most
  -- `max 1 iterations` times: the flush of the bucket, unless the restored data is thrown away, and the
  -- restore. If it fails, it has stopped within this sequence.
  pub run_restores-Rounds : Ensures P.pooled (run_restores library b config cluster) (
      Rounds
        (filled_plan b config cluster)
        (restore_round b config cluster)
        (max 1 config.iterations))
  unfolding run_restores filled_plan fresh_plan
  run_restores-Rounds =
      let round = restore_round b config cluster in
      let made = create_plan b config true (connection_string cluster) in
      Rounds-bind P.pooled _ (λ rest. both (config_plan b config) (both made rest)) round _ _ _
        (Follows-wrapped P.pooled _ _ _ (purge_archive-Follows P.pooled b config))
        (λ _.
          Rounds-bind P.pooled _ (λ rest. both made rest) round _ _ _
            (Follows-wrapped P.pooled _ _ _ create_repository-Follows)
            (λ _.
              Rounds-bind P.pooled _ (λ rest. rest) round _ _ _
                (Follows-wrapped P.pooled _ _ _
                  (create_backup-Follows P.pooled library b config cluster true))
                (λ info.
                  iterate-Rounds P.pooled round _ _ (restore_once-Follows info.backup_size))))
