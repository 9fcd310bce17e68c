-- ===== src/Cmd/Benchmark.antt =====
-- The sub-command of cmd/benchmark.go.
pub mod Results
pub mod Destination
use cbtools_autobench.Base.{String, ◌==◌, Bool, List, [], Option, if◌then◌else◌}
use cbtools_autobench.Result.{message, Result, ok, err, panic, fatal, wrapping}
use cbtools_autobench.Value.Blueprint.{Blueprint, BenchmarkConfig, AutobenchConfig}
use cbtools_autobench.Value.Benchmark.{BenchmarkResults}
use cbtools_autobench.Value.Formats.{Formats}
use cbtools_autobench.Effect.Process
use cbtools_autobench.Effect.Process.{print, stat, make_directory, perform}
use cbtools_autobench.Effect.Session.{
  Routine, Script, run, returning, in_context, finally, ◌>>=◌, ◌>>◌,
}
use cbtools_autobench.Nodes.Library.{Library}
use cbtools_autobench.Nodes.Cluster
use cbtools_autobench.Nodes.Cluster.{Cluster}
use cbtools_autobench.Nodes.Cluster.Connect.{new_cluster}
use cbtools_autobench.Nodes.Cluster.Logs
use cbtools_autobench.Nodes.BackupClient
use cbtools_autobench.Nodes.BackupClient.{
  BackupClient, new_backup_client, run_backups, run_restores,
}
use cbtools_autobench.Report.Print.{printed}
use cbtools_autobench.Report.Text.{Report, Options, new_report}
use cbtools_autobench.Cmd.Config.{Files, read_config}

-- What collectLogs makes of the answer of os.Stat.
unfoldable pub check_path : Files → Result String → Result (Unit {0})
check_path files (ok info) =
    if files.is_dir info
    then ok tt
    else err (message "logs output path must not exist, or be a directory")
check_path files (err e) =
    if files.is_not_exist e
    then ok tt
    else wrapping "failed to get info about logs output path" (err e)
check_path files (panic s) = panic s
check_path files (fatal s) = fatal s

module _ (format : Formats) (files : Files) (library : Library) where
  -- collectLogs
  unfoldable pub collect_logs :
      Cluster → BackupClient → BenchmarkConfig → String → Routine (List String × String)
  collect_logs c b config path =
      let go = Process.◌>>=◌ (Process.caught (Process.call (stat path))) (λ info.
        Process.◌>>=◌ (Process.lift (check_path files info)) (λ _.
          Process.◌>>=◌
            (Process.wrapped "failed to create logs output directory"
              (Process.call (make_directory path)))
            (λ _.
              Process.◌>>=◌
                (Process.wrapped "failed to collect cluster logs"
                  (Logs.collect_logs library c path))
                (λ cluster_logs.
                  Process.◌>>=◌
                    (Process.wrapped "failed to collect cbbackupmgr logs"
                      (BackupClient.collect_logs library b config path))
                    (λ backup_logs. Process.pure (cluster_logs, backup_logs)))))) in
      if path == "" then Process.pure ([], "") else go

  -- The `switch` over the argument.
  unfoldable pub run_benchmark :
      String → BackupClient → BenchmarkConfig → Cluster → Script BenchmarkResults
  run_benchmark name b config c =
      if name == "backup"
      then run (run_backups library b config c)
      else if name == "restore"
      then run (run_restores library b config c)
      else returning (ok [])

  -- What benchmark does with the results. It returns the report that has been printed.
  unfoldable pub report_on :
      Blueprint
      → BenchmarkConfig
      → String
      → Bool
      → Cluster
      → BackupClient
      → BenchmarkResults
      → Script Report
  report_on blueprint config logs_path json c b results = do
    stats ← run (Process.wrapped "failed to get cluster stats" (Logs.stats library c))
    (cluster_logs, backup_logs) ←
        run (Process.wrapped "failed to collect logs" (collect_logs c b config logs_path))
    report ← returning (
        new_report format (record {
          blueprint = blueprint;
          stats = stats;
          cbm_config = config.cbm_config;
          results = results;
          cluster_logs = cluster_logs;
          backup_logs = backup_logs;
        }))
    text ←
        in_context "failed to display report" (returning (printed format files.marshal json report))
    run (perform (print text))
    returning (ok report)

  -- The part of benchmark behind the connections.
  unfoldable pub benchmark_connected :
      String → Blueprint → BenchmarkConfig → String → Bool → Cluster → BackupClient → Script Report
  unfolding run_benchmark report_on
  benchmark_connected name blueprint config logs_path json c b = do
    results ← in_context "failed to run benchmark(s)" (run_benchmark name b config c)
    report_on blueprint config logs_path json c b results

  -- From `defer client.Close()` on.
  unfoldable pub with_client :
      String → AutobenchConfig → String → Bool → Cluster → BackupClient → Script (Unit {0})
  unfolding benchmark_connected
  with_client name config logs_path json cluster client = finally (BackupClient.close client) (do
    benchmark_connected name config.blueprint config.benchmark_config logs_path json cluster client
    returning (ok tt))

  -- From `defer cluster.Close()` on.
  unfoldable pub with_cluster :
      String → AutobenchConfig → String → Bool → Cluster → Script (Unit {0})
  unfolding with_client
  with_cluster name config logs_path json cluster = finally (Cluster.close cluster) (do
    client ← run (
        Process.wrapped "failed to connect to backup client"
          (new_backup_client config.ssh_config config.blueprint.backup_client))
    with_client name config logs_path json cluster client)

  -- benchmark
  unfoldable pub benchmark : String → String → String → Bool → Script (Unit {0})
  unfolding with_cluster
  benchmark config_path name logs_path json = do
    config ← run (Process.wrapped "failed to read autobench config" (read_config files config_path))
    cluster ←
        in_context "failed to connect to cluster"
          (new_cluster config.ssh_config config.blueprint.cluster)
    with_cluster name config logs_path json cluster
