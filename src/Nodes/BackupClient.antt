-- ===== src/Nodes/BackupClient.antt =====
-- nodes/backup_client.go: the backup client and the benchmarks. Log output is not modelled.
pub mod Benchmarks
pub mod Made
pub mod Iterations
pub mod Purge
pub mod Rounds
pub mod Whole
pub mod Logs
pub mod Setup
use mathlib.Core.Bool.{◌&&◌}
use cbtools_autobench.Base.{
  ℕ, zero, suc, ◌-◌, String, ◌<>◌, ◌==◌, not, Bool, true, false, List, [], ◌∷◌, ◌++◌, max,
  if◌then◌else◌, trim_space, get_last?, Option, none, some,
}
use cbtools_autobench.Result.{message, Result, ok, err, panic}
use cbtools_autobench.Value.Format.{str, sprintf}
use cbtools_autobench.Value.Command.{Command, new_command}
use cbtools_autobench.Value.Blueprint.{
  SshConfig, NodeBlueprint, BackupClientBlueprint, BenchmarkConfig, CbmConfig, BackupInfo,
}
use cbtools_autobench.Value.Benchmark.{BenchmarkResult, BenchmarkResults}
use cbtools_autobench.Value.Cbm.{
  config_line, backup_line, command_config, command_backup, command_restore, command_collect_logs,
  command_remove, command_info,
}
use cbtools_autobench.Ssh.Client
use cbtools_autobench.Nodes.Library.{Library, Backup}
use cbtools_autobench.Nodes.Node
use cbtools_autobench.Nodes.Node.{Node, base}
use cbtools_autobench.Nodes.Cluster.{Cluster, Main, connection_string, for_each_node}
use cbtools_autobench.Nodes.Cluster.Load.{flush_bucket}
use cbtools_autobench.Effect.Process.{
  interrupted, clock, print, perform, Exec, ask, measure, done, continue, caught, ignored, lift,
  pure, wrapped, ◌>>=◌, ◌>>◌,
}
use text.Mathlib.Text.{starts_with}

pub record BackupClient : Type 0 where
  pub blueprint : BackupClientBlueprint
  pub node : Node

-- The command with which purgeArchive empties a bucket of an object store.
unfoldable pub purge_command : CbmConfig → Command
unfolding sprintf new_command
purge_command c =
    let command : String = "" in
    let command =
      if not (c.obj_access_key_id == "")
      then command <> sprintf "export AWS_ACCESS_KEY_ID=%s; " (str c.obj_access_key_id ∷ [])
      else command in
    let command =
      if not (c.obj_secret_access_key == "")
      then command <> sprintf "export AWS_SECRET_ACCESS_KEY=%s; " (str c.obj_secret_access_key ∷ [])
      else command in
    let command =
      if not (c.obj_region == "")
      then command <> sprintf "export AWS_REGION=%s; " (str c.obj_region ∷ [])
      else command in
    let command = command <> sprintf "aws s3 rm %s --recursive" (str c.archive ∷ []) in
    new_command
      (if not (c.obj_endpoint == "")
        then command <> sprintf " --endpoint=%s" (str c.obj_endpoint ∷ [])
        else command)
      []

-- `decoded.Backups[0]`, and `Buckets[0]` of it
unfoldable pub backup_info : List Backup → Result BackupInfo
backup_info [] = panic "index out of range [0] with length 0"
backup_info (b ∷ bs) = elim b.buckets [
  | [] ↦ panic "index out of range [0] with length 0"
  | items ∷ rest ↦ ok (record { backup_size = b.size; items_num = items })
]

-- The dates of the first and the last backup.
unfoldable pub date_range : List String → Option (String × String)
date_range [] = none
date_range (b ∷ bs) = elim (get_last? (b ∷ bs)) [ none ↦ none | some l ↦ some (b, l) ]

-- `defer func() { result.Duration = time.Since(start) }()`: the clock is read again when the function is
-- left. On an error the caller gets no result.
abbrev pub with_duration : ℕ → ℕ → Result BenchmarkResult → Result BenchmarkResult
with_duration start end (ok r) = ok (record r { duration = end - start })
with_duration start end r = r

module _ {W : Type 0} where
  unfoldable pub timed : Exec W BenchmarkResult → Exec W BenchmarkResult
  timed m =
      measure clock
        (λ start. continue m (λ r. measure clock (λ end. done (with_duration start end r))))

  -- NewBackupClient
  unfoldable pub new_backup_client : SshConfig → BackupClientBlueprint → Exec W BackupClient
  new_backup_client config blueprint = do
    node ←
        wrapped "failed to connect to node"
          (Node.new_node config (record { host = blueprint.host; data_path = ""; index_path = "" }))
    pure (record { blueprint = blueprint; node = node })

  -- Provision
  unfoldable pub provision : BackupClient → Exec W Unit
  provision b = do
    wrapped "failed to provision node" (Node.provision b.node b.blueprint.package_path)
    wrapped "failed to disable Couchbase Server" (Node.disable_cb b.node)
    pure tt

  unfoldable pub create_repository : BackupClient → BenchmarkConfig → Exec W Unit
  create_repository b config = do
    perform (print (sprintf "command: %s\n" (str (config_line config.cbm_config) ∷ [])))
    ignored (Client.execute_command b.node.client (command_config config.cbm_config))

  unfoldable pub run_pre_benchmark_tasks : BackupClient → Exec W Unit
  run_pre_benchmark_tasks b = Client.flush_caches b.node.client

  unfoldable pub restore_backup : BackupClient → BenchmarkConfig → Cluster → Exec W Unit
  restore_backup b config cluster = do
    host ← lift (connection_string cluster)
    ignored (Client.execute_command b.node.client (command_restore config.cbm_config host))

  unfoldable pub purge_archive : BackupClient → BenchmarkConfig → Exec W Unit
  purge_archive b config =
      let c = config.cbm_config in
      let remote = (do
        wrapped "failed to purge remote archive"
            (Client.execute_command b.node.client (purge_command c))
        Client.remove_directory b.node.client c.obj_staging_directory) in
      if not (starts_with c.archive "s3://")
      then Client.remove_directory b.node.client c.archive
      else remote

  -- The end of purgeBackups, behind the decoding.
  unfoldable pub remove_backups :
      BackupClient → BenchmarkConfig → Option (String × String) → Exec W Unit
  remove_backups b config none = pure tt
  remove_backups b config (some (start, end)) =
      ignored (Client.execute_command b.node.client (command_remove config.cbm_config start end))

  unfoldable pub close : BackupClient → Exec W Unit
  close b = Node.close b.node

-- flushCaches and runPreBenchmarkTasks of the cluster
unfoldable pub flush_caches : Cluster → Main Unit
flush_caches c = for_each_node c (λ (i, n). Client.flush_caches n.client)

unfoldable pub run_cluster_pre_benchmark_tasks : Cluster → Main Unit
run_cluster_pre_benchmark_tasks c = do wrapped "failed to flush caches" (flush_caches c); pure tt

-- The loop over the iterations, with the iterations left: a benchmark, then the look at the context.
unfoldable pub iterate : ℕ → Main BenchmarkResult → BenchmarkResults → Main BenchmarkResults
iterate zero benchmark results = pure results
iterate (suc left) benchmark results = do
  result ← benchmark
  ask interrupted (λ stop. elim stop [
    | true ↦ pure (results ++ result ∷ [])
    | false ↦ iterate left benchmark (results ++ result ∷ [])
  ])

module _ (library : Library) {W : Type 0} where
  unfoldable pub create_backup : BackupClient → BenchmarkConfig → Cluster → Bool → Exec W BackupInfo
  create_backup b config cluster ignore_blackhole = do
    host ← lift (connection_string cluster)
    perform (print (sprintf "cluster.ConnectionString(): %s\n" (str host ∷ [])))
    perform (print ("command:  " <> (backup_line config.cbm_config host ignore_blackhole <> "\n")))
    wrapped "failed to run backup" (
        Client.execute_command b.node.client
          (command_backup config.cbm_config host ignore_blackhole))
    wrapped "failed to sync data to disk" (Client.sync b.node.client)
    output ←
        wrapped "failed to run info"
          (Client.execute_command b.node.client (command_info config.cbm_config))
    backups ← wrapped "failed to decode info output" (lift (library.decode_info output))
    lift (backup_info backups)

  unfoldable pub purge_backups : BackupClient → BenchmarkConfig → Exec W Unit
  purge_backups b config = do
    output ←
        wrapped "failed to run info"
          (Client.execute_command b.node.client (command_info config.cbm_config))
    dates ← wrapped "failed to unmarshal info output" (lift (library.decode_dates output))
    remove_backups b config (date_range dates)

  -- CollectLogs
  unfoldable pub collect_logs : BackupClient → BenchmarkConfig → String → Exec W String
  collect_logs b config path = do
    let c = config.cbm_config
    wrapped "failed to run 'collect-logs'"
        (Client.execute_command b.node.client (command_collect_logs c))
    let local = if not (c.obj_staging_directory == "") then c.obj_staging_directory else c.archive
    output ← wrapped "failed to determine which zip file to cp/download" (
        Client.execute_command b.node.client (
          new_command "ls -t %s | head -1"
            (str (library.join_path (library.join_path local "logs") "*.zip") ∷ [])))
    let source = trim_space output
    let sink = library.join_path path (base source)
    wrapped "failed to cp/download logs" (Client.secure_download b.node.client source sink)
    pure sink

module _ (library : Library) where
  -- benchmarkBackup
  unfoldable pub benchmark_backup : BackupClient → BenchmarkConfig → Cluster → Main BenchmarkResult
  benchmark_backup b config cluster = timed (do
    wrapped "failed to run cluster pre-benchmark tasks" (run_cluster_pre_benchmark_tasks cluster)
    wrapped "failed to run client pre-benchmark tasks" (run_pre_benchmark_tasks b)
    info ← wrapped "failed to create backup" (create_backup library b config cluster false)
    wrapped "failed to purge created backup" (purge_backups library b config)
    pure (record { duration = 0; ain = info.items_num; ads = info.backup_size }))

  -- benchmarkRestore
  unfoldable pub benchmark_restore :
      BackupClient → BenchmarkConfig → Cluster → ℕ → Main BenchmarkResult
  benchmark_restore b config cluster ads = timed (do
    wrapped "failed to run cluster pre-benchmark tasks" (run_cluster_pre_benchmark_tasks cluster)
    wrapped "failed to run client pre-benchmark tasks" (run_pre_benchmark_tasks b)
    wrapped "failed to restore backup" (restore_backup b config cluster)
    pure (record { duration = 0; ain = 0; ads = ads }))

  -- The flush before each restore, unless the data is thrown away.
  unfoldable pub restore_once : BackupClient → BenchmarkConfig → Cluster → ℕ → Main BenchmarkResult
  restore_once b config cluster ads = do
    if not config.cbm_config.blackhole
        then wrapped "failed to flush bucket" (flush_bucket cluster)
        else pure tt
    wrapped "failed to run benchmark" (benchmark_restore b config cluster ads)

  -- BenchmarkBackup
  unfoldable pub run_backups : BackupClient → BenchmarkConfig → Cluster → Main BenchmarkResults
  run_backups b config cluster = do
    wrapped "failed to purge archive" (purge_archive b config)
    wrapped "failed to create repository" (create_repository b config)
    iterate (max 1 config.iterations)
        (wrapped "failed to run benchmark" (benchmark_backup b config cluster)) []

  -- BenchmarkRestore
  unfoldable pub run_restores : BackupClient → BenchmarkConfig → Cluster → Main BenchmarkResults
  run_restores b config cluster = do
    wrapped "failed to purge archive" (purge_archive b config)
    wrapped "failed to create repository" (create_repository b config)
    info ← wrapped "failed to create backup" (create_backup library b config cluster true)
    iterate (max 1 config.iterations) (restore_once b config cluster info.backup_size) []
