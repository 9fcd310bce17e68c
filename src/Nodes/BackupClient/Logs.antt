-- ===== src/Nodes/BackupClient/Logs.antt =====
-- The remote commands of `BackupClient.CollectLogs` of nodes/backup_client.go.
use cbtools_autobench.Base.{String, ◌==◌, not, if◌then◌else◌, trim_space, [], ◌∷◌}
use cbtools_autobench.Value.Format.{str, sprintf}
use cbtools_autobench.Value.Command.{new_command}
use cbtools_autobench.Value.Blueprint.{BenchmarkConfig, CbmConfig}
use cbtools_autobench.Value.Cbm.{command_collect_logs}
use cbtools_autobench.Effect.Runs.{Pooling}
use cbtools_autobench.Effect.Plan.{Plan, nothing, must, both, on_host}
use cbtools_autobench.Effect.Follows.{Follows-bind, Follows-pure, Follows-wrapped}
use cbtools_autobench.Effect.FollowsSome.{FollowsSome, FollowsSome-given, FollowsSome-bind}
use cbtools_autobench.Ssh.Client.{remote_line}
use cbtools_autobench.Ssh.Client.Plans.{execute_command-Follows}
use cbtools_autobench.Ssh.Client.Methods.{secure_download-Follows}
use cbtools_autobench.Nodes.Library.{Library}
use cbtools_autobench.Nodes.BackupClient.{BackupClient, collect_logs}

-- The command that finds the newest archive of logs: in the staging directory, if there is one.
abbrev pub newest_line : Library → CbmConfig → String
newest_line library c =
    let local =
      if not (c.obj_staging_directory == "") then c.obj_staging_directory else c.archive in
    remote_line (
      new_command "ls -t %s | head -1"
        (str (library.join_path (library.join_path local "logs") "*.zip") ∷ []))

-- What is sent if this file is the newest one.
abbrev pub logs_plan : Library → BackupClient → BenchmarkConfig → String → Plan
logs_plan library b config source =
    let host = b.node.client.host in
    both (must host (remote_line (command_collect_logs config.cbm_config))) (
      both (must host (newest_line library config.cbm_config))
        (both (on_host host (sprintf "cat %s" (str source ∷ []) ∷ [])) nothing))

module _ {W : Type 0} (Pooled : Pooling W) where
  -- Collecting the logs of the backup client that returns nil has sent 'collect-logs', then the search
  -- for the newest archive in the staging directory (or in the archive, if there is no staging
  -- directory), and has then read one file; if it fails, it has stopped within this list.
  pub collect_logs-FollowsSome :
      (library : Library) (b : BackupClient) (config : BenchmarkConfig) (path : String)
      → FollowsSome Pooled (logs_plan library b config) (collect_logs library b config path)
  unfolding collect_logs
  collect_logs-FollowsSome library b config path =
      FollowsSome-bind Pooled _ _ "" _ _
        (Follows-wrapped Pooled _ _ _ (execute_command-Follows Pooled b.node.client _))
        (λ _.
          FollowsSome-bind Pooled _ _ "" _ _
            (Follows-wrapped Pooled _ _ _ (execute_command-Follows Pooled b.node.client _))
            (λ output. FollowsSome-given Pooled _ (trim_space output) _ (
              Follows-bind Pooled _ _ _ _
                (Follows-wrapped Pooled _ _ _ (secure_download-Follows Pooled b.node.client _ _))
                (λ _. Follows-pure Pooled _))))
