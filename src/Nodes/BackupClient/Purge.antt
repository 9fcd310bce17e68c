-- ===== src/Nodes/BackupClient/Purge.antt =====
-- The remote commands of purgeArchive of nodes/backup_client.go.
use cbtools_autobench.Base.{String, not, [], ◌∷◌, if◌then◌else◌}
use cbtools_autobench.Value.Format.{str}
use cbtools_autobench.Value.Command.{new_command}
use cbtools_autobench.Value.Blueprint.{BenchmarkConfig}
use cbtools_autobench.Effect.Runs.{Pooling}
use cbtools_autobench.Effect.Plan.{Plan, must, both, on_host}
use cbtools_autobench.Effect.Follows.{Follows, Follows-bind, Follows-wrapped}
use cbtools_autobench.Ssh.Client.{remote_line}
use cbtools_autobench.Ssh.Client.Plans.{execute_command-Follows}
use cbtools_autobench.Ssh.Client.Methods.{remove_directory-Follows}
use cbtools_autobench.Nodes.Cluster.Setup.Plans.{Follows-choice}
use cbtools_autobench.Nodes.BackupClient.{BackupClient, purge_command, purge_archive}
use text.Mathlib.Text.{starts_with}

abbrev remove_line : String → String
remove_line path = remote_line (new_command "rm -rf %s" (str path ∷ []))

-- A local archive is removed; of an archive in an object store the bucket is emptied, and the staging
-- directory is removed.
unfoldable pub purge_plan : BackupClient → BenchmarkConfig → Plan
purge_plan b config =
    let c = config.cbm_config in
    let host = b.node.client.host in
    if not (starts_with c.archive "s3://")
    then on_host host (remove_line c.archive ∷ [])
    else both (must host (remote_line (purge_command c)))
        (on_host host (remove_line c.obj_staging_directory ∷ []))

module _ {W : Type 0} (Pooled : Pooling W) where
  -- Purging an archive sends `purge_plan`: for an archive whose name starts with `s3://` the removal of
  -- everything in the object store and then of the staging directory, and otherwise only the removal of
  -- the archive's directory. If it fails, it has stopped within this plan.
  pub purge_archive-Follows :
      (b : BackupClient) (config : BenchmarkConfig)
      → Follows Pooled (purge_plan b config) (purge_archive b config)
  unfolding purge_plan purge_archive
  purge_archive-Follows b config =
      Follows-choice Pooled (not (starts_with config.cbm_config.archive "s3://")) _ _ _ _
        (remove_directory-Follows Pooled b.node.client _)
        (Follows-bind Pooled _ _ _ _
          (Follows-wrapped Pooled _ _ _ (execute_command-Follows Pooled b.node.client _))
          (λ _. remove_directory-Follows Pooled b.node.client _))
