-- ===== src/Cmd/Provision.antt =====
-- The sub-command of cmd/provision.go.
pub mod Plans
pub mod Blame
use cbtools_autobench.Base.{ℕ, String, Bool, List, [], ◌∷◌, map, not, if◌then◌else◌}
use cbtools_autobench.Result.{ok}
use cbtools_autobench.Value.Blueprint.{AutobenchConfig}
use cbtools_autobench.Effect.Process
use cbtools_autobench.Effect.Session.{
  Routine, Script, beside, finish, run, returning, in_context, finally, ◌>>=◌, ◌>>◌,
}
use cbtools_autobench.Nodes.Library.{Library}
use cbtools_autobench.Nodes.Cluster
use cbtools_autobench.Nodes.Cluster.{Cluster}
use cbtools_autobench.Nodes.Cluster.Connect.{new_cluster}
use cbtools_autobench.Nodes.Cluster.Setup
use cbtools_autobench.Nodes.Cluster.Load.{load_data}
use cbtools_autobench.Nodes.BackupClient
use cbtools_autobench.Nodes.BackupClient.{BackupClient, new_backup_client}
use cbtools_autobench.Cmd.Config.{Files, read_config}

-- The interface `provisioner`, with the two types that are used as one.
pub data Provisioner : Type 0 where
  of_cluster : Cluster → Provisioner
  of_client : BackupClient → Provisioner

-- Its method Provision
abbrev pub provision_one : Provisioner → Routine (Unit {0})
provision_one (Provisioner.of_cluster c) = Setup.provision c
provision_one (Provisioner.of_client b) = BackupClient.provision b

abbrev pub provisioners : Bool → Cluster → BackupClient → List Provisioner
provisioners load_only c b =
    if not load_only then Provisioner.of_cluster c ∷ Provisioner.of_client b ∷ [] else []

module _ (library : Library) (received : List ℕ → List ℕ) where
  -- The part of provision behind the connections.
  unfoldable pub provision_connected : Bool → Cluster → BackupClient → Script (Unit {0})
  provision_connected load_only c b = do
    in_context "unexpected error whilst provisioning"
        (beside 2 (map provision_one (provisioners load_only c b)) (λ r. finish r))
    in_context "failed to load test dataset"
        (run (load_data library received c c.blueprint.bucket.compact))
    returning (ok tt)

  -- From `defer client.Close()` on.
  unfoldable pub with_client : Bool → Cluster → BackupClient → Script (Unit {0})
  unfolding provision_connected
  with_client load_only cluster client =
      finally (BackupClient.close client) (provision_connected load_only cluster client)

  -- From `defer cluster.Close()` on.
  unfoldable pub with_cluster : AutobenchConfig → Bool → Cluster → Script (Unit {0})
  unfolding with_client
  with_cluster config load_only cluster = finally (Cluster.close cluster) (do
    client ← run (
        Process.wrapped "failed to connect to backup client"
          (new_backup_client config.ssh_config config.blueprint.backup_client))
    with_client load_only cluster client)

  -- provision
  unfoldable pub provision : Files → String → Bool → Script (Unit {0})
  unfolding with_cluster
  provision files config_path load_only = do
    config ← run (Process.wrapped "failed to read autobench config" (read_config files config_path))
    cluster ←
        in_context "failed to connect to cluster"
          (new_cluster config.ssh_config config.blueprint.cluster)
    with_cluster config load_only cluster
