-- ===== src/Nodes/BackupClient/Setup.antt =====
-- The remote commands of `BackupClient.Provision` of nodes/backup_client.go.
use cbtools_autobench.Base.{[], ◌∷◌}
use cbtools_autobench.Value.Platform.{command_disable_couchbase}
use cbtools_autobench.Effect.Runs.{Pooling}
use cbtools_autobench.Effect.Plan.{Plan, nothing, both, on_host}
use cbtools_autobench.Effect.Follows.{
  Follows, Follows-bind, Follows-pure, Follows-wrapped, Follows-lift_bind,
}
use cbtools_autobench.Ssh.Client.Methods.{line_of, ignored-Follows}
use cbtools_autobench.Nodes.Node
use cbtools_autobench.Nodes.Node.{Node}
use cbtools_autobench.Nodes.Node.Provision.{provision_plan, provision-Follows}
use cbtools_autobench.Nodes.BackupClient.{BackupClient, provision}

-- The provisioning of its node, then the command that stops the service.
unfoldable pub client_plan : BackupClient → Plan
client_plan b = both (provision_plan b.node.client b.blueprint.package_path) (
    both
      (on_host b.node.client.host (line_of (command_disable_couchbase b.node.client.platform) ∷ []))
      nothing)

module _ {W : Type 0} (Pooled : Pooling W) where
  disable_cb-Follows :
      (n : Node)
      → Follows Pooled
          (on_host n.client.host (line_of (command_disable_couchbase n.client.platform) ∷ []))
          (Node.disable_cb n)
  unfolding Node.disable_cb
  disable_cb-Follows n =
      Follows-lift_bind Pooled _ (command_disable_couchbase n.client.platform) _
        (λ command e. rw e (ignored-Follows Pooled n.client command))

  -- Provisioning the backup client that returns nil has provisioned its node, by the whole of
  -- `provision_plan`, and has then sent the platform's command that stops and disables Couchbase
  -- Server. If it fails, it has stopped within this plan.
  pub provision-client_plan : (b : BackupClient) → Follows Pooled (client_plan b) (provision b)
  unfolding provision client_plan
  provision-client_plan b =
      Follows-bind Pooled _ _ _ _ (Follows-wrapped Pooled _ _ _ (provision-Follows Pooled b.node _))
        (λ _.
          Follows-bind Pooled _ _ _ _ (Follows-wrapped Pooled _ _ _ (disable_cb-Follows b.node))
            (λ _. Follows-pure Pooled tt))
