-- ===== src/Nodes/Cluster/Connect.antt =====
-- NewCluster of nodes/cluster.go. Each worker writes the node it connects to into its slot.
use cbtools_autobench.Base.{enumerate, ℕ, ◌==◌, not, map, length, if◌then◌else◌}
use cbtools_autobench.Result.{ok}
use cbtools_autobench.Value.Blueprint.{SshConfig, NodeBlueprint, ClusterBlueprint}
use cbtools_autobench.Effect.Process
use cbtools_autobench.Effect.Process.{Task, pure}
use cbtools_autobench.Effect.Session.{Script, gather, finish, returning, in_context, ◌>>=◌}
use cbtools_autobench.Effect.Session.Slots.{Write, all_filled}
use cbtools_autobench.Nodes.Node.{Node, new_node, check_and_partition_ebs}
use cbtools_autobench.Nodes.Cluster.{Cluster}

-- What follows the connection in `connect`: a node that has an index path gets its volume.
unfoldable pub prepare : Node → Task Node
prepare n =
    if not (n.blueprint.index_path == "")
    then Process.◌>>◌
        (Process.wrapped "failed to check and partition EBS volume" (check_and_partition_ebs n))
        (pure n)
    else pure n

-- The node is written into its slot, `nodes[idx]`.
unfoldable pub connect : SshConfig → ℕ × NodeBlueprint → Task (Write Node)
connect config (idx, nb) =
    Process.◌>>=◌ (new_node config nb) (λ n. Process.◌>>=◌ (prepare n) (λ n. pure (idx, n)))

-- NewCluster. A slot that stays nil would panic at the first use of the cluster. The pool has as many workers as there are nodes or processors, if these are fewer.
unfoldable pub new_cluster : SshConfig → ClusterBlueprint → Script Cluster
unfolding connect
new_cluster config blueprint = do
  slots ← in_context "failed to stop pool" (
      gather (length blueprint.nodes) (map (connect config) (enumerate 0 blueprint.nodes))
        (λ r. finish r))
  nodes ← returning (all_filled slots)
  returning (ok (record { blueprint = blueprint; nodes = nodes }))
