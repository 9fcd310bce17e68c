-- ===== src/Nodes/Cluster.antt =====
-- nodes/cluster.go: the cluster's nodes and the loop over them. Log output is not modelled. A node is
-- known by its place in the slice, which is what a comparison of two node pointers decides.
pub mod Setup
pub mod Poll
pub mod Load
pub mod Logs
pub mod Connect
pub mod Connected
pub mod Close
use cbtools_autobench.Base.{
  enumerate, ℕ, suc, String, ◌<>◌, ◌==◌, not, List, [], ◌∷◌, map, length, if◌then◌else◌,
}
use cbtools_autobench.Result.{Result, ok, panic}
use cbtools_autobench.Value.Format.{str, sprintf}
use cbtools_autobench.Value.Blueprint.{SshConfig, NodeBlueprint, ClusterBlueprint}
use cbtools_autobench.Nodes.Node
use cbtools_autobench.Nodes.Node.{Node}
use cbtools_autobench.Effect.Process.{
  Process, done, pool, Exec, Task, lift, pure, wrapped, ◌>>=◌, ◌>>◌,
}

pub record Cluster : Type 0 where
  pub blueprint : ClusterBlueprint
  pub nodes : List Node

-- Code of the main goroutine, which may start a pool whose workers have no pool of their own.
abbrev pub Main : Type 0 → Type 0
Main A = Exec (Task Unit) A

-- `c.nodes[0]`
unfoldable pub first_node : List Node → Result Node
first_node [] = panic "index out of range [0] with length 0"
first_node (n ∷ ns) = ok n

-- forEachNode. The pool has as many workers as there are nodes or processors, if these are fewer.
unfoldable pub for_each_node : Cluster → (ℕ × Node → Task Unit) → Main Unit
for_each_node c fn = pool (length c.nodes) (map fn (enumerate 0 c.nodes)) (λ r. done r)

unfoldable pub hosts : Cluster → List String
hosts c = map (λ n. n.blueprint.host) c.nodes

unfoldable pub connection_string : Cluster → Result String
unfolding first_node sprintf
connection_string c = elim c.nodes [
  | [] ↦ panic "index out of range [0] with length 0"
  | n ∷ ns ↦ ok (sprintf "couchbase://%s" (str n.blueprint.host ∷ []))
]

-- Close
unfoldable pub close : Cluster → Main Unit
close c = for_each_node c (λ (i, n). Node.close n)
