-- ===== src/Nodes/Cluster/Connected.antt =====
-- What NewCluster returns.
use mathlib.Core.Path.{subst}
use cbtools_autobench.Base.{ℕ, ◌≡◌, refl, ◌==◌, not, Bool-cases, inl, inr}
use cbtools_autobench.Value.Blueprint.{SshConfig, NodeBlueprint, ClusterBlueprint}
use cbtools_autobench.Effect.Runs.{Pooling}
use cbtools_autobench.Effect.Yields.{
  OnOk, Yields, Yields-pure, Yields-bind, Yields-rest, Yields-wrapped,
}
use cbtools_autobench.Effect.Session.{Pools}
use cbtools_autobench.Effect.Session.Values.{
  Returns, Returns-value, Returns-lift, Returns-bind, Returns-in_context, Returns-gather,
}
use cbtools_autobench.Effect.Session.Slots.{WritesAt, Both, all_filled}
use cbtools_autobench.Ssh.Client.Connect.{IsConnected, new_client-IsConnected}
use cbtools_autobench.Nodes.Node.{Node, new_node}
use cbtools_autobench.Nodes.Cluster.{Cluster}
use cbtools_autobench.Nodes.Cluster.Connect.{prepare, connect, new_cluster}

-- The node is that of the blueprint, and root is connected to its host.
pub record IsNodeOf (nb : NodeBlueprint) (n : Node) : Type 0 where
  pub same_blueprint : n.blueprint ≡ nb
  pub connected : IsConnected nb.host n.client

pub record IsClusterOf (blueprint : ClusterBlueprint) (c : Cluster) : Type 0 where
  pub same_blueprint : c.blueprint ≡ blueprint
  pub nodes : Both IsNodeOf blueprint.nodes c.nodes

module _ {W : Type 0} (Pooled : Pooling W) where
  new_node-IsNodeOf :
      (config : SshConfig) (nb : NodeBlueprint) → Yields Pooled (IsNodeOf nb) (new_node config nb)
  unfolding new_node
  new_node-IsNodeOf config nb =
      Yields-bind Pooled (IsConnected nb.host) _ _ _
        (Yields-wrapped Pooled _ _ _ (new_client-IsConnected Pooled nb.host config))
        (λ c h. Yields-pure Pooled _ _ (record { same_blueprint = refl; connected = h }))

module _ (Pooled : Pooling ⊥) where
  prepare-keeps :
      (nb : NodeBlueprint) (n : Node) → IsNodeOf nb n → Yields Pooled (IsNodeOf nb) (prepare n)
  unfolding prepare
  prepare-keeps nb n h = elim (Bool-cases (not (n.blueprint.index_path == ""))) [
    | inl e ↦ rw e (Yields-rest Pooled _ _ _ (λ _. Yields-pure Pooled _ n h))
    | inr e ↦ rw e (Yields-pure Pooled _ n h)
  ]

  connect-WritesAt :
      (config : SshConfig) (x : ℕ × NodeBlueprint)
      → Yields Pooled (WritesAt IsNodeOf x) (connect config x)
  unfolding connect
  connect-WritesAt config (idx, nb) =
      Yields-bind Pooled (IsNodeOf nb) _ _ _ (new_node-IsNodeOf Pooled config nb) (λ n h.
        Yields-bind Pooled (IsNodeOf nb) _ _ _ (prepare-keeps nb n h)
          (λ n h. Yields-pure Pooled _ _ (refl, h)))

module _ {Below : Pooling ⊥} (P : Pools Below) where
  -- Whatever the machines answer, a cluster that NewCluster returns has exactly one node for each node
  -- of the blueprint, in the same order, although they are connected side by side; each is connected to
  -- its host as root, and its platform is supported.
  pub new_cluster-IsClusterOf :
      (config : SshConfig) (blueprint : ClusterBlueprint)
      → Returns P (IsClusterOf blueprint) (new_cluster config blueprint)
  unfolding new_cluster
  new_cluster-IsClusterOf config blueprint =
      Returns-bind P (λ slots. OnOk (Both IsNodeOf blueprint.nodes) (all_filled slots)) _ _ _
        (Returns-in_context P _ _ _ (
          Returns-gather (connect config) IsNodeOf (connect-WritesAt Below config) P
            blueprint.nodes))
        (λ slots h.
          Returns-bind P (Both IsNodeOf blueprint.nodes) _ _ _
            (Returns-lift P _ _
              (λ nodes e. subst (λ r. OnOk (Both IsNodeOf blueprint.nodes) r) e h))
            (λ nodes h. Returns-value P _ _ (record { same_blueprint = refl; nodes = h })))
