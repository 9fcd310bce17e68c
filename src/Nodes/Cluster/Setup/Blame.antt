-- ===== src/Nodes/Cluster/Setup/Blame.antt =====
-- Provisioning a cluster fails only if a call to one of its nodes has failed.
use cbtools_autobench.Base.{
  enumerate, refl, ◌≢◌, ◌⊎◌, inl, inr, ℕ, zero, suc, eqb, eq_iff, Bool, List, [], ◌∷◌, All, arith,
  if◌then◌else◌,
}
use cbtools_autobench.Result.{Succeeds}
use cbtools_autobench.Value.Command.{Command}
use cbtools_autobench.Value.Platform.Laws.{IsSupported}
use cbtools_autobench.Effect.Process.{Task, pure}
use cbtools_autobench.Effect.Runs.{Pooling, Runs, Pool}
use cbtools_autobench.Effect.Blame.{
  Blames, Blames-bind, Blames-lift_bind, Blames-if, Blames-pure, Blames-wrapped, Blames-perform,
  Blames-pool,
}
use cbtools_autobench.Ssh.Client.Blame.{ignored-Blames}
use cbtools_autobench.Nodes.Node.{Node}
use cbtools_autobench.Nodes.Node.Blame
use cbtools_autobench.Nodes.Cluster.{Cluster, first_node, for_each_node}
use cbtools_autobench.Nodes.Cluster.Setup.ServerAdd.{CanJoin}
use cbtools_autobench.Nodes.Cluster.Setup.{
  service, on_first, server_add, cluster_init, rebalance, limit_vbuckets,
  enable_developer_preview_mode, create_bucket, provision_node, provision_nodes, initialize_cb,
  provision,
}

-- A node that can be provisioned: its platform is supported, and it has a path unless it is the first.
abbrev pub IsReady : ℕ × Node → Type 0
IsReady x = IsSupported x.1.client.platform × CanJoin x

first_node-Succeeds : (ns : List Node) → ns ≢ [] → Succeeds (first_node ns)
unfolding first_node
first_node-Succeeds [] h = absurd (h refl)
first_node-Succeeds (n ∷ ns) h = tt

service-Succeeds :
    (n : Node)
    → ((n.blueprint.data_path ≢ "") ⊎ (n.blueprint.index_path ≢ ""))
    → Succeeds (service n.blueprint)
unfolding service
service-Succeeds n h =
    ground (arith, eq_iff n.blueprint.data_path "", eq_iff n.blueprint.index_path "")

module _ {W : Type 0} (Pooled : Pooling W) (c : Cluster) (nodes : c.nodes ≢ []) where
  pub on_first-Blames : (command : Command) → Blames Pooled (on_first c command)
  unfolding on_first
  on_first-Blames command =
      Blames-lift_bind Pooled _ _ (first_node-Succeeds c.nodes nodes)
        (λ n. ignored-Blames Pooled n.client command)

  adding-Blames : (i : ℕ) (n : Node) → CanJoin (i, n) → Blames Pooled (server_add c (i, n))
  unfolding server_add
  adding-Blames zero n h = Blames-pure Pooled tt
  adding-Blames (suc i) n (inl e) = absurd (omega (arith, e))
  adding-Blames (suc i) n (inr h) =
      Blames-if Pooled (eqb (suc i) 0) _ _ (Blames-pure Pooled tt)
        (Blames-lift_bind Pooled _ _ (service-Succeeds n h) (λ name. on_first-Blames _))

  provision_node-Blames :
      (n : Node) → IsSupported n.client.platform → Blames Pooled (provision_node c n)
  unfolding provision_node
  provision_node-Blames n h =
      Blames-bind Pooled _ _ (Blames-wrapped Pooled _ _ (Blame.provision-Blames Pooled n _ h)) (λ _.
        Blames-bind Pooled _ _ (Blames-wrapped Pooled _ _ (Blame.create_data_path-Blames Pooled n))
          (λ _.
            Blames-bind Pooled _ _
              (Blames-wrapped Pooled _ _ (Blame.create_index_path-Blames Pooled n))
              (λ _.
                Blames-bind Pooled _ _
                  (Blames-wrapped Pooled _ _ (Blame.initialize_cb-Blames Pooled n))
                  (λ _. Blames-pure Pooled tt))))

  optional-Blames :
      (b : Bool) (command : Command) → Blames Pooled (if b then pure tt else on_first c command)
  optional-Blames b command =
      Blames-if Pooled b _ _ (Blames-pure Pooled tt) (on_first-Blames command)

module _ {Below : Pooling ⊥} (P : Pool (Task Unit) (Runs Below)) where
  -- Provisioning a cluster that has at least one node, all of them on supported platforms and, but for
  -- the first, with a data path or an index path, fails only if a call to one of the machines has
  -- failed: on every run where each request is answered, it returns nil.
  pub provision-Blames :
      (c : Cluster)
      → c.nodes ≢ []
      → All IsReady (enumerate 0 c.nodes)
      → Blames P.pooled (provision c)
  unfolding provision provision_nodes initialize_cb for_each_node cluster_init rebalance
      limit_vbuckets enable_developer_preview_mode create_bucket
  provision-Blames c nodes h =
      Blames-bind P.pooled _ _
        (Blames-wrapped P.pooled _ _ (
          Blames-pool (λ (x : ℕ × Node). provision_node c x.1) IsReady
            (λ x r. provision_node-Blames Below c nodes x.1 r.0) P _ _ h))
        (λ _.
          Blames-bind P.pooled _ _
            (Blames-wrapped P.pooled _ _ (
              Blames-bind P.pooled _ _
                (Blames-wrapped P.pooled _ _ (on_first-Blames P.pooled c nodes _))
                (λ _.
                  Blames-bind P.pooled _ _
                    (Blames-wrapped P.pooled _ _ (
                      Blames-pool (server_add c) IsReady
                        (λ (i, n) r. adding-Blames Below c nodes i n r.1) P _ _ h))
                    (λ _.
                      Blames-bind P.pooled _ _
                        (Blames-wrapped P.pooled _ _ (on_first-Blames P.pooled c nodes _))
                        (λ _. Blames-pure P.pooled tt)))))
            (λ _.
              Blames-bind P.pooled _ _
                (Blames-wrapped P.pooled _ _ (optional-Blames P.pooled c nodes _ _))
                (λ _.
                  Blames-bind P.pooled _ _
                    (Blames-wrapped P.pooled _ _ (optional-Blames P.pooled c nodes _ _))
                    (λ _.
                      Blames-bind P.pooled _ _
                        (Blames-wrapped P.pooled _ _ (on_first-Blames P.pooled c nodes _))
                        (λ _.
                          Blames-bind P.pooled _ _ (Blames-perform P.pooled _)
                            (λ _. Blames-pure P.pooled tt))))))
