-- ===== src/Nodes/Cluster/Setup/Plans.antt =====
-- The remote commands of `Cluster.Provision`.
use cbtools_autobench.Base.{
  enumerate, refl, ℕ, String, ◌==◌, ◌||◌, not, Bool, true, false, [], ◌∷◌, map, eqb, if◌then◌else◌,
}
use cbtools_autobench.Result.{Result, ok, err, panic, fatal}
use cbtools_autobench.Value.Format.{str}
use cbtools_autobench.Value.Command.{Command, new_command}
use cbtools_autobench.Effect.Process.{sleep, Exec, Task, pure}
use cbtools_autobench.Effect.Runs.{Pooling, Runs, Pool}
use cbtools_autobench.Effect.Plan.{Plan, nothing, must, both, on_host, all_merged, commands}
use cbtools_autobench.Effect.Follows.{
  Follows, Follows-bind, Follows-pure, Follows-silent, Follows-wrapped, Follows-lift_bind,
  Follows-perform,
}
use cbtools_autobench.Effect.Pools.{Follows-pool}
use cbtools_autobench.Ssh.Client.{remote_line}
use cbtools_autobench.Ssh.Client.Plans.{execute_command-Follows}
use cbtools_autobench.Ssh.Client.Methods.{ignored-Follows}
use cbtools_autobench.Nodes.Node
use cbtools_autobench.Nodes.Node.{Node, init_line}
use cbtools_autobench.Nodes.Node.Provision.{provision_plan, provision-Follows}
use cbtools_autobench.Nodes.Cluster.{Cluster, first_node, for_each_node}
use cbtools_autobench.Nodes.Cluster.Setup.{
  on_first, server_add, server_add_command, service, cluster_init, cluster_init_command, rebalance,
  rebalance_command, limit_vbuckets, limit_vbuckets_command, enable_developer_preview_mode,
  developer_preview_command, create_bucket, create_bucket_command, provision_node, provision_nodes,
  initialize_cb, provision,
}

-- One command on the first node.
abbrev pub at_first : Result Node → Command → Plan
at_first (ok n) command = on_host n.client.host (remote_line command ∷ [])
at_first (err e) command = nothing
at_first (panic s) command = nothing
at_first (fatal s) command = nothing

abbrev pub first_plan : Cluster → Command → Plan
first_plan c command = at_first (first_node c.nodes) command

-- `mkdir` and `chown` for a path, if it is set.
abbrev pub path_plan : Node → String → Plan
path_plan n path =
    if path == ""
    then nothing
    else both (must n.client.host (remote_line (new_command "mkdir -p %s" (str path ∷ [])))) (
        both
          (must n.client.host
            (remote_line (new_command "chown -R couchbase:couchbase %s" (str path ∷ []))))
          nothing)

unfoldable pub node_plan : Cluster → ℕ × Node → Plan
node_plan c (i, n) = both (provision_plan n.client c.blueprint.package_path) (
    both (path_plan n n.blueprint.data_path) (
      both (path_plan n n.blueprint.index_path) (
        both (on_host n.client.host (remote_line (new_command (init_line n.blueprint) []) ∷ []))
          nothing)))

-- Adding a node is a command on the first one.
abbrev pub add_plan : Cluster → Node → Result String → Plan
add_plan c n (ok name) = first_plan c (server_add_command n.blueprint.host name)
add_plan c n (err e) = nothing
add_plan c n (panic s) = nothing
add_plan c n (fatal s) = nothing

unfoldable pub join_plan : Cluster → ℕ × Node → Plan
join_plan c (i, n) = if eqb i 0 then nothing else add_plan c n (service n.blueprint)

-- The whole procedure: all nodes side by side, then the cluster.
unfoldable pub cluster_plan : Cluster → Plan
cluster_plan c =
    let b = c.blueprint.bucket in
    both (all_merged (map (node_plan c) (enumerate 0 c.nodes))) (
      both
        (both (first_plan c cluster_init_command) (
          both (all_merged (map (join_plan c) (enumerate 0 c.nodes)))
            (both (first_plan c rebalance_command) nothing)))
        (both
          (if not c.blueprint.developer_preview
            then nothing
            else first_plan c developer_preview_command)
          (both
            (if eqb b.vbuckets 0 || eqb b.vbuckets 1024
              then nothing
              else first_plan c (limit_vbuckets_command b.vbuckets))
            (both (first_plan c (create_bucket_command b)) nothing))))

module _ {W : Type 0} (Pooled : Pooling W) where
  pub on_first-Follows :
      (c : Cluster) (command : Command) → Follows Pooled (first_plan c command) (on_first c command)
  unfolding on_first
  on_first-Follows c command =
      Follows-lift_bind Pooled _ (first_node c.nodes) _
        (λ n e. rw e (ignored-Follows Pooled n.client command))

  -- A choice in the code that the plan makes too.
  pub Follows-choice :
      {A : Type 0} (b : Bool) (p q : Plan) (m n : Exec W A)
      → Follows Pooled p m
      → Follows Pooled q n
      → Follows Pooled (if b then p else q) (if b then m else n)
  Follows-choice true p q m n hm hn = hm
  Follows-choice false p q m n hm hn = hn

  server_add-Follows :
      (c : Cluster) (x : ℕ × Node) → Follows Pooled (join_plan c x) (server_add c x)
  unfolding server_add join_plan
  server_add-Follows c (i, n) =
      Follows-choice (eqb i 0) _ _ _ _ (Follows-pure Pooled tt)
        (Follows-lift_bind Pooled _ (service n.blueprint) _ (λ name e. rw e (on_first-Follows c _)))

  path-Follows :
      (n : Node) (path name : String)
      → Follows Pooled
          (path_plan n path)
          (if path == "" then pure tt else Node.make_path n path name)
  unfolding Node.make_path
  path-Follows n path name = Follows-choice (path == "") _ _ _ _ (Follows-pure Pooled tt) (
      Follows-bind Pooled _ _ _ _
        (Follows-wrapped Pooled _ _ _ (execute_command-Follows Pooled n.client _))
        (λ _.
          Follows-bind Pooled _ _ _ _
            (Follows-wrapped Pooled _ _ _ (execute_command-Follows Pooled n.client _))
            (λ _. Follows-pure Pooled tt)))

  provision_node-Follows :
      (c : Cluster) (x : ℕ × Node) → Follows Pooled (node_plan c x) (provision_node c x.1)
  unfolding provision_node node_plan Node.create_data_path Node.create_index_path Node.initialize_cb
  provision_node-Follows c (i, n) =
      Follows-bind Pooled _ _ _ _ (Follows-wrapped Pooled _ _ _ (provision-Follows Pooled n _))
        (λ _. Follows-bind Pooled _ _ _ _ (Follows-wrapped Pooled _ _ _ (path-Follows n _ _)) (λ _.
          Follows-bind Pooled _ _ _ _ (Follows-wrapped Pooled _ _ _ (path-Follows n _ _)) (λ _.
            Follows-bind Pooled _ _ _ _
              (Follows-wrapped Pooled _ _ _ (ignored-Follows Pooled n.client _))
              (λ _. Follows-pure Pooled tt))))

module _ {Below : Pooling ⊥} (P : Pool (Task Unit) (Runs Below)) where
  initialize_cb-Follows :
      (c : Cluster)
      → Follows P.pooled
          (both (first_plan c cluster_init_command) (
            both
              (all_merged (map (join_plan c) (enumerate 0 c.nodes)))
              (both (first_plan c rebalance_command) nothing)))
          (initialize_cb c)
  unfolding initialize_cb cluster_init rebalance for_each_node
  initialize_cb-Follows c =
      Follows-bind P.pooled _ _ _ _ (Follows-wrapped P.pooled _ _ _ (on_first-Follows P.pooled c _))
        (λ _.
          Follows-bind P.pooled _ _ _ _
            (Follows-wrapped P.pooled _ _ _ (Follows-pool _ _ (server_add-Follows Below c) P _ _))
            (λ _.
              Follows-bind P.pooled _ _ _ _
                (Follows-wrapped P.pooled _ _ _ (on_first-Follows P.pooled c _))
                (λ _. Follows-pure P.pooled tt)))

  -- Provisioning a cluster that returns nil has carried out the whole of `cluster_plan`: on all nodes
  -- side by side, in any interleaving, the provisioning of the node, its paths and its initialisation;
  -- then, only after every node is done, the initialisation of the cluster on the first node, the
  -- addition of the other nodes, the rebalance, the optional settings and the bucket, all sent to the
  -- first node. If it fails, it has stopped within this plan.
  pub provision-cluster_plan : (c : Cluster) → Follows P.pooled (cluster_plan c) (provision c)
  unfolding provision cluster_plan provision_nodes for_each_node limit_vbuckets
      enable_developer_preview_mode create_bucket commands
  provision-cluster_plan c =
      Follows-bind P.pooled _ _ _ _
        (Follows-wrapped P.pooled _ _ _ (Follows-pool _ _ (provision_node-Follows Below c) P _ _))
        (λ _.
          Follows-bind P.pooled _ _ _ _ (Follows-wrapped P.pooled _ _ _ (initialize_cb-Follows c))
            (λ _.
              Follows-bind P.pooled _ _ _ _
                (Follows-wrapped P.pooled _ _ _ (
                  Follows-choice P.pooled _ _ _ _ _ (Follows-pure P.pooled tt)
                    (on_first-Follows P.pooled c _)))
                (λ _.
                  Follows-bind P.pooled _ _ _ _
                    (Follows-wrapped P.pooled _ _ _ (
                      Follows-choice P.pooled _ _ _ _ _ (Follows-pure P.pooled tt)
                        (on_first-Follows P.pooled c _)))
                    (λ _.
                      Follows-bind P.pooled _ _ _ _
                        (Follows-wrapped P.pooled _ _ _ (on_first-Follows P.pooled c _))
                        (λ _.
                          Follows-silent P.pooled _ _ _
                            (Follows-perform P.pooled (sleep 30) (λ y. refl))
                            (λ _. Follows-pure P.pooled tt))))))
