-- ===== src/Nodes/Cluster/Setup.antt =====
-- nodes/cluster.go: provisioning of the cluster.
pub mod ServerAdd
pub mod Blame
pub mod Plans
use cbtools_autobench.Base.{ℕ, String, ◌<>◌, ◌==◌, not, ◌||◌, List, [], ◌∷◌, eqb, if◌then◌else◌}
use cbtools_autobench.Result.{Error, message, Result, ok, err}
use cbtools_autobench.Value.Format.{Arg, str, num, sprintf}
use cbtools_autobench.Value.Command.{Command, new_command}
use cbtools_autobench.Value.Blueprint.{BucketBlueprint, NodeBlueprint}
use cbtools_autobench.Ssh.Client
use cbtools_autobench.Nodes.Node
use cbtools_autobench.Nodes.Node.{Node}
use cbtools_autobench.Nodes.Cluster.{Cluster, Main, first_node, for_each_node}
use cbtools_autobench.Effect.Process.{
  sleep, Exec, Task, perform, ignored, lift, pure, wrapped, ◌>>=◌, ◌>>◌,
}

-- memInfo
abbrev pub mem_info : String
mem_info =
    "\n\tFREE=$(free | awk '{ print $2 }' | sed '1d;3d' | awk '{ print int($0 / 1024) }');\n"
    <> "\tQUOTA=$(echo $FREE | awk '{ print int($0 * 0.8) }');\n"

-- addPiTRArgs
unfoldable pub add_pitr_args : BucketBlueprint → String → String
unfolding sprintf
add_pitr_args b command =
    let command = if b.pitr_enabled then command <> " --enable-point-in-time 1" else command in
    let command =
      if not (eqb b.pitr_granularity 0)
      then command <> sprintf " --point-in-time-granularity %d" (num b.pitr_granularity ∷ [])
      else command in
    if not (eqb b.pitr_max_history_age 0)
    then command <> sprintf " --point-in-time-max-history-age %d" (num b.pitr_max_history_age ∷ [])
    else command

unfoldable pub create_bucket_command : BucketBlueprint → Command
unfolding sprintf add_pitr_args new_command
create_bucket_command b =
    let command =
      sprintf
        ("%s couchbase-cli bucket-create --bucket default --bucket-type %s -c localhost:8091 \\\n"
          <> "\t\t\t-u Administrator -p asdasd --bucket-ramsize $QUOTA --bucket-eviction-policy %s \\\n"
          <> "\t\t\t--bucket-replica 0 --enable-flush 1 --wait")
        (str mem_info ∷ str b.bucket_type ∷ str b.eviction_policy ∷ []) in
    new_command (add_pitr_args b command) []

unfoldable pub cluster_init_command : Command
unfolding new_command
cluster_init_command =
    new_command
      ("\n\t\t%s couchbase-cli cluster-init -c localhost:8091 --cluster-username Administrator --cluster-password asdasd \\\n"
        <> "\t\t\t--cluster-ramsize $QUOTA")
      (str mem_info ∷ [])

unfoldable pub rebalance_command : Command
unfolding new_command
rebalance_command =
    new_command "couchbase-cli rebalance -c localhost:8091 -u Administrator -p asdasd" []

unfoldable pub developer_preview_command : Command
unfolding new_command
developer_preview_command =
    new_command
      ("curl -X POST -u Administrator:asdasd \\\n"
        <> "\t\tlocalhost:8091/settings/developerPreview -d \"enabled=true\"")
      []

unfoldable pub limit_vbuckets_command : ℕ → Command
unfolding new_command
limit_vbuckets_command vbuckets =
    new_command
      ("curl -X POST -u Administrator:asdasd localhost:8091/diag/eval -d \\\n"
        <> "\t\t\t\"ns_config:set(couchbase_num_vbuckets_default, %d).\"")
      (num vbuckets ∷ [])

unfoldable pub server_add_command : String → String → Command
unfolding new_command
server_add_command host service =
    new_command
      ("\n\t\tcouchbase-cli server-add -c localhost:8091 -u Administrator -p asdasd --server-add %s \\\n"
        <> "\t\t\t--server-add-username Administrator --server-add-password asdasd --services %s")
      (str host ∷ str service ∷ [])

-- The `switch` of serverAdd.
unfoldable pub service : NodeBlueprint → Result String
service b =
    if not (b.data_path == "")
    then ok "data"
    else if not (b.index_path == "")
    then ok "search"
    else err (message ("node " <> (b.host <> " does not have a data or index path")))

module _ {W : Type 0} where
  -- `_, err := c.nodes[0].client.ExecuteCommand(command); return err`
  unfoldable pub on_first : Cluster → Command → Exec W Unit
  on_first c command = do
    n ← lift (first_node c.nodes)
    ignored (Client.execute_command n.client command)

  -- serverAdd, for the node at place `i`.
  unfoldable pub server_add : Cluster → ℕ × Node → Exec W Unit
  server_add c (i, n) =
      let add = (do
        name ← lift (service n.blueprint)
        on_first c (server_add_command n.blueprint.host name)) in
      if eqb i 0 then pure tt else add

  unfoldable pub cluster_init : Cluster → Exec W Unit
  cluster_init c = on_first c cluster_init_command

  unfoldable pub rebalance : Cluster → Exec W Unit
  rebalance c = on_first c rebalance_command

  unfoldable pub limit_vbuckets : Cluster → Exec W Unit
  limit_vbuckets c =
      let vbuckets = c.blueprint.bucket.vbuckets in
      if eqb vbuckets 0 || eqb vbuckets 1024
      then pure tt
      else on_first c (limit_vbuckets_command vbuckets)

  unfoldable pub enable_developer_preview_mode : Cluster → Exec W Unit
  enable_developer_preview_mode c =
      if not c.blueprint.developer_preview then pure tt else on_first c developer_preview_command

  unfoldable pub create_bucket : Cluster → Exec W Unit
  create_bucket c = on_first c (create_bucket_command c.blueprint.bucket)

  unfoldable pub provision_node : Cluster → Node → Exec W Unit
  provision_node c n = do
    wrapped "failed to provision node" (Node.provision n c.blueprint.package_path)
    wrapped "failed to create data path" (Node.create_data_path n)
    wrapped "failed to create index path" (Node.create_index_path n)
    wrapped "failed to initialize Couchbase Server" (Node.initialize_cb n)
    pure tt

unfoldable pub provision_nodes : Cluster → Main Unit
provision_nodes c = for_each_node c (λ (i, n). provision_node c n)

unfoldable pub initialize_cb : Cluster → Main Unit
initialize_cb c = do
  wrapped "failed to initialize cluster" (cluster_init c)
  wrapped "failed to add cluster nodes" (for_each_node c (server_add c))
  wrapped "failed to rebalance nodes into cluster" (rebalance c)
  pure tt

-- Provision
unfoldable pub provision : Cluster → Main Unit
provision c = do
  wrapped "failed to provision nodes" (provision_nodes c)
  wrapped "failed to initialize Couchbase" (initialize_cb c)
  wrapped "failed to enable developer preview mode" (enable_developer_preview_mode c)
  wrapped "failed to limit vBuckets" (limit_vbuckets c)
  wrapped "failed to create bucket" (create_bucket c)
  perform (sleep 30)
  pure tt
