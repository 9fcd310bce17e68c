-- ===== src/Nodes/Cluster/Load.antt =====
-- nodes/cluster.go: loading of the data set.
pub mod Chunks
pub mod Eviction
pub mod Plans
use cbtools_autobench.Base.{
  enumerate, ℕ, zero, suc, ◌+◌, ◌-◌, ◌*◌, ◌/◌, ◌%◌, ◌^◌, ltb, String, ◌<>◌, ◌==◌, not, ◌&&◌, ◌||◌,
  Bool, true, false, List, [], ◌∷◌, ◌++◌, map, replicate, length, eqb, if◌then◌else◌,
}
use cbtools_autobench.Result.{message, Result, ok, err, panic}
use cbtools_autobench.Value.Format.{Arg, str, num, itoa, sprintf}
use cbtools_autobench.Value.Command.{Command, new_command}
use cbtools_autobench.Value.Blueprint.{DataBlueprint, BucketBlueprint, cbm, pillowfight}
use cbtools_autobench.Ssh.Client
use cbtools_autobench.Nodes.Library.{Library, ClusterTask}
use cbtools_autobench.Nodes.Node.{Node}
use cbtools_autobench.Nodes.Cluster.{Cluster, Main, first_node, for_each_node}
use cbtools_autobench.Nodes.Cluster.Setup.{on_first}
use cbtools_autobench.Nodes.Cluster.Poll.{poll}
use cbtools_autobench.Effect.Process.{
  sleep, curl, Exec, Task, call, perform, ignored, lift, pure, pool, done, wrapped, ◌>>=◌, ◌>>◌,
}

unfoldable pub flush_bucket_command : Command
unfolding new_command
flush_bucket_command =
    new_command
      ("couchbase-cli bucket-flush -c localhost:8091 \\\n"
        <> "\t\t-u Administrator -p asdasd --bucket default --force")
      []

unfoldable pub compact_bucket_command : Command
unfolding new_command
compact_bucket_command =
    new_command
      ("couchbase-cli bucket-compact -c localhost:8091 \\\n"
        <> "\t\t-u Administrator -p asdasd --bucket default")
      []

unfoldable pub eviction_command : ℕ → Command
unfolding new_command
eviction_command percentage =
    new_command
      ("cbepctl localhost:11210 -b default -u Administrator -p asdasd \\\n"
        <> "\t\t\tset flush_param item_eviction_age_percentage %d")
      (num percentage ∷ [])

-- The numbers that loadData puts into the channel, for a number of nodes.
unfoldable pub chunks : ℕ → ℕ → Result (List ℕ)
chunks items zero = panic "integer divide by zero"
chunks items (suc n) = ok (replicate n (items / suc n) ++ (items / suc n + items % suc n) ∷ [])

unfoldable pub generate_command : DataBlueprint → ℕ → Command
unfolding sprintf new_command
generate_command d items =
    let command =
      sprintf
        ("cbbackupmgr generate --cluster localhost:8091 -u Administrator --password asdasd \\\n"
          <> "\t\t--bucket default --num-documents %d --prefix $(cat /dev/urandom | tr -dc 'a-z0-9' | fold -w 5 | head -n 1):: \\\n"
          <> "\t\t--size %d --no-progress-bar")
        (num items ∷ num d.size ∷ []) in
    let command =
      if not (eqb d.load_threads 0)
      then command <> sprintf " --threads %d" (num d.load_threads ∷ [])
      else command <> " --threads $(nproc)" in
    new_command (if not d.compressible then command <> " --low-compression" else command) []

-- cyclesNum, as the word of an `int`. Division by zero active items panics.
unfoldable pub cycles_num : BucketBlueprint → ℕ → Result ℕ
cycles_num b items =
    if eqb b.dataset.active_items 0
    then panic "integer divide by zero"
    else ok (items / b.dataset.active_items * b.pitr_granularity % 2 ^ 64)

-- An `int` that may be negative, given by its word, as `%d` prints it.
abbrev pub int : ℕ → Arg
int word = if ltb word (2 ^ 63) then num word else str ("-" <> itoa (2 ^ 64 - word))

unfoldable pub pillowfight_command : DataBlueprint → ℕ → Command
unfolding sprintf new_command
pillowfight_command d cycles =
    let command =
      sprintf
        ("cbc-pillowfight -U localhost -u Administrator -P asdasd -B %d -I %d --num-cycles %d \\\n"
          <> "\t\t--rate-limit %d -m %d -M %d -r 100 -R --sequential")
        (num d.active_items
          ∷ num d.active_items
          ∷ int cycles
          ∷ num d.active_items
          ∷ num d.size
          ∷ num d.size
          ∷ []) in
    let command =
      if not (eqb d.load_threads 0)
      then command <> sprintf " --num-threads %d" (num d.load_threads ∷ [])
      else command in
    new_command (if not d.compressible then command <> " --compress" else command) []

module _ {W : Type 0} where
  unfoldable pub flush_bucket : Cluster → Exec W Unit
  flush_bucket c = do on_first c flush_bucket_command; perform (sleep 30); pure tt

  -- modifyEvictionPercentage. The command goes to the first node, whatever node is given.
  unfoldable pub modify_eviction_percentage : Cluster → Node → ℕ → Exec W Unit
  modify_eviction_percentage c n percentage = on_first c (eviction_command percentage)

  unfoldable pub load_using_backup_mgr : Cluster → Node → ℕ → Exec W Unit
  load_using_backup_mgr c n items =
      ignored (Client.execute_command n.client (generate_command c.blueprint.bucket.dataset items))

  unfoldable pub load_using_pillowfight : Cluster → Node → ℕ → Exec W Unit
  load_using_pillowfight c n items =
      let load = (do
        cycles ← lift (cycles_num c.blueprint.bucket items)
        ignored (
            Client.execute_command n.client
              (pillowfight_command c.blueprint.bucket.dataset cycles))) in
      if not c.blueprint.bucket.pitr_enabled
      then lift (err (message "loading data with 'cbc-pillowfight' is only supported for PiTR"))
      else load

unfoldable pub modify_eviction_percentages : Cluster → ℕ → Main Unit
modify_eviction_percentages c percentage =
    for_each_node c (λ (i, n). modify_eviction_percentage c n percentage)

-- Each worker takes the next number from the channel. Which worker takes which is up to the scheduler:
-- the numbers are given in the order in which the nodes of the slice receive them.
abbrev pub with_items : List Node → List ℕ → List (Node × ℕ)
with_items [] items = []
with_items (n ∷ ns) [] = []
with_items (n ∷ ns) (k ∷ ks) = (n, k) ∷ with_items ns ks

-- The `switch` over the data loader.
abbrev pub loader : Cluster → Result (Node × ℕ → Task Unit)
loader c =
    let name = c.blueprint.bucket.dataset.data_loader in
    if name == "" || name == cbm
    then ok (λ (n, items). load_using_backup_mgr c n items)
    else if name == pillowfight
    then ok (λ (n, items). load_using_pillowfight c n items)
    else err (message ("unknown/unsupported data loader '" <> (name <> "'")))

-- `task.Type == "bucket_compaction" && task.Status == "running"` for some task
abbrev pub compacting : List ClusterTask → Bool
compacting [] = false
compacting (t ∷ ts) = (t.kind == "bucket_compaction" && t.status == "running") || compacting ts

abbrev pub only_rebalance : List ClusterTask → Bool
only_rebalance (t ∷ []) = t.kind == "rebalance"
only_rebalance _ = false

-- `c.blueprint.Nodes[0].Host`
abbrev pub first_host : Cluster → Result String
first_host c = elim c.blueprint.nodes [
  | [] ↦ panic "index out of range [0] with length 0"
  | n ∷ ns ↦ ok n.host
]

module _ (library : Library) (received : List ℕ → List ℕ) where
  unfoldable pub load_items : Cluster → Main Unit
  load_items c = do
    items ← lift (chunks c.blueprint.bucket.dataset.items (length c.nodes))
    load ← lift (loader c)
    pool (length c.nodes) (map load (with_items c.nodes (received items))) (λ r. done r)

  unfoldable pub compaction_complete : {W : Type 0} → Cluster → Exec W Bool
  compaction_complete c = do
    host ← lift (first_host c)
    output ← wrapped "" (call (curl (sprintf "%s:8091/pools/default/tasks" (str host ∷ []))))
    tasks ← wrapped "failed to unmarshal response" (lift (library.decode_tasks output))
    pure (if compacting tasks then false else only_rebalance tasks)

  unfoldable pub compact_bucket : {W : Type 0} → Cluster → Exec W Unit
  compact_bucket c = do
    wrapped "" (on_first c compact_bucket_command)
    perform (sleep 30)
    timeout ←
        wrapped "failed to poll until compaction completed" (poll (compaction_complete c) 86_400)
    if timeout
        then lift (err (message "timeout whilst waiting for bucket compaction to complete"))
        else pure tt

  -- LoadData
  unfoldable pub load_data : Cluster → Bool → Main Unit
  load_data c compact = do
    wrapped "failed to flush bucket" (flush_bucket c)
    wrapped "failed to set eviction percentages to zero" (modify_eviction_percentages c 0)
    wrapped "failed to load data" (load_items c)
    wrapped "failed to reset eviction percentages" (modify_eviction_percentages c 30)
    if not compact
        then pure tt
        else (do wrapped "failed to compact bucket" (compact_bucket c); pure tt)
