-- ===== src/Nodes/Cluster/Logs.antt =====
-- nodes/cluster.go: the collection of the cluster's logs, and its statistics.
pub mod Plans
use cbtools_autobench.Base.{
  String, ◌<>◌, Bool, true, false, not, List, [], ◌∷◌, map, Option, if◌then◌else◌, split,
  trim_space,
}
use cbtools_autobench.Result.{message, Result, ok, err}
use cbtools_autobench.Value.Format.{str, sprintf}
use cbtools_autobench.Value.Command.{Command, new_command}
use cbtools_autobench.Value.Stats.{Stats}
use cbtools_autobench.Ssh.Client
use cbtools_autobench.Nodes.Library.{Library}
use cbtools_autobench.Nodes.Node.{Node, base}
use cbtools_autobench.Nodes.Cluster.{Cluster, Main, first_node, for_each_node}
use cbtools_autobench.Nodes.Cluster.Poll.{poll}
use cbtools_autobench.Nodes.Cluster.Load.{first_host}
use cbtools_autobench.Effect.Process.{
  curl, Exec, call, caught, ignored, lift, pure, wrapped, ◌>>=◌, ◌>>◌,
}

unfoldable pub collect_command : String → Command
unfolding new_command
collect_command host =
    new_command "couchbase-cli collect-logs-start -c %s -u Administrator -p asdasd --all-nodes"
      (str host ∷ [])

unfoldable pub status_command : String → Command
unfolding new_command
status_command host =
    new_command
      ("couchbase-cli collect-logs-status -c %s \\\n"
        <> "\t\t-u Administrator -p asdasd | grep -q '^Status: completed'")
      (str host ∷ [])

unfoldable pub paths_command : String → Command
unfolding new_command
paths_command host =
    new_command
      ("couchbase-cli collect-logs-status -c %s -u Administrator -p asdasd | grep 'path :' | \\\n"
        <> "\t\t\tawk '{ print $3 }' | paste -sd \",\"")
      (str host ∷ [])

-- Whether a call returned nil.
abbrev pub is_nil : {A : Type 0} → Result A → Bool
is_nil (ok a) = true
is_nil _ = false

-- `timeout, _ := poll(...)`: with an error, `poll` returns false.
abbrev pub timed_out : Result Bool → Bool
timed_out (ok timeout) = timeout
timed_out _ = false

module _ {W : Type 0} where
  unfoldable pub start_collection : Cluster → Exec W Unit
  start_collection c = do
    n ← lift (first_node c.nodes)
    ignored (Client.execute_command n.client (collect_command n.blueprint.host))

  unfoldable pub log_collection_complete : Cluster → Exec W Bool
  log_collection_complete c = do
    n ← lift (first_node c.nodes)
    result ← caught (Client.execute_command n.client (status_command n.blueprint.host))
    pure (is_nil result)

  unfoldable pub collection_paths : Cluster → Exec W (List String)
  collection_paths c = do
    n ← lift (first_node c.nodes)
    output ← Client.execute_command n.client (paths_command n.blueprint.host)
    pure (split b',' (trim_space output))

module _ (library : Library) where
  -- What downloadLogs does on one node with one path.
  unfoldable pub download_log : {W : Type 0} → String → String → Node → Exec W Unit
  download_log output source n = do
    exists ← Client.file_exists n.client source
    if not exists
        then pure tt
        else Client.secure_download n.client source (library.join_path output (base source))

  unfoldable pub download_logs : Cluster → List String → String → Main Unit
  download_logs c [] output = pure tt
  download_logs c (source ∷ rest) output = do
    wrapped (sprintf "failed to download logs at '%s'" (str source ∷ []))
        (for_each_node c (λ (i, n). download_log output source n))
    download_logs c rest output

  -- CollectLogs
  unfoldable pub collect_logs : Cluster → String → Main (List String)
  collect_logs c path = do
    wrapped "failed to start collection" (start_collection c)
    result ← caught (poll (log_collection_complete c) 300)
    if timed_out result
        then lift (err (message "timeout whilst waiting for log collection to complete"))
        else (do
          paths ← wrapped "failed to determine the paths to logs" (collection_paths c)
          wrapped "failed to download logs" (download_logs c paths path)
          pure (map (λ source. library.join_path path (base source)) paths))

  -- Stats
  unfoldable pub stats : {W : Type 0} → Cluster → Exec W (Option Stats)
  stats c = do
    host ← lift (first_host c)
    output ←
        wrapped "failed to execute curl command"
          (call (curl (sprintf "%s:8091/pools/default/buckets/default" (str host ∷ []))))
    wrapped "failed to unmarshal stats" (lift (library.decode_stats output))
