-- ===== src/Nodes/Cluster/Logs/Plans.antt =====
-- The remote commands of `Cluster.CollectLogs` of nodes/cluster.go.
use cbtools_autobench.Base.{enumerate, ℕ, zero, suc, ◌≡◌, String, Bool, List, [], ◌∷◌, map}
use cbtools_autobench.Result.{Result, ok, err, panic, fatal}
use cbtools_autobench.Value.Format.{str, sprintf}
use cbtools_autobench.Effect.Runs.{Runs}
use cbtools_autobench.Effect.Plan.{
  Action, Plan, nothing, must, may, both, Meets, Begins, all_merged,
}
use cbtools_autobench.Effect.Follows.{Follows}
use cbtools_autobench.Effect.FollowsSome.{FollowsSome}
use cbtools_autobench.Effect.FollowsMaking.{FollowsMaking}
use cbtools_autobench.Ssh.Client.{remote_line}
use cbtools_autobench.Ssh.Client.Plans.{exists_line}
use cbtools_autobench.Nodes.Library.{Library}
use cbtools_autobench.Nodes.Node.{Node, base}
use cbtools_autobench.Nodes.Cluster.{Cluster, first_node}
use cbtools_autobench.Nodes.Cluster.Setup.Plans.{at_first}
use cbtools_autobench.Nodes.Cluster.Logs.{collect_command, status_command, paths_command}

-- A plan so many times.
unfoldable pub times : ℕ → Plan → Plan
times zero p = nothing
times (suc k) p = both p (times k p)

-- What one call of the polled function does, if it never fails.
abbrev Looked : Plan → List Action → Result Bool → Type 0
Looked q xs (ok ready) = Meets q xs
Looked q xs (err e) = ⊥
Looked q xs (panic s) = Begins q xs
Looked q xs (fatal s) = Begins q xs

-- One test of the status, which is not sent if no session can be made.
abbrev pub status_plan : Result Node → Plan
status_plan (ok n) = may n.client.host (remote_line (status_command n.blueprint.host))
status_plan (err e) = nothing
status_plan (panic s) = nothing
status_plan (fatal s) = nothing

abbrev pub paths_plan : Result Node → Plan
paths_plan (ok n) = must n.client.host (remote_line (paths_command n.blueprint.host))
paths_plan (err e) = nothing
paths_plan (panic s) = nothing
paths_plan (fatal s) = nothing

-- On each node: one test, and the file is read, if it is there.
abbrev pub download_plan : String → ℕ × Node → Plan
download_plan source (i, n) =
    both (both (may n.client.host (exists_line source)) nothing)
      (may n.client.host (sprintf "cat %s" (str source ∷ [])))

unfoldable pub downloads_plan : Cluster → List String → Plan
downloads_plan c [] = nothing
downloads_plan c (source ∷ rest) =
    both (all_merged (map (download_plan source) (enumerate 0 c.nodes))) (downloads_plan c rest)

-- The name by which the first node knows itself.
abbrev host_of : Result Node → String
host_of (ok n) = n.blueprint.host
host_of (err e) = ""
host_of (panic s) = ""
host_of (fatal s) = ""

-- What is sent once the collection is complete, if these paths are reported.
abbrev pub fetch_plan : Cluster → List String → Plan
fetch_plan c paths =
    both (both (paths_plan (first_node c.nodes)) nothing) (both (downloads_plan c paths) nothing)

-- The names are those of the downloaded paths.
abbrev pub IsNamed : Library → String → List String → List String → Type 0
IsNamed library path paths names =
    names ≡ map (λ source. library.join_path path (base source)) paths

-- What is sent if the status is tested so many times and these paths are reported.
abbrev pub collection_plan : Cluster → ℕ × List String → Plan
collection_plan c (tests, paths) =
    both (at_first (first_node c.nodes) (collect_command (host_of (first_node c.nodes))))
      (both (times tests (status_plan (first_node c.nodes))) (fetch_plan c paths))
