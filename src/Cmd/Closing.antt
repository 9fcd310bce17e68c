-- ===== src/Cmd/Closing.antt =====
-- That the sub-commands of cmd/provision.go and cmd/benchmark.go close their connections.
use cbtools_autobench.Value.Formats.{Formats}
use cbtools_autobench.Effect.Runs.{Pooling}
use cbtools_autobench.Effect.Session.{Script, Pools, Always}
use cbtools_autobench.Effect.Session.Closing.{UnlessExit}
use cbtools_autobench.Nodes.Library.{Library}
use cbtools_autobench.Nodes.Cluster.{Cluster}
use cbtools_autobench.Nodes.Cluster.Close.{AllClosed, ClientClosed}
use cbtools_autobench.Nodes.BackupClient.{BackupClient}
use cbtools_autobench.Cmd.Provision
use cbtools_autobench.Cmd.Benchmark

-- Once the cluster is connected, every run ends by closing its connections, and once the client is
-- connected, the rest of the run ends by closing its connection; `log.Fatal` and a panic of a worker of
-- a pool leave them open.
abbrev pub Closes :
    {Below : Pooling ⊥}
    → Pools Below
    → (Cluster → Script (Unit {0}))
    → (Cluster → BackupClient → Script (Unit {0}))
    → Cluster
    → BackupClient
    → Type 0
Closes P with_cluster with_client c b =
    Always P (with_cluster c) (λ tr r. UnlessExit (AllClosed c) tr r)
    × Always P (with_client c b) (λ tr r. UnlessExit (ClientClosed b) tr r)
