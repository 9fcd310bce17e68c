-- ===== src/Nodes/Node/Upload.antt =====
-- The upload of the package when a node is provisioned.
use cbtools_autobench.Base.{◌≡◌, String, not}
use cbtools_autobench.Result.{Result}
use cbtools_autobench.Effect.Process.{Trace}
use cbtools_autobench.Effect.Plan.{commands, Meets}
use cbtools_autobench.Effect.Follows.{Follows}
use cbtools_autobench.Effect.Session.Within.{Within}
use cbtools_autobench.Ssh.Client.{Client}
use cbtools_autobench.Ssh.Client.Methods.{upload_plan}
use cbtools_autobench.Ssh.Client.Upload.{ran, started}
use cbtools_autobench.Nodes.Node.{Node}

-- The file has been tested for, and has been uploaded unless the test has found it.
pub record HasUploaded (host sink : String) (tr : Trace) : Type 0 where
  pub sent : Meets (upload_plan host sink) (commands tr)
  pub unless : started tr ≡ not (ran tr)
