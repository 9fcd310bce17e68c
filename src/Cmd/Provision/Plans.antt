-- ===== src/Cmd/Provision/Plans.antt =====
-- The remote commands of the sub-command of cmd/provision.go.
use cbtools_autobench.Base.{ℕ, Bool, List, map}
use cbtools_autobench.Effect.Runs.{Pooling}
use cbtools_autobench.Effect.Plan.{Plan, nothing, both, all_merged}
use cbtools_autobench.Effect.Follows.{Follows}
use cbtools_autobench.Effect.Session.{Pools}
use cbtools_autobench.Effect.Session.Plans.{
  Carries, Carries-run, Carries-value, Carries-in_context, Carries-bind, Carries-beside,
}
use cbtools_autobench.Nodes.Library.{Library}
use cbtools_autobench.Nodes.Cluster.{Cluster}
use cbtools_autobench.Nodes.Cluster.Setup.Plans.{cluster_plan, provision-cluster_plan}
use cbtools_autobench.Nodes.Cluster.Load.Plans.{load_plan, load_data-Follows}
use cbtools_autobench.Nodes.BackupClient.{BackupClient}
use cbtools_autobench.Nodes.BackupClient.Setup.{client_plan, provision-client_plan}
use cbtools_autobench.Cmd.Provision.{
  Provisioner, of_cluster, of_client, provision_one, provisioners, provision_connected,
}

-- The plan of one provisioner.
abbrev pub provisioner_plan : Provisioner → Plan
provisioner_plan (of_cluster c) = cluster_plan c
provisioner_plan (of_client b) = client_plan b

-- The cluster and the client side by side, then the dataset.
unfoldable pub whole_plan : (List ℕ → List ℕ) → Bool → Cluster → BackupClient → Plan
whole_plan received load_only c b =
    both (all_merged (map provisioner_plan (provisioners load_only c b)))
      (both (load_plan c received c.blueprint.bucket.compact) nothing)

module _ {Below : Pooling ⊥} (P : Pools Below) where
  provision_one-Follows :
      (p : Provisioner) → Follows P.tasks.pooled (provisioner_plan p) (provision_one p)
  provision_one-Follows (of_cluster c) = provision-cluster_plan P.tasks c
  provision_one-Follows (of_client b) = provision-client_plan P.tasks.pooled b

  pub provision_connected-Carries :
      (library : Library) (received : List ℕ → List ℕ) (load_only : Bool) (c : Cluster)
      (b : BackupClient)
      → Carries P
          (whole_plan received load_only c b)
          (provision_connected library received load_only c b)
  unfolding provision_connected whole_plan
  provision_connected-Carries library received load_only c b =
      Carries-bind P _ _ _ _
        (Carries-in_context P _ _ _ (
          Carries-beside P provision_one provisioner_plan provision_one-Follows 2
            (provisioners load_only c b)))
        (λ _.
          Carries-bind P _ _ _ _
            (Carries-in_context P _ _ _
              (Carries-run P _ _ (load_data-Follows P.tasks library received c _)))
            (λ _. Carries-value P tt))
