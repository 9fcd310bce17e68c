-- ===== src/Cmd/Provision/Blame.antt =====
-- Behind its connections, 'provision' fails only if a call to a machine has failed.
use cbtools_autobench.Base.{
  enumerate, ◌≡◌, refl, ◌≢◌, ℕ, suc, ◌==◌, ◌||◌, Bool, true, false, List, [], ◌∷◌, All, length,
  arith,
}
use cbtools_autobench.Result.{Succeeds}
use cbtools_autobench.Value.Blueprint.{cbm}
use cbtools_autobench.Value.Platform.Laws.{IsSupported}
use cbtools_autobench.Effect.Process.{Task, ◌>>=◌}
use cbtools_autobench.Effect.Runs.{Pooling, Runs, Pool}
use cbtools_autobench.Effect.Blame.{
  Blames, Blames-bind, Blames-lift_bind, Blames-pure, Blames-wrapped, Blames-perform, Blames-pool,
}
use cbtools_autobench.Effect.Session.{Pools}
use cbtools_autobench.Effect.Session.Blame.{
  BlamesAlways, BlamesAlways-run, BlamesAlways-value, BlamesAlways-in_context, BlamesAlways-bind,
  BlamesAlways-beside,
}
use cbtools_autobench.Ssh.Client.Blame.{ignored-Blames}
use cbtools_autobench.Nodes.Library.{Library}
use cbtools_autobench.Nodes.Node.{Node}
use cbtools_autobench.Nodes.Node.Blame as NodeBlame
use cbtools_autobench.Nodes.Cluster.{Cluster, for_each_node}
use cbtools_autobench.Nodes.Cluster.Setup.Blame as ClusterBlame
use cbtools_autobench.Nodes.Cluster.Setup.Blame.{IsReady}
use cbtools_autobench.Nodes.Cluster.Load.{
  chunks, load_data, flush_bucket, modify_eviction_percentage, modify_eviction_percentages,
  load_items, load_using_backup_mgr,
}
use cbtools_autobench.Nodes.Cluster.Load.Chunks.{chunks-IsSplit}
use cbtools_autobench.Nodes.BackupClient.{BackupClient}
use cbtools_autobench.Nodes.BackupClient
use cbtools_autobench.Cmd.Provision.{
  Provisioner, of_cluster, of_client, provision_one, provisioners, provision_connected,
}

-- The data is loaded with cbbackupmgr.
abbrev pub UsesBackupMgr : Cluster → Type 0
UsesBackupMgr c =
    let name = c.blueprint.bucket.dataset.data_loader in (name == "" || name == cbm) ≡ true

everything : {A : Type 0} (xs : List A) → All (λ x. Unit {0}) xs
everything [] = tt
everything (x ∷ xs) = (tt, everything xs)

chunks-Succeeds : (items : ℕ) (ns : List Node) → ns ≢ [] → Succeeds (chunks items (length ns))
chunks-Succeeds items [] h = absurd (h refl)
chunks-Succeeds items (n ∷ ns) h =
    let (cs, e, split) = chunks-IsSplit items (suc (length ns)) (omega arith) in rw e tt

module _ {W : Type 0} (Pooled : Pooling W) where
  client-Blames :
      (b : BackupClient)
      → IsSupported b.node.client.platform
      → Blames Pooled (BackupClient.provision b)
  unfolding BackupClient.provision
  client-Blames b h =
      Blames-bind Pooled _ _
        (Blames-wrapped Pooled _ _ (NodeBlame.provision-Blames Pooled b.node _ h))
        (λ _.
          Blames-bind Pooled _ _
            (Blames-wrapped Pooled _ _ (NodeBlame.disable_cb-Blames Pooled b.node h))
            (λ _. Blames-pure Pooled tt))

module _ {Below : Pooling ⊥} (P : Pool (Task Unit) (Runs Below)) (library : Library)
    (received : List ℕ → List ℕ) (c : Cluster) (nodes : c.nodes ≢ []) where
  percentages-Blames : (percentage : ℕ) → Blames P.pooled (modify_eviction_percentages c percentage)
  unfolding modify_eviction_percentages for_each_node modify_eviction_percentage
  percentages-Blames percentage =
      Blames-pool (λ (x : ℕ × Node). modify_eviction_percentage c x.1 percentage) (λ x. Unit {0})
        (λ x q. ClusterBlame.on_first-Blames Below c nodes _) P _ _ (everything _)

  load_items-Blames : UsesBackupMgr c → Blames P.pooled (load_items library received c)
  unfolding load_items load_using_backup_mgr ◌>>=◌
  load_items-Blames uses = Blames-lift_bind P.pooled _ _ (chunks-Succeeds _ c.nodes nodes) (λ items.
      rw uses (
        Blames-pool (λ (x : Node × ℕ). load_using_backup_mgr c x.0 x.1) (λ x. Unit {0})
          (λ x q. ignored-Blames Below x.0.client _) P _ _ (everything _)))

  load_data-Blames :
      (compact : Bool)
      → compact ≡ false
      → UsesBackupMgr c
      → Blames P.pooled (load_data library received c compact)
  unfolding load_data flush_bucket
  load_data-Blames true e uses = cc
  load_data-Blames false e uses =
      Blames-bind P.pooled _ _
        (Blames-wrapped P.pooled _ _ (
          Blames-bind P.pooled _ _ (ClusterBlame.on_first-Blames P.pooled c nodes _) (λ _.
            Blames-bind P.pooled _ _ (Blames-perform P.pooled _) (λ _. Blames-pure P.pooled tt))))
        (λ _. Blames-bind P.pooled _ _ (Blames-wrapped P.pooled _ _ (percentages-Blames 0)) (λ _.
          Blames-bind P.pooled _ _ (Blames-wrapped P.pooled _ _ (load_items-Blames uses)) (λ _.
            Blames-bind P.pooled _ _ (Blames-wrapped P.pooled _ _ (percentages-Blames 30))
              (λ _. Blames-pure P.pooled tt))))

-- What is needed of each of the two.
abbrev IsProvisionable : Provisioner → Type 0
IsProvisionable (of_cluster c) = (c.nodes ≢ []) × All IsReady (enumerate 0 c.nodes)
IsProvisionable (of_client b) = IsSupported b.node.client.platform

module _ {Below : Pooling ⊥} (P : Pools Below) where
  provision_one-Blames :
      (p : Provisioner) → IsProvisionable p → Blames P.tasks.pooled (provision_one p)
  provision_one-Blames (of_cluster c) h = ClusterBlame.provision-Blames P.tasks c h.0 h.1
  provision_one-Blames (of_client b) h = client-Blames P.tasks.pooled b h

  provisioners-All :
      (load_only : Bool) (c : Cluster) (b : BackupClient)
      → IsProvisionable (of_cluster c)
      → IsProvisionable (of_client b)
      → All IsProvisionable (provisioners load_only c b)
  provisioners-All true c b hc hb = tt
  provisioners-All false c b hc hb = (hc, (hb, tt))

  -- Behind its connections, to a cluster that has at least one node, all of them on supported platforms
  -- and, but for the first, with a data path or an index path, whose data is loaded with cbbackupmgr and
  -- not compacted, and to a backup client on a supported platform, `provision` fails only if a request
  -- has failed, be it the test for an uploaded package: on every run where all requests are answered,
  -- whatever the answers, it returns nil.
  pub provision_connected-Blames :
      (library : Library) (received : List ℕ → List ℕ) (load_only : Bool) (c : Cluster)
      (b : BackupClient)
      → c.nodes ≢ []
      → All IsReady (enumerate 0 c.nodes)
      → UsesBackupMgr c
      → c.blueprint.bucket.compact ≡ false
      → IsSupported b.node.client.platform
      → BlamesAlways P (provision_connected library received load_only c b)
  unfolding provision_connected
  provision_connected-Blames library received load_only c b nodes ready uses plain supported =
      BlamesAlways-bind P _ _
        (BlamesAlways-in_context P _ _ (
          BlamesAlways-beside P provision_one IsProvisionable provision_one-Blames 2 _
            (provisioners-All load_only c b (nodes, ready) supported)))
        (λ _.
          BlamesAlways-bind P _ _
            (BlamesAlways-in_context P _ _ (
              BlamesAlways-run P _ (
                load_data-Blames P.tasks library received c nodes c.blueprint.bucket.compact plain
                  uses)))
            (λ _. BlamesAlways-value P tt))
