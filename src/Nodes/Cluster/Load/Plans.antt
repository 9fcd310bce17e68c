-- ===== src/Nodes/Cluster/Load/Plans.antt =====
-- The remote commands of `Cluster.LoadData`.
use cbtools_autobench.Base.{
  refl, ℕ, String, ◌==◌, ◌||◌, not, Bool, true, false, List, [], ◌∷◌, map, length, if◌then◌else◌,
}
use cbtools_autobench.Result.{Result, ok, err, panic, fatal, message}
use cbtools_autobench.Value.Blueprint.{cbm, pillowfight}
use cbtools_autobench.Effect.Process.{sleep, curl, Task, done, pool, ◌>>=◌}
use cbtools_autobench.Effect.Runs.{Pooling, Runs, Pool}
use cbtools_autobench.Effect.Plan.{Plan, nothing, both, on_host, all_merged, commands}
use cbtools_autobench.Effect.Follows.{
  Follows, Follows-bind, Follows-pure, Follows-silent, Follows-wrapped, Follows-lift,
  Follows-lift_bind, Follows-perform, Follows-call, Follows-stop, Follows-if,
}
use cbtools_autobench.Effect.Pools.{Follows-pool}
use cbtools_autobench.Ssh.Client.{remote_line}
use cbtools_autobench.Ssh.Client.Methods.{ignored-Follows}
use cbtools_autobench.Nodes.Library.{Library}
use cbtools_autobench.Nodes.Node.{Node}
use cbtools_autobench.Nodes.Cluster.{Cluster}
use cbtools_autobench.Nodes.Cluster.Poll.Runs.{poll-Follows}
use cbtools_autobench.Nodes.Cluster.Setup.Plans.{first_plan, on_first-Follows, Follows-choice}
use cbtools_autobench.Nodes.Cluster.Load.{
  flush_bucket_command, compact_bucket_command, generate_command, pillowfight_command, cycles_num,
  chunks, with_items, flush_bucket, load_using_backup_mgr, load_using_pillowfight, load_items,
  compaction_complete, compact_bucket, first_host, load_data,
}
use cbtools_autobench.Nodes.Cluster.Load.Eviction.{
  eviction_plan, modify_eviction_percentages-Follows,
}

-- Loading with 'cbc-pillowfight', once the number of cycles is known.
abbrev pub cycles_plan : Cluster → Node → Result ℕ → Plan
cycles_plan c n (ok cycles) =
    on_host n.client.host (remote_line (pillowfight_command c.blueprint.bucket.dataset cycles) ∷ [])
cycles_plan c n (err e) = nothing
cycles_plan c n (panic s) = nothing
cycles_plan c n (fatal s) = nothing

-- One command for each node, with the tool of the blueprint and the node's number of items.
unfoldable pub node_load_plan : Cluster → Node × ℕ → Plan
node_load_plan c (n, items) =
    let name = c.blueprint.bucket.dataset.data_loader in
    if name == "" || name == cbm
    then on_host n.client.host
        (remote_line (generate_command c.blueprint.bucket.dataset items) ∷ [])
    else if name == pillowfight
    then if not c.blueprint.bucket.pitr_enabled
      then nothing
      else cycles_plan c n (cycles_num c.blueprint.bucket items)
    else nothing

abbrev pub items_plan : Cluster → (List ℕ → List ℕ) → Result (List ℕ) → Plan
items_plan c received (ok items) =
    all_merged (map (node_load_plan c) (with_items c.nodes (received items)))
items_plan c received (err e) = nothing
items_plan c received (panic s) = nothing
items_plan c received (fatal s) = nothing

unfoldable pub load_plan : Cluster → (List ℕ → List ℕ) → Bool → Plan
load_plan c received compact = both (both (first_plan c flush_bucket_command) nothing) (
    both (eviction_plan c 0) (
      both (items_plan c received (chunks c.blueprint.bucket.dataset.items (length c.nodes))) (
        both (eviction_plan c 30) (
          if not compact
          then nothing
          else both (both (first_plan c compact_bucket_command) nothing) nothing))))

module _ {W : Type 0} (Pooled : Pooling W) where
  pub flush_bucket-Follows :
      (c : Cluster)
      → Follows Pooled (both (first_plan c flush_bucket_command) nothing) (flush_bucket c)
  unfolding flush_bucket commands
  flush_bucket-Follows c = Follows-bind Pooled _ _ _ _ (on_first-Follows Pooled c _) (λ _.
      Follows-silent Pooled _ _ _ (Follows-perform Pooled (sleep 30) (λ y. refl))
        (λ _. Follows-pure Pooled tt))

  backup_mgr-Follows :
      (c : Cluster) (n : Node) (items : ℕ)
      → Follows Pooled
          (on_host n.client.host
            (remote_line (generate_command c.blueprint.bucket.dataset items) ∷ []))
          (load_using_backup_mgr c n items)
  unfolding load_using_backup_mgr
  backup_mgr-Follows c n items = ignored-Follows Pooled n.client _

  pillowfight-Follows :
      (c : Cluster) (n : Node) (items : ℕ)
      → Follows Pooled
          (if not c.blueprint.bucket.pitr_enabled
            then nothing
            else cycles_plan c n (cycles_num c.blueprint.bucket items))
          (load_using_pillowfight c n items)
  unfolding load_using_pillowfight
  pillowfight-Follows c n items =
      Follows-choice Pooled (not c.blueprint.bucket.pitr_enabled) _ _ _ _ (Follows-lift Pooled _) (
        Follows-lift_bind Pooled _ (cycles_num c.blueprint.bucket items) _
          (λ cycles e. rw e (ignored-Follows Pooled n.client _)))

  module _ (library : Library) (received : List ℕ → List ℕ) where
    compaction_complete-Follows :
        (c : Cluster) → Follows Pooled nothing (compaction_complete library received c)
    unfolding compaction_complete commands
    compaction_complete-Follows c =
        Follows-silent Pooled nothing _ _ (Follows-lift Pooled (first_host c)) (λ host.
          Follows-silent Pooled nothing _ _
            (Follows-wrapped Pooled _ _ _ (Follows-call Pooled (curl _) (λ y. refl)))
            (λ output.
              Follows-silent Pooled nothing _ _
                (Follows-wrapped Pooled _ _ _ (Follows-lift Pooled _))
                (λ tasks. Follows-pure Pooled _)))

    compact_bucket-Follows :
        (c : Cluster)
        → Follows Pooled
            (both (first_plan c compact_bucket_command) nothing)
            (compact_bucket library received c)
    unfolding compact_bucket commands
    compact_bucket-Follows c =
        Follows-bind Pooled _ _ _ _ (Follows-wrapped Pooled _ _ _ (on_first-Follows Pooled c _))
          (λ _. Follows-silent Pooled _ _ _ (Follows-perform Pooled (sleep 30) (λ y. refl)) (λ _.
            Follows-silent Pooled _ _ _
              (Follows-wrapped Pooled _ _ _
                (poll-Follows Pooled _ 86_400 (compaction_complete-Follows c)))
              (λ timeout.
                Follows-if Pooled _ timeout _ _ (Follows-lift Pooled _) (Follows-pure Pooled tt))))

module _ {Below : Pooling ⊥} (P : Pool (Task Unit) (Runs Below)) where
  -- The choice of the data loader, with the two tests as Booleans.
  pool-Follows :
      {X : Type 0} (a b : Bool) (f g : X → Task Unit) (p q : X → Plan) (m : String) (n : ℕ)
      (xs : List X)
      → ((x : X) → Follows Below (p x) (f x))
      → ((x : X) → Follows Below (q x) (g x))
      → Follows P.pooled
          (all_merged (map (λ x. if a then p x else if b then q x else nothing) xs))
          (done (if a then ok f else if b then ok g else err (message m)) >>= λ load.
            pool n (map load xs) (λ r. done r))
  unfolding ◌>>=◌
  pool-Follows true b f g p q m n xs hf hg = Follows-pool f p hf P n xs
  pool-Follows false true f g p q m n xs hf hg = Follows-pool g q hg P n xs
  pool-Follows false false f g p q m n xs hf hg = Follows-stop P.pooled _ (err (message m)) (λ h. h)

  module _ (library : Library) (received : List ℕ → List ℕ) where
    load_items-Follows :
        (c : Cluster)
        → Follows P.pooled
            (items_plan c received (chunks c.blueprint.bucket.dataset.items (length c.nodes)))
            (load_items library received c)
    unfolding load_items node_load_plan
    load_items-Follows c =
        let name = c.blueprint.bucket.dataset.data_loader in
        Follows-lift_bind P.pooled _ (chunks c.blueprint.bucket.dataset.items (length c.nodes)) _
          (λ items e. rw e (
            pool-Follows (name == "" || name == cbm) (name == pillowfight)
              (λ (n, k). load_using_backup_mgr c n k) (λ (n, k). load_using_pillowfight c n k) _ _ _
              _ (with_items c.nodes (received items)) (λ (n, k). backup_mgr-Follows Below c n k)
              (λ (n, k). pillowfight-Follows Below c n k)))

    -- Loading the data of a cluster that returns nil has carried out the whole of `load_plan`: the
    -- bucket is flushed, the eviction percentages are set to 0, then all nodes load, side by side, with
    -- the tool that the blueprint names, the numbers of items that `chunks` computes in the order in
    -- which they receive them, then the percentages are set to 30 and, if asked for, the bucket is
    -- compacted. If it fails, it has stopped within this plan, so the percentages are not set to 30
    -- when the loading fails.
    pub load_data-Follows :
        (c : Cluster) (compact : Bool)
        → Follows P.pooled (load_plan c received compact) (load_data library received c compact)
    unfolding load_data load_plan
    load_data-Follows c compact =
        Follows-bind P.pooled _ _ _ _
          (Follows-wrapped P.pooled _ _ _ (flush_bucket-Follows P.pooled c))
          (λ _.
            Follows-bind P.pooled _ _ _ _
              (Follows-wrapped P.pooled _ _ _ (modify_eviction_percentages-Follows P c 0))
              (λ _.
                Follows-bind P.pooled _ _ _ _
                  (Follows-wrapped P.pooled _ _ _ (load_items-Follows c))
                  (λ _.
                    Follows-bind P.pooled _ _ _ _
                      (Follows-wrapped P.pooled _ _ _ (modify_eviction_percentages-Follows P c 30))
                      (λ _.
                        Follows-choice P.pooled (not compact) _ _ _ _ (Follows-pure P.pooled tt) (
                          Follows-bind P.pooled _ _ _ _
                            (Follows-wrapped P.pooled _ _ _
                              (compact_bucket-Follows P.pooled library received c))
                            (λ _. Follows-pure P.pooled tt))))))
