-- ===== src/Nodes/Cluster/Setup/ServerAdd.antt =====
-- Which nodes can join the cluster.
use cbtools_autobench.Base.{
  enumerate, ◌≡◌, refl, ◌≢◌, ◌⊎◌, inl, inr, eq_iff, false, ℕ, zero, suc, arith, eqb, All,
}
use cbtools_autobench.Result.{Succeeds}
use cbtools_autobench.Effect.Process.{done, Task}
use cbtools_autobench.Effect.Runs.{Pooling, Runs, Pool}
use cbtools_autobench.Effect.Requires.{
  Requires, Requires-given, Requires-stop, Requires-wrapped, Requires-first, Requires-rest,
  Requires-pool,
}
use cbtools_autobench.Nodes.Node.{Node}
use cbtools_autobench.Nodes.Cluster.{Cluster, for_each_node}
use cbtools_autobench.Nodes.Cluster.Setup.{server_add, service, initialize_cb, provision}

-- The node has a data path or an index path, or is the first one.
abbrev pub CanJoin : ℕ × Node → Type 0
CanJoin (i, n) = (i ≡ 0) ⊎ ((n.blueprint.data_path ≢ "") ⊎ (n.blueprint.index_path ≢ ""))

service-cases :
    (n : Node)
    → ((n.blueprint.data_path ≢ "") ⊎ (n.blueprint.index_path ≢ ""))
      ⊎ (¬ Succeeds (service n.blueprint))
unfolding service
service-cases n = ground (arith, eq_iff n.blueprint.data_path "", eq_iff n.blueprint.index_path "")

module _ {W : Type 0} (Pooled : Pooling W) where
  adding-Requires :
      (c : Cluster) (i : ℕ) (n : Node) {P : Type 0}
      → eqb i 0 ≡ false
      → ¬ Succeeds (service n.blueprint)
      → Requires Pooled (server_add c (i, n)) P
  unfolding server_add
  adding-Requires c i n e h =
      rw (e, server_add)
        (Requires-first Pooled (done (service n.blueprint)) _
          (Requires-stop Pooled (service n.blueprint) h))

  server_add-Requires : (c : Cluster) (x : ℕ × Node) → Requires Pooled (server_add c x) (CanJoin x)
  server_add-Requires c (zero, n) = Requires-given Pooled _ (inl refl)
  server_add-Requires c (suc i, n) = elim (service-cases n) [
    | inl join ↦ Requires-given Pooled _ (inr join)
    | inr h ↦ adding-Requires c (suc i) n (ground arith) h
  ]

module _ {Below : Pooling ⊥} (P : Pool (Task Unit) (Runs Below)) where
  -- A cluster is provisioned successfully only if each of its nodes but the first has a data path or an
  -- index path, since no other node can be added.
  pub provision-CanJoin :
      (c : Cluster) → Requires P.pooled (provision c) (All CanJoin (enumerate 0 c.nodes))
  unfolding provision initialize_cb for_each_node
  provision-CanJoin c = Requires-rest P.pooled _ _ (λ _. Requires-first P.pooled _ _ (
      Requires-wrapped P.pooled _ _ (
        Requires-rest P.pooled _ _ (λ _. Requires-first P.pooled _ _ (
          Requires-wrapped P.pooled _ _ (Requires-pool _ _ (server_add-Requires Below c) P _ _))))))
