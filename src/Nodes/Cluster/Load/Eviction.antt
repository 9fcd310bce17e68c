-- ===== src/Nodes/Cluster/Load/Eviction.antt =====
-- Where the eviction percentages of nodes/cluster.go are changed.
use cbtools_autobench.Base.{
  enumerate, ◌≡◌, refl, ap, ℕ, suc, List, [], ◌∷◌, map, length, ◌+◌, String, All, arith,
}
use cbtools_autobench.Result.{Result, ok, err, panic, fatal, Succeeds}
use cbtools_autobench.Effect.Process.{Task}
use cbtools_autobench.Effect.Runs.{
  Merge, end, left, right, Runs, Pooling, Ensures, Ensures-mono, Pool,
}
use cbtools_autobench.Effect.Plan.{
  commands, Action, Plan, Meets, Begins, stopped, whole, first, second, Obeys, on_host, all_merged,
}
use cbtools_autobench.Effect.Follows.{Follows}
use cbtools_autobench.Effect.Pools.{Follows-pool}
use cbtools_autobench.Ssh.Client.{remote_line}
use cbtools_autobench.Value.Blueprint.{ClusterBlueprint}
use cbtools_autobench.Nodes.Node.{Node}
use cbtools_autobench.Nodes.Cluster.{Cluster, first_node, for_each_node}
use cbtools_autobench.Nodes.Cluster.Setup.Plans.{first_plan, on_first-Follows}
use cbtools_autobench.Nodes.Cluster.Load.{
  eviction_command, modify_eviction_percentage, modify_eviction_percentages,
}

module _ {A : Type 0} (Q : A → Type 0) where
  All-Merge : {xs ys zs : List A} → Merge xs ys zs → All Q xs → All Q ys → All Q zs
  All-Merge end h k = tt
  All-Merge (left x m) (q, h) k = (q, All-Merge m h k)
  All-Merge (right y m) h (q, k) = (q, All-Merge m h k)

length-Merge : {A : Type 0} {xs ys zs : List A} → Merge xs ys zs → length zs ≡ length xs + length ys
length-Merge end = refl
length-Merge (left x m) = let ih = length-Merge m in omega arith
length-Merge (right y m) = let ih = length-Merge m in omega arith

module _ (host line : String) where
  abbrev Same : Action → Type 0
  Same x = x ≡ (host, line)

  on_host-Meets :
      (ys : List Action) → Meets (on_host host (line ∷ [])) ys → All Same ys × (length ys ≡ 1)
  unfolding on_host
  on_host-Meets ys (Meets.both Meets.must Meets.nothing) = ((refl, tt), refl)

  on_host-Begins : (ys : List Action) → Begins (on_host host (line ∷ [])) ys → All Same ys
  unfolding on_host
  on_host-Begins ys stopped = tt
  on_host-Begins ys (whole h) = (on_host-Meets ys h).0
  on_host-Begins ys (first stopped) = tt
  on_host-Begins ys (first (whole Meets.must)) = (refl, tt)
  on_host-Begins ys (second Meets.must stopped) = (refl, tt)
  on_host-Begins ys (second Meets.must (whole Meets.nothing)) = (refl, tt)

-- The same command once for each element of a list.
module _ {X : Type 0} (host line : String) where
  repeated : List X → Plan
  repeated xs = all_merged (map (λ x. on_host host (line ∷ [])) xs)

  repeated-Meets :
      (xs : List X) {zs : List Action}
      → Meets (repeated xs) zs
      → All (Same host line) zs × (length zs ≡ length xs)
  unfolding repeated all_merged
  repeated-Meets [] Meets.nothing = (tt, refl)
  repeated-Meets (x ∷ xs) (Meets.merged h k m) =
      let (same, one) = on_host-Meets host line _ h in
      let (others, number) = repeated-Meets xs k in
      (All-Merge (Same host line) m same others, let total = length-Merge m in omega arith)

  repeated-Begins :
      (xs : List X) {zs : List Action} → Begins (repeated xs) zs → All (Same host line) zs
  unfolding repeated all_merged
  repeated-Begins [] stopped = tt
  repeated-Begins [] (whole h) = (repeated-Meets [] h).0
  repeated-Begins (x ∷ xs) stopped = tt
  repeated-Begins (x ∷ xs) (whole h) = (repeated-Meets (x ∷ xs) h).0
  repeated-Begins (x ∷ xs) (Begins.merged h k m) =
      All-Merge (Same host line) m (on_host-Begins host line _ h) (repeated-Begins xs k)

  -- All commands are this one, and there are as many as elements if the procedure succeeds.
  abbrev OnlySame : List X → List Action → Result (Unit {0}) → Type 0
  OnlySame xs zs r = All (Same host line) zs × (Succeeds r → length zs ≡ length xs)

  repeated-OnlySame :
      (xs : List X) (zs : List Action) (r : Result (Unit {0}))
      → Obeys (repeated xs) zs r
      → OnlySame xs zs r
  repeated-OnlySame xs zs (ok a) h = let (same, number) = repeated-Meets xs h in (same, λ s. number)
  repeated-OnlySame xs zs (err e) h = (repeated-Begins xs h, λ s. absurd s)
  repeated-OnlySame xs zs (panic e) h = (repeated-Begins xs h, λ s. absurd s)
  repeated-OnlySame xs zs (fatal e) h = (repeated-Begins xs h, λ s. absurd s)

length-enumerate : {A : Type 0} (i : ℕ) (xs : List A) → length (enumerate i xs) ≡ length xs
length-enumerate i [] = refl
length-enumerate i (x ∷ xs) = ap suc (length-enumerate (suc i) xs)

-- One command on the first node for each node of the cluster.
abbrev pub eviction_plan : Cluster → ℕ → Plan
eviction_plan c percentage =
    all_merged (map (λ x. first_plan c (eviction_command percentage)) (enumerate 0 c.nodes))

module _ {Below : Pooling ⊥} (P : Pool (Task Unit) (Runs Below)) where
  pub modify_eviction_percentages-Follows :
      (c : Cluster) (percentage : ℕ)
      → Follows P.pooled (eviction_plan c percentage) (modify_eviction_percentages c percentage)
  unfolding modify_eviction_percentages modify_eviction_percentage for_each_node
  modify_eviction_percentages-Follows c percentage =
      Follows-pool _ (λ x. first_plan c (eviction_command percentage))
        (λ x. on_first-Follows Below c (eviction_command percentage)) P _ _

  -- Changing the eviction percentages of a cluster sends every command to the first node, whichever
  -- node it is meant for, and on success sends it there once for each node of the cluster.
  pub modify_eviction_percentages-FirstOnly :
      (blueprint : ClusterBlueprint) (n : Node) (ns : List Node) (percentage : ℕ)
      → Ensures P.pooled
          (modify_eviction_percentages
            (record { blueprint = blueprint; nodes = n ∷ ns })
            percentage)
          (λ tr r.
            All (λ x. x ≡ (n.client.host, remote_line (eviction_command percentage))) (commands tr)
            × (Succeeds r → length (commands tr) ≡ suc (length ns)))
  unfolding repeated first_node
  modify_eviction_percentages-FirstOnly blueprint n ns percentage =
      let c : Cluster = record { blueprint = blueprint; nodes = n ∷ ns } in
      let line = remote_line (eviction_command percentage) in
      let follows = modify_eviction_percentages-Follows c percentage in
      Ensures-mono P.pooled _ _ _
        (λ tr r o.
          let (same, number) =
            repeated-OnlySame n.client.host line (enumerate 0 (n ∷ ns)) (commands tr) r o in
          (same, λ s. rw (length-enumerate 0 (n ∷ ns)) at (number s)))
        follows.runs
