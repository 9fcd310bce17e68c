-- ===== src/Nodes/Cluster/Load/Chunks.antt =====
-- How loadData of nodes/cluster.go divides the items between the nodes.
use cbtools_autobench.Base.{
  ◌≡◌, refl, ap, ℕ, zero, suc, ◌+◌, ◌*◌, ◌/◌, ◌%◌, ◌≤◌, ◌<◌, List, [], ◌∷◌, ◌++◌, length, replicate,
  All, arith,
}
use cbtools_autobench.Result.{ok}
use cbtools_autobench.Nodes.Cluster.Load.{chunks}

unfoldable pub sum : List ℕ → ℕ
sum [] = 0
sum (x ∷ xs) = x + sum xs

-- A number of items for each node. All items are loaded, every node loads its share, and no node loads
-- as much as a whole item per node above it.
pub record IsSplit (items nodes : ℕ) (cs : List ℕ) : Type 0 where
  pub for_each : length cs ≡ nodes
  pub all_items : sum cs ≡ items
  pub fair : All (λ c. (items / nodes ≤ c) × (c < items / nodes + nodes)) cs

-- The shares that go into the channel.
abbrev shares : ℕ → ℕ → ℕ → List ℕ
shares share n rest = replicate n share ++ (share + rest) ∷ []

sum-shares : (share n rest : ℕ) → sum (shares share n rest) ≡ suc n * share + rest
unfolding sum
sum-shares share zero rest = grind arith
sum-shares share (suc n) rest = let ih = sum-shares share n rest in grind arith

length-shares : (share n rest : ℕ) → length (shares share n rest) ≡ suc n
length-shares share zero rest = refl
length-shares share (suc n) rest = ap suc (length-shares share n rest)

All-shares :
    (share n rest : ℕ) (P : ℕ → Type 0) → P share → P (share + rest) → All P (shares share n rest)
All-shares share zero rest P p last = (last, tt)
All-shares share (suc n) rest P p last = (p, All-shares share n rest P p last)

-- With at least one node, the numbers in the channel are one for each node, add up to the number of
-- items, and differ from `items / nodes` by less than the number of nodes.
pub chunks-IsSplit :
    (items nodes : ℕ)
    → 0 < nodes
    → (cs : List ℕ) × (chunks items nodes ≡ ok cs) × IsSplit items nodes cs
unfolding chunks
chunks-IsSplit items zero h = let bad : ⊥ = omega arith in absurd bad
chunks-IsSplit items (suc n) h =
    let share = items / suc n in
    let rest = items % suc n in
    (
      shares share n rest,
      refl,
      record {
        for_each = length-shares share n rest;
        all_items = let total = sum-shares share n rest in grind arith;
        fair = All-shares share n rest _ (omega arith, omega arith) (omega arith, omega arith);
      },
    )
