-- ===== src/Effect/Session/Slots.antt =====
-- A slice whose slots are written one by one.
use mathlib.Core.List.{Permᴰ}
use mathlib.Core.Path.{subst}
use cbtools_autobench.Base.{
  ℕ, zero, suc, ◌+◌, ◌≡◌, List, [], ◌∷◌, replicate, length, enumerate, Option, none, some, All,
  arith,
}
use cbtools_autobench.Result.{Result, ok, err, panic, fatal}
use cbtools_autobench.Effect.Yields.{OnOk}

-- A place and what is written there.
abbrev pub Write : Type 0 → Type 0
Write X = ℕ × X

module _ {X : Type 0} where
  -- `slots[i] = x`; a slice that is too short is left as it is.
  unfoldable pub write : ℕ → X → List (Option X) → List (Option X)
  write i x [] = []
  write zero x (o ∷ os) = some x ∷ os
  write (suc i) x (o ∷ os) = o ∷ write i x os

  -- the first one first
  unfoldable pub write_all : List (Write X) → List (Option X) → List (Option X)
  unfolding write
  write_all [] slots = slots
  write_all ((i, x) ∷ ws) slots = write_all ws (write i x slots)

  -- `make([]*X, n)`
  abbrev pub empty_slots : ℕ → List (Option X)
  empty_slots n = replicate n none

  abbrev filled_slot : X → Result (List X) → Result (List X)
  filled_slot x (ok xs) = ok (x ∷ xs)
  filled_slot x (err e) = err e
  filled_slot x (panic s) = panic s
  filled_slot x (fatal s) = fatal s

  -- What is in the slots; one that is nil panics when it is used.
  unfoldable pub all_filled : List (Option X) → Result (List X)
  all_filled [] = ok []
  all_filled (none ∷ os) = panic "invalid memory address or nil pointer dereference"
  all_filled (some x ∷ os) = filled_slot x (all_filled os)

pub All-reordered :
    {Y : Type 0} (Q : Y → Type 0) {xs ys : List Y} → Permᴰ xs ys → All Q xs → All Q ys
All-reordered Q Permᴰ.nil h = h
All-reordered Q (Permᴰ.cons e p) (q, h) = (subst Q e q, All-reordered Q p h)
All-reordered Q (Permᴰ.swap e e') (q, (r, h)) = (subst Q e' r, (subst Q e q, h))
All-reordered Q (Permᴰ.trans p p') h = All-reordered Q p' (All-reordered Q p h)

-- Two lists of the same length, element by element.
abbrev pub Both : {X Y : Type 0} → (X → Y → Type 0) → List X → List Y → Type 0
Both R [] [] = Unit
Both R [] (y ∷ ys) = ⊥
Both R (x ∷ xs) [] = ⊥
Both R (x ∷ xs) (y ∷ ys) = R x y × Both R xs ys

module _ {B X : Type 0} (R : B → X → Type 0) where
  -- The write is one to the place of a `b`, of what belongs to it.
  abbrev pub Belongs : List B → ℕ → X → Type 0
  Belongs [] i x = ⊥
  Belongs (b ∷ bs) zero x = R b x
  Belongs (b ∷ bs) (suc i) x = Belongs bs i x

  abbrev InSlot : B → Option X → Type 0
  InSlot b none = Unit
  InSlot b (some x) = R b x

  -- Each slot is empty or holds what belongs there.
  abbrev Fits : List B → List (Option X) → Type 0
  Fits [] [] = Unit
  Fits [] (o ∷ os) = ⊥
  Fits (b ∷ bs) [] = ⊥
  Fits (b ∷ bs) (o ∷ os) = InSlot b o × Fits bs os

  empty-Fits : (bs : List B) → Fits bs (empty_slots (length bs))
  empty-Fits [] = tt
  empty-Fits (b ∷ bs) = (tt, empty-Fits bs)

  write-Fits :
      (bs : List B) (i : ℕ) (x : X) (slots : List (Option X))
      → Belongs bs i x
      → Fits bs slots
      → Fits bs (write i x slots)
  unfolding write
  write-Fits [] i x slots q h = absurd q
  write-Fits (b ∷ bs) zero x [] q h = absurd h
  write-Fits (b ∷ bs) (suc i) x [] q h = absurd h
  write-Fits (b ∷ bs) zero x (o ∷ os) q (h, k) = (q, k)
  write-Fits (b ∷ bs) (suc i) x (o ∷ os) q (h, k) = (h, write-Fits bs i x os q k)

  write_all-Fits :
      (bs : List B) (ws : List (Write X)) (slots : List (Option X))
      → All (λ (i, x). Belongs bs i x) ws
      → Fits bs slots
      → Fits bs (write_all ws slots)
  unfolding write_all
  write_all-Fits bs [] slots q h = h
  write_all-Fits bs ((i, x) ∷ ws) slots (q, qs) h =
      write_all-Fits bs ws (write i x slots) qs (write-Fits bs i x slots q h)

  -- A slice without an empty slot.
  all_filled-Both :
      (bs : List B) (slots : List (Option X)) → Fits bs slots → OnOk (Both R bs) (all_filled slots)
  unfolding all_filled
  all_filled-Both [] [] h = tt
  all_filled-Both [] (o ∷ os) h = absurd h
  all_filled-Both (b ∷ bs) [] h = absurd h
  all_filled-Both (b ∷ bs) (none ∷ os) h = tt
  all_filled-Both (b ∷ bs) (some x ∷ os) (q, h) = goes (all_filled os) (all_filled-Both bs os h)
    where
      goes : (r : Result (List X)) → OnOk (Both R bs) r → OnOk (Both R (b ∷ bs)) (filled_slot x r)
      goes (ok xs) k = (q, k)
      goes (err e) k = tt
      goes (panic e) k = tt
      goes (fatal e) k = tt

  -- The write of a worker that has been given a place and a `b`.
  abbrev pub WritesAt : ℕ × B → Write X → Type 0
  WritesAt (i, b) (j, x) = (j ≡ i) × R b x

  -- the same with the places counted from `s`
  abbrev BelongsFrom : ℕ → List B → Write X → Type 0
  BelongsFrom s bs (i, x) = (j : ℕ) × (i ≡ s + j) × Belongs bs j x

  enumerate-Belongs :
      (s : ℕ) (bs : List B) (ws : List (Write X))
      → Both WritesAt (enumerate s bs) ws
      → All (BelongsFrom s bs) ws
  enumerate-Belongs s [] [] h = tt
  enumerate-Belongs s [] (w ∷ ws) h = absurd h
  enumerate-Belongs s (b ∷ bs) [] h = absurd h
  enumerate-Belongs s (b ∷ bs) ((j, x) ∷ ws) ((e, q), h) =
      ((0, omega arith, q), later ws (enumerate-Belongs (suc s) bs ws h))
    where
      later :
          (ws : List (Write X)) → All (BelongsFrom (suc s) bs) ws → All (BelongsFrom s (b ∷ bs)) ws
      later [] k = tt
      later (w ∷ ws) ((j, e, q), k) = ((suc j, omega arith, q), later ws k)

  from_zero :
      (bs : List B) (ws : List (Write X))
      → All (BelongsFrom 0 bs) ws
      → All (λ (i, x). Belongs bs i x) ws
  from_zero bs [] h = tt
  from_zero bs ((i, x) ∷ ws) ((j, e, q), h) =
      let same : j ≡ i = omega arith in
      (subst (λ (k : ℕ). Belongs bs k x) same q, from_zero bs ws h)

  -- Whatever the order of the writes, the slice holds, place by place, what belongs there.
  pub written-Both :
      (bs : List B) (ws order : List (Write X))
      → Both WritesAt (enumerate 0 bs) ws
      → Permᴰ ws order
      → OnOk (Both R bs) (all_filled (write_all order (empty_slots (length bs))))
  written-Both bs ws order h p =
      let belong = from_zero bs ws (enumerate-Belongs 0 bs ws h) in
      all_filled-Both bs _ (
        write_all-Fits bs order _ (All-reordered (λ (i, x). Belongs bs i x) p belong)
          (empty-Fits bs))
