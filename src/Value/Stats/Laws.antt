-- ===== src/Value/Stats/Laws.antt =====
-- The residency ratio is a percentage.
use native.Mathlib.Nat.{mod-le, mod-eq_of_lt}
use cbtools_autobench.Base.{
  false, ◌≡◌, ℕ, ◌-◌, ◌*◌, ◌%◌, ◌^◌, ◌<◌, ◌≤◌, arith, ltb, eqb, IsQuotient, div-IsQuotient,
  div-le_of_le,
}
use cbtools_autobench.Value.Stats.{residency_ratio}

wrapped-le : (items n : ℕ) → ((items - n) * 100) % 2 ^ 64 ≤ 100 * items
wrapped-le items n = omega (arith, mod-le ((items - n) * 100) (2 ^ 64))

-- The ratio is at most 100, whatever the counts, also where the product wraps around; it is 100 for an
-- empty bucket.
pub residency_ratio-le-100 :
    (items non_resident : ℕ)
    → (residency_ratio items non_resident ≤ 100) × (residency_ratio 0 non_resident ≡ 100)
unfolding residency_ratio
residency_ratio-le-100 items n = (
  ground (arith, div-le_of_le (((items - n) * 100) % 2 ^ 64) items 100, wrapped-le items n),
  ground arith,
)

-- Below 2^64 / 100 items there is no wrap-around: with at least one item and not more non-resident
-- items than items, the ratio is the resident share rounded down to whole percents.
pub residency_ratio_exact :
    (items non_resident : ℕ)
    → items * 100 < 2 ^ 64
    → 0 < items
    → non_resident ≤ items
    → IsQuotient (residency_ratio items non_resident) ((items - non_resident) * 100) items
unfolding residency_ratio
residency_ratio_exact items n fits pos h =
    let e : ((items - n) * 100) % 2 ^ 64 ≡ (items - n) * 100 = mod-eq_of_lt (omega arith) in
    let t : eqb items 0 ≡ false = ground arith in
    let u : ltb items n ≡ false = ground arith in
    rw (t, u, e) (div-IsQuotient ((items - n) * 100) items pos)
