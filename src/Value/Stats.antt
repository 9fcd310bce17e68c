-- ===== src/Value/Stats.antt =====
-- value/stats.go: bucket statistics and the residency ratio of the report.
pub mod Laws
use cbtools_autobench.Base.{ℕ, ◌-◌, ◌*◌, ◌/◌, ◌%◌, ◌^◌, ltb, eqb, if◌then◌else◌}

pub record Stats : Type 0 where
  pub item_count : ℕ
  pub disk_used : ℕ
  pub mem_used : ℕ
  pub vb_active_num_non_resident : ℕ

-- The product is a `uint64`.
unfoldable pub residency_ratio : ℕ → ℕ → ℕ
residency_ratio items non_resident =
    if eqb items 0
    then 100
    else if ltb items non_resident
    then 0
    else ((items - non_resident) * 100) % 2 ^ 64 / items
