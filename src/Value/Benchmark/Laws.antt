-- ===== src/Value/Benchmark/Laws.antt =====
-- Bounds of the transfer rates.
use cbtools_autobench.Base.{
  ◌≡◌, inl, inr, true, false, ℕ, ◌<◌, max, arith, ltb, Bool-cases, IsQuotient, div-IsQuotient,
}
use cbtools_autobench.Value.Blueprint.{DataBlueprint}
use cbtools_autobench.Value.Benchmark.{
  BenchmarkResult, second, seconds, avg_transfer_rate_ads, avg_transfer_rate_gds, generated,
}

-- What a rate is divided by: whole seconds, or one for a run of less than a second.
abbrev pub whole_seconds : ℕ → ℕ
whole_seconds duration = max 1 (seconds duration)

short-seconds : (d : ℕ) → ltb d second ≡ true → whole_seconds d ≡ 1
unfolding seconds
short-seconds d h = ground arith

long-seconds : (d : ℕ) → ltb d second ≡ false → (0 < seconds d) × (whole_seconds d ≡ seconds d)
unfolding seconds
long-seconds d h = ground arith

ads_bounds :
    (b : BenchmarkResult) → IsQuotient (avg_transfer_rate_ads b) b.ads (whole_seconds b.duration)
unfolding avg_transfer_rate_ads
ads_bounds b = elim (Bool-cases (ltb b.duration second)) [
  | inl short ↦ rw (short, short-seconds b.duration short) (omega arith)
  | inr long ↦
      rw (long, (long-seconds b.duration long).1)
        (div-IsQuotient b.ads (seconds b.duration) (long-seconds b.duration long).0)
]

gds_bounds :
    (b : BenchmarkResult) (d : DataBlueprint)
    → IsQuotient (avg_transfer_rate_gds b d) (generated d) (whole_seconds b.duration)
unfolding avg_transfer_rate_gds
gds_bounds b d = elim (Bool-cases (ltb b.duration second)) [
  | inl short ↦ rw (short, short-seconds b.duration short) (omega arith)
  | inr long ↦
      rw (long, (long-seconds b.duration long).1)
        (div-IsQuotient (generated d) (seconds b.duration) (long-seconds b.duration long).0)
]

-- Both rates are the quotient, rounded down, of the size by the whole seconds of the run, where a run
-- of less than a second counts as one second: nothing is ever divided by zero.
pub avg_transfer_rates_bounds :
    (b : BenchmarkResult) (d : DataBlueprint)
    → IsQuotient (avg_transfer_rate_ads b) b.ads (whole_seconds b.duration)
      × IsQuotient (avg_transfer_rate_gds b d) (generated d) (whole_seconds b.duration)
avg_transfer_rates_bounds b d = (ads_bounds b, gds_bounds b d)
