-- ===== src/Value/Benchmark.antt =====
-- value/benchmark.go: the results of a benchmark and the rates worked out from them. A duration is a
-- number of nanoseconds and is taken not to be negative; sizes are `uint64`, and the product of two
-- `int`s is taken modulo 2^64 when it is converted.
pub mod Laws
use cbtools_autobench.Base.{ℕ, ◌*◌, ◌/◌, ◌%◌, ◌^◌, List, ltb, if◌then◌else◌}
use cbtools_autobench.Value.Blueprint.{DataBlueprint}

pub record BenchmarkResult : Type 0 where
  pub duration : ℕ
  pub ain : ℕ
  pub ads : ℕ

abbrev pub BenchmarkResults : Type 0
BenchmarkResults = List BenchmarkResult

-- time.Second
abbrev pub second : ℕ
second = 1_000_000_000

-- uint64(duration.Seconds()): whole seconds. `Seconds` is a float64, whose rounding is not modelled.
unfoldable pub seconds : ℕ → ℕ
seconds duration = duration / second

-- uint64(blueprint.Size * blueprint.Items)
unfoldable pub generated : DataBlueprint → ℕ
generated d = (d.size * d.items) % 2 ^ 64

unfoldable pub avg_transfer_rate_gds : BenchmarkResult → DataBlueprint → ℕ
unfolding generated seconds
avg_transfer_rate_gds b d =
    if ltb b.duration second then generated d else generated d / seconds b.duration

unfoldable pub avg_transfer_rate_ads : BenchmarkResult → ℕ
unfolding seconds
avg_transfer_rate_ads b = if ltb b.duration second then b.ads else b.ads / seconds b.duration
