-- ===== src/Report/Parts.antt =====
-- report/overview.go, report/rundown.go and report/logs.go: the parts of a report.
use cbtools_autobench.Base.{
  ℕ, ◌+◌, ◌-◌, ◌/◌, ◌%◌, ◌^◌, String, ◌==◌, ◌&&◌, List, [], ◌∷◌, map, length, eqb, ltb, Option,
  none, some, if◌then◌else◌,
}
use cbtools_autobench.Result.{Result, ok, panic}
use cbtools_autobench.Value.Format.{itoa}
use cbtools_autobench.Value.Formats.{Formats}
use cbtools_autobench.Value.Blueprint.{DataBlueprint}
use cbtools_autobench.Value.Benchmark.{
  BenchmarkResult, BenchmarkResults, generated, avg_transfer_rate_ads, avg_transfer_rate_gds,
}

-- The sums of the loop of NewOverview. That of the durations is an `int64`, kept as its word in two's
-- complement; the others are `uint64`.
pub record Totals : Type 0 where
  pub duration : ℕ
  pub ads : ℕ
  pub gds : ℕ
  pub rate_ads : ℕ
  pub rate_gds : ℕ

abbrev pub zeros : Totals
zeros = record { duration = 0; ads = 0; gds = 0; rate_ads = 0; rate_gds = 0 }

abbrev pub add_result : DataBlueprint → Totals → BenchmarkResult → Totals
add_result d t r = record {
  duration = (t.duration + r.duration) % 2 ^ 64;
  ads = (t.ads + r.ads) % 2 ^ 64;
  gds = (t.gds + generated d) % 2 ^ 64;
  rate_ads = (t.rate_ads + avg_transfer_rate_ads r) % 2 ^ 64;
  rate_gds = (t.rate_gds + avg_transfer_rate_gds r d) % 2 ^ 64;
}

unfoldable pub add_results : DataBlueprint → Totals → BenchmarkResults → Totals
add_results d t [] = t
add_results d t (r ∷ rs) = add_results d (add_result d t r) rs

-- The quotient of an `int64` by a count, rounded towards 0, as a word in two's complement.
unfoldable pub quotient_signed : ℕ → ℕ → ℕ
quotient_signed word n =
    if ltb word (2 ^ 63) then word / n else (2 ^ 64 - (2 ^ 64 - word) / n) % 2 ^ 64

-- The division of each sum by the number of results. The duration is an `int64`, whose word is kept.
abbrev pub divided : Totals → ℕ → Totals
divided t n = record {
  duration = quotient_signed t.duration n;
  ads = t.ads / n;
  gds = t.gds / n;
  rate_ads = t.rate_ads / n;
  rate_gds = t.rate_gds / n;
}

unfoldable pub averages : DataBlueprint → BenchmarkResults → Result Totals
averages d [] = panic "integer divide by zero"
averages d (r ∷ rs) = ok (divided (add_results d zeros (r ∷ rs)) (length (r ∷ rs)))

pub record Overview : Type 0 where
  pub avg_duration : String
  pub avg_ads : String
  pub avg_gds : String
  pub avg_transfer_rate_ads : String
  pub avg_transfer_rate_gds : String

pub record RundownResult : Type 0 where
  pub duration : String
  pub ain : String
  pub ads : String
  pub gds : String
  pub avg_transfer_rate_ads : String
  pub avg_transfer_rate_gds : String

pub record Logs : Type 0 where
  pub cluster : List String
  pub backup : String

-- NewLogs, where none is nil
unfoldable pub new_logs : List String → String → Option Logs
new_logs cluster_logs backup_logs =
    if eqb (length cluster_logs) 0 && backup_logs == ""
    then none
    else some (record { cluster = cluster_logs; backup = backup_logs })

module _ (format : Formats) where
  abbrev formatted : Result Totals → Result Overview
  formatted (ok t) = ok (record {
    avg_duration = format.duration t.duration;
    avg_ads = format.bytes t.ads;
    avg_gds = format.bytes t.gds;
    avg_transfer_rate_ads = format.bytes t.rate_ads;
    avg_transfer_rate_gds = format.bytes t.rate_gds;
  })
  formatted (Result.err e) = Result.err e
  formatted (panic s) = panic s
  formatted (Result.fatal s) = Result.fatal s

  -- NewOverview
  unfoldable pub new_overview : DataBlueprint → BenchmarkResults → Result Overview
  unfolding averages
  new_overview d results = formatted (averages d results)

  -- NewRundown
  unfoldable pub new_rundown : DataBlueprint → BenchmarkResults → List RundownResult
  new_rundown d results =
      map
        (λ r. record {
          duration = format.duration r.duration;
          ain = itoa r.ain;
          ads = format.bytes r.ads;
          gds = format.bytes (generated d);
          avg_transfer_rate_ads = format.bytes (avg_transfer_rate_ads r);
          avg_transfer_rate_gds = format.bytes (avg_transfer_rate_gds r d);
        })
        results
