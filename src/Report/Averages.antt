-- ===== src/Report/Averages.antt =====
-- The averages of an overview.
use native.Mathlib.Nat.{mod-eq_of_lt}
use cbtools_autobench.Base.{
  ◌≡◌, refl, ℕ, ◌+◌, ◌/◌, ◌%◌, ◌^◌, ◌<◌, [], ◌∷◌, length, ltb, true, IsQuotient, div-IsQuotient,
  arith,
}
use cbtools_autobench.Result.{Result, ok, err, panic, fatal, Succeeds}
use cbtools_autobench.Value.Blueprint.{DataBlueprint, BenchmarkConfig}
use cbtools_autobench.Value.Benchmark.{
  BenchmarkResult, BenchmarkResults, generated, avg_transfer_rate_ads, avg_transfer_rate_gds,
}
use cbtools_autobench.Effect.Process.{Trace, Task}
use cbtools_autobench.Effect.Runs.{Pooling, Ensures, Ensures-mono}
use cbtools_autobench.Nodes.Library.{Library}
use cbtools_autobench.Nodes.Cluster.{Cluster}
use cbtools_autobench.Nodes.BackupClient.{BackupClient, run_backups, run_restores}
use cbtools_autobench.Nodes.BackupClient.Iterations.{
  WhenOk, run_backups-Counted, run_restores-Counted,
}
use cbtools_autobench.Value.Formats.{Formats}
use cbtools_autobench.Report.Parts.{
  Totals, zeros, add_result, add_results, quotient_signed, divided, averages, new_overview,
}

-- The sum of a quantity over the results, without wrap-around.
unfoldable pub sum_of : (BenchmarkResult → ℕ) → BenchmarkResults → ℕ
sum_of q [] = 0
sum_of q (r ∷ rs) = q r + sum_of q rs

-- One sum of the loop, while it fits into 64 bits.
add_results-field :
    (d : DataBlueprint) (p : Totals → ℕ) (q : BenchmarkResult → ℕ)
    → ((t : Totals) (r : BenchmarkResult) → p (add_result d t r) ≡ (p t + q r) % 2 ^ 64)
    → (t : Totals) (rs : BenchmarkResults) → p t + sum_of q rs < 2 ^ 64
    → p (add_results d t rs) ≡ p t + sum_of q rs
unfolding add_results sum_of
add_results-field d p q step t [] h = omega arith
add_results-field d p q step t (r ∷ rs) h =
    let kept : (p t + q r) % 2 ^ 64 ≡ p t + q r = mod-eq_of_lt (omega arith) in
    let e = step t r in
    let ih = add_results-field d p q step (add_result d t r) rs (omega arith) in omega arith

-- The quantity is the mean over the results, rounded down, if their sum fits into the bits.
abbrev pub IsMean : ℕ → ℕ → (BenchmarkResult → ℕ) → BenchmarkResults → Type 0
IsMean bits a q rs = sum_of q rs < 2 ^ bits → IsQuotient a (sum_of q rs) (length rs)

pub record Means (d : DataBlueprint) (rs : BenchmarkResults) (t : Totals) : Type 0 where
  pub duration : IsMean 63 t.duration (λ r. r.duration) rs
  pub ads : IsMean 64 t.ads (λ r. r.ads) rs
  pub gds : IsMean 64 t.gds (λ r. generated d) rs
  pub rate_ads : IsMean 64 t.rate_ads avg_transfer_rate_ads rs
  pub rate_gds : IsMean 64 t.rate_gds (λ r. avg_transfer_rate_gds r d) rs

mean :
    (d : DataBlueprint) (p : Totals → ℕ) (q : BenchmarkResult → ℕ)
    → ((t : Totals) (r : BenchmarkResult) → p (add_result d t r) ≡ (p t + q r) % 2 ^ 64)
    → p zeros ≡ 0
    → (r : BenchmarkResult) (rs : BenchmarkResults)
    → IsMean 64 (p (add_results d zeros (r ∷ rs)) / length (r ∷ rs)) q (r ∷ rs)
mean d p q step start r rs fits =
    let e = add_results-field d p q step zeros (r ∷ rs) (omega arith) in
    let e' : p (add_results d zeros (r ∷ rs)) ≡ sum_of q (r ∷ rs) = omega arith in
    rw e' (div-IsQuotient (sum_of q (r ∷ rs)) (length (r ∷ rs)) (omega arith))

-- The sum of the durations is not negative as long as it is below 2^63.
IsMean-duration :
    (d : DataBlueprint) (r : BenchmarkResult) (rs : BenchmarkResults)
    → IsMean 63
        (quotient_signed (add_results d zeros (r ∷ rs)).duration (length (r ∷ rs)))
        (λ r. r.duration)
        (r ∷ rs)
unfolding quotient_signed
IsMean-duration d r rs fits =
    let e =
      add_results-field d (λ t. t.duration) (λ r. r.duration) (λ t r. refl) zeros (r ∷ rs)
        (omega arith) in
    let e' : (add_results d zeros (r ∷ rs)).duration ≡ sum_of (λ r. r.duration) (r ∷ rs) =
      omega arith in
    let small : ltb (sum_of (λ r. r.duration) (r ∷ rs)) (2 ^ 63) ≡ true = ground arith in
    rw (e', small)
      (div-IsQuotient (sum_of (λ r. r.duration) (r ∷ rs)) (length (r ∷ rs)) (omega arith))

-- With at least one result, each number of the overview is the mean of that quantity over the results,
-- rounded down, provided that the sum of the quantity is below 2^64, and that of the durations below
-- 2^63.
pub averages-Means :
    (d : DataBlueprint) (r : BenchmarkResult) (rs : BenchmarkResults)
    → (t : Totals) × (averages d (r ∷ rs) ≡ ok t) × Means d (r ∷ rs) t
unfolding averages
averages-Means d r rs = (
  divided (add_results d zeros (r ∷ rs)) (length (r ∷ rs)),
  refl,
  record {
    duration = IsMean-duration d r rs;
    ads = mean d (λ t. t.ads) _ (λ t r. refl) refl r rs;
    gds = mean d (λ t. t.gds) _ (λ t r. refl) refl r rs;
    rate_ads = mean d (λ t. t.rate_ads) _ (λ t r. refl) refl r rs;
    rate_gds = mean d (λ t. t.rate_gds) _ (λ t r. refl) refl r rs;
  },
)

-- If the results are there, an overview of them can be made.
abbrev pub HasOverview : Formats → DataBlueprint → Result BenchmarkResults → Type 0
HasOverview format d (ok results) = Succeeds (new_overview format d results)
HasOverview format d (err e) = Unit
HasOverview format d (panic s) = Unit
HasOverview format d (fatal s) = Unit

Counted-HasOverview :
    (format : Formats) (d : DataBlueprint) (most : ℕ) (tr : Trace) (r : Result BenchmarkResults)
    → WhenOk 1 most tr r
    → HasOverview format d r
unfolding new_overview averages
Counted-HasOverview format d most tr (ok []) h = let e = h.enough in omega arith
Counted-HasOverview format d most tr (ok (x ∷ xs)) h = tt
Counted-HasOverview format d most tr (err e) h = tt
Counted-HasOverview format d most tr (panic s) h = tt
Counted-HasOverview format d most tr (fatal s) h = tt

module _ (Pooled : Pooling (Task Unit)) where
  -- Whatever the remote machines answer, the averages of the results of a backup or of a restore
  -- benchmark that succeeds can be worked out: the overview does not divide by zero.
  pub benchmarks-HasOverview :
      (format : Formats) (library : Library) (b : BackupClient) (config : BenchmarkConfig)
      (cluster : Cluster)
      → Ensures Pooled
          (run_backups library b config cluster)
          (λ tr r. HasOverview format cluster.blueprint.bucket.dataset r)
        × Ensures Pooled
            (run_restores library b config cluster)
            (λ tr r. HasOverview format cluster.blueprint.bucket.dataset r)
  benchmarks-HasOverview format library b config cluster = (
    Ensures-mono Pooled _ _ _ (Counted-HasOverview format _ _)
        (run_backups-Counted Pooled library b config cluster),
    Ensures-mono Pooled _ _ _ (Counted-HasOverview format _ _)
        (run_restores-Counted Pooled library b config cluster),
  )
