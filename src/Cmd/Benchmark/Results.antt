-- ===== src/Cmd/Benchmark/Results.antt =====
-- What the sub-command of cmd/benchmark.go prints.
use mathlib.Core.List.{append-nil, append_assoc}
use cbtools_autobench.Base.{
  ◌≡◌, ◌⊎◌, inl, inr, refl, max, length, String, Bool, List, [], ◌∷◌, ◌++◌, Option,
}
use cbtools_autobench.Result.{Result, ok, err, panic, fatal, Succeeds, wrapping}
use cbtools_autobench.Value.Blueprint.{Blueprint, BenchmarkConfig}
use cbtools_autobench.Value.Benchmark.{BenchmarkResults}
use cbtools_autobench.Value.Formats.{Formats}
use cbtools_autobench.Value.Stats.{Stats}
use cbtools_autobench.Effect.Process.{Reply, print, replied, perform, Trace}
use cbtools_autobench.Effect.Runs.{Pooling, Ensures, Ensures-both, Ensures-mono}
use cbtools_autobench.Effect.Yields.{OnOk}
use cbtools_autobench.Effect.Last.{IsLate}
use cbtools_autobench.Effect.Session.{
  ◌>>=◌, ◌>>◌, run, returning, in_context, Pools, Always, Always-mono,
}
use cbtools_autobench.Effect.Session.Last.{
  Always-bind, Always-last, Always-returning, Always-returning_in_context,
}
use cbtools_autobench.Nodes.Library.{Library}
use cbtools_autobench.Nodes.Cluster.{Cluster}
use cbtools_autobench.Nodes.BackupClient.{BackupClient}
use cbtools_autobench.Nodes.BackupClient.Iterations.{
  Counted, WhenOk, Uninterrupted, Uninterrupted-front, run_backups-Counted, run_restores-Counted,
}
use cbtools_autobench.Nodes.BackupClient.Benchmarks.{Timed, backup_plan, restore_plan}
use cbtools_autobench.Nodes.BackupClient.Made.{
  Made, Restored, WhenMade, flush_plan, run_backups-Made, run_restores-Made,
}
use cbtools_autobench.Report.Print.{printed}
use cbtools_autobench.Report.Text.{Report, Options, new_report}
use cbtools_autobench.Cmd.Config.{Files}
use cbtools_autobench.Cmd.Benchmark.{run_benchmark, report_on, benchmark_connected}

-- The arguments that cobra lets through.
pub data IsBenchmark : String → Type 0 where
  backup : IsBenchmark "backup"
  restore : IsBenchmark "restore"

-- The options of a report on the given results.
abbrev pub options :
    Blueprint → BenchmarkConfig → BenchmarkResults → Option Stats → List String → String → Options
options blueprint config results stats cluster_logs backup_logs = record {
  blueprint = blueprint;
  stats = stats;
  cbm_config = config.cbm_config;
  results = results;
  cluster_logs = cluster_logs;
  backup_logs = backup_logs;
}

-- The results of a `backup` benchmark are those of its rounds, and so are those of a `restore`
-- benchmark.
abbrev pub MadeBy :
    String → BackupClient → BenchmarkConfig → Cluster → Trace → BenchmarkResults → Type 0
MadeBy name b config c tr results =
    ((name ≡ "backup") × Made (Timed (backup_plan b config c)) tr results)
    ⊎ ((name ≡ "restore")
        × Made (Restored (flush_plan config c) (restore_plan b config c)) tr results)

-- The results are those of rounds that have been carried out, as many as the iterations allow.
pub record HasRun (name : String) (b : BackupClient) (config : BenchmarkConfig) (c : Cluster)
    (tr : Trace) (results : BenchmarkResults) : Type 0 where
  pub counted : Counted 1 (max 1 config.iterations) tr results
  pub made : MadeBy name b config c tr results

module _ (b : BackupClient) (config : BenchmarkConfig) (c : Cluster) where
  abbrev WhenRun : String → Trace → Result BenchmarkResults → Type 0
  WhenRun name tr r = OnOk (HasRun name b config c tr) r

  kept_backups :
      (context : String) (tr : Trace) (r : Result BenchmarkResults)
      → WhenOk 1 (max 1 config.iterations) tr r × WhenMade (Timed (backup_plan b config c)) tr r
      → WhenRun "backup" (tr ++ []) (wrapping context r)
  kept_backups context tr (ok results) (h, k) =
      rw append-nil (record { counted = h; made = inl (refl, k) })
  kept_backups context tr (err e) h = tt
  kept_backups context tr (panic s) h = tt
  kept_backups context tr (fatal s) h = tt

  kept_restores :
      (context : String) (tr : Trace) (r : Result BenchmarkResults)
      → WhenOk 1 (max 1 config.iterations) tr r
        × WhenMade (Restored (flush_plan config c) (restore_plan b config c)) tr r
      → WhenRun "restore" (tr ++ []) (wrapping context r)
  kept_restores context tr (ok results) (h, k) =
      rw append-nil (record { counted = h; made = inr (refl, k) })
  kept_restores context tr (err e) h = tt
  kept_restores context tr (panic s) h = tt
  kept_restores context tr (fatal s) h = tt

module _ (format : Formats) (files : Files) (blueprint : Blueprint) (config : BenchmarkConfig)
    (json : Bool) where
  -- The report is that of the results, and its text is the last thing that has been written.
  pub record Reported (results : BenchmarkResults) (tr : Trace) (report : Report) : Type 0 where
    pub stats : Option Stats
    pub cluster_logs : List String
    pub backup_logs : String
    pub made :
        new_report format (options blueprint config results stats cluster_logs backup_logs)
        ≡ ok report
    pub text : String
    pub form : printed format files.marshal json report ≡ ok text
    pub front : Trace
    pub reply : Reply
    pub written : tr ≡ front ++ replied (print text) reply ∷ []

  abbrev WhenReported : BenchmarkResults → Trace → Result Report → Type 0
  WhenReported results tr (ok report) = Reported results tr report
  WhenReported results tr (err e) = Unit
  WhenReported results tr (panic s) = Unit
  WhenReported results tr (fatal s) = Unit

  WhenReported-IsLate : (results : BenchmarkResults) → IsLate (WhenReported results)
  WhenReported-IsLate results = record { failures = failures; before = before }
    where
      failures : (tr : Trace) (r : Result Report) → ¬ Succeeds r → WhenReported results tr r
      failures tr (ok report) h = absurd (h tt)
      failures tr (err e) h = tt
      failures tr (panic e) h = tt
      failures tr (fatal e) h = tt

      before :
          (front tr : Trace) (r : Result Report)
          → WhenReported results tr r
          → WhenReported results (front ++ tr) r
      before front tr (ok report) h = record {
        stats = h.stats;
        cluster_logs = h.cluster_logs;
        backup_logs = h.backup_logs;
        made = h.made;
        text = h.text;
        form = h.form;
        front = front ++ h.front;
        reply = h.reply;
        written = rw (h.written, append_assoc) refl;
      }
      before front tr (err e) h = tt
      before front tr (panic e) h = tt
      before front tr (fatal e) h = tt

  -- A run that returns nil has carried out its rounds, and has printed a report of their results.
  pub record Benchmarked (name : String) (b : BackupClient) (c : Cluster) (tr : Trace)
      (report : Report) : Type 0 where
    pub results : BenchmarkResults
    pub before : Trace
    pub after : Trace
    pub whole_trace : tr ≡ before ++ after
    pub run : HasRun name b config c before results
    pub complete : Uninterrupted tr → length results ≡ max 1 config.iterations
    pub reported : Reported results tr report

  module _ (name : String) (b : BackupClient) (c : Cluster) where
    abbrev pub WhenBenchmarked : Trace → Result Report → Type 0
    WhenBenchmarked tr r = OnOk (Benchmarked name b c tr) r

    WhenBenchmarked-failures :
        (tr : Trace) (r : Result Report) → ¬ Succeeds r → WhenBenchmarked tr r
    WhenBenchmarked-failures tr (ok report) h = absurd (h tt)
    WhenBenchmarked-failures tr (err e) h = tt
    WhenBenchmarked-failures tr (panic s) h = tt
    WhenBenchmarked-failures tr (fatal s) h = tt

    -- The run of the benchmarks and what comes behind it.
    benchmarked :
        (results : BenchmarkResults) (tr : Trace)
        → HasRun name b config c tr results
        → (tr' : Trace) (r : Result Report) → WhenReported results tr' r
        → WhenBenchmarked (tr ++ tr') r
    benchmarked results tr run tr' (ok report) h = record {
      results = results;
      before = tr;
      after = tr';
      whole_trace = refl;
      run = run;
      complete = λ u. run.counted.complete (Uninterrupted-front tr tr' u);
      reported = (WhenReported-IsLate results).before tr tr' (ok report) h;
    }
    benchmarked results tr run tr' (err e) h = tt
    benchmarked results tr run tr' (panic s) h = tt
    benchmarked results tr run tr' (fatal s) h = tt

  module _ {Below : Pooling ⊥} (P : Pools Below) (library : Library) where
    run_benchmark-WhenRun :
        (name : String)
        → IsBenchmark name
        → (b : BackupClient) (c : Cluster)
        → Always P
            (in_context "failed to run benchmark(s)"
              (run_benchmark format files library name b config c))
            (WhenRun b config c name)
    unfolding run_benchmark in_context Always
    run_benchmark-WhenRun name backup b c =
        Ensures-mono P.tasks.pooled _ _ _ (kept_backups b config c "failed to run benchmark(s)") (
          Ensures-both P.tasks.pooled _ _ _ (run_backups-Counted P.tasks.pooled library b config c)
            (run_backups-Made P.tasks library b config c))
    run_benchmark-WhenRun name restore b c =
        Ensures-mono P.tasks.pooled _ _ _ (kept_restores b config c "failed to run benchmark(s)") (
          Ensures-both P.tasks.pooled _ _ _ (run_restores-Counted P.tasks.pooled library b config c)
            (run_restores-Made P.tasks library b config c))

    -- the last step
    print-WhenReported :
        (results : BenchmarkResults) (stats : Option Stats) (cluster_logs : List String)
        (backup_logs text : String) (report : Report)
        → new_report format (options blueprint config results stats cluster_logs backup_logs)
          ≡ ok report
        → printed format files.marshal json report ≡ ok text
        → Always P (run (perform (print text)) >> returning (ok report)) (WhenReported results)
    unfolding ◌>>=◌ Always perform Ensures
    print-WhenReported results stats cluster_logs backup_logs text report made form = λ y. record {
      stats = stats;
      cluster_logs = cluster_logs;
      backup_logs = backup_logs;
      made = made;
      text = text;
      form = form;
      front = [];
      reply = y;
      written = refl;
    }

    report_on-WhenReported :
        (logs_path : String) (c : Cluster) (b : BackupClient) (results : BenchmarkResults)
        → Always P
            (report_on format files library blueprint config logs_path json c b results)
            (WhenReported results)
    unfolding report_on
    report_on-WhenReported logs_path c b results =
        let late = WhenReported-IsLate results in
        Always-last P _ late _ _ (λ stats. Always-last P _ late _ _ (λ (cluster_logs, backup_logs).
          Always-returning P _ late _ _ (λ report made.
            Always-returning_in_context P _ late _ _ _ (λ text form.
              print-WhenReported results stats cluster_logs backup_logs text report made form))))

    -- A `backup` or `restore` benchmark that returns nil has carried out one round for each of its
    -- results, one after the other: `backup_plan`, or the flush of the bucket unless the restored data is
    -- thrown away and then `restore_plan`, between two readings of the clock whose difference is the
    -- duration of that result. The results are at least one and at most `max 1 iterations`, and exactly
    -- that many if the context is never seen cancelled. Behind the rounds, as the last thing it does, it
    -- has printed the text of the report of these results.
    pub benchmark_connected-Benchmarked :
        (name : String) (logs_path : String) (c : Cluster) (b : BackupClient)
        → IsBenchmark name
        → Always P
            (benchmark_connected format files library name blueprint config logs_path json c b)
            (WhenBenchmarked name b c)
    unfolding benchmark_connected
    benchmark_connected-Benchmarked name logs_path c b is_benchmark =
        Always-bind P _ _ _ _ (WhenBenchmarked-failures name b c)
          (run_benchmark-WhenRun name is_benchmark b c)
          (λ tr results run.
            Always-mono P _ _ _ (benchmarked name b c results tr run)
              (report_on-WhenReported logs_path c b results))
