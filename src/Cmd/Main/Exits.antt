-- ===== src/Cmd/Main/Exits.antt =====
-- What the exit status of the program tells.
use mathlib.Core.List.{append-nil}
use cbtools_autobench.Base.{◌≡◌, ℕ, String, Bool, List, ◌++◌, arith}
use cbtools_autobench.Result.{Result, ok, err, panic, fatal, exited, crashed}
use cbtools_autobench.Value.Blueprint.{AutobenchConfig}
use cbtools_autobench.Value.Formats.{Formats}
use cbtools_autobench.Effect.Process.{perform, Trace}
use cbtools_autobench.Effect.Plan.{commands, Meets, Obeys}
use cbtools_autobench.Effect.Runs.{Pooling, Ensures}
use cbtools_autobench.Effect.Session.{
  Script, run, and_then, Pools, Always, Always-mono, Always-and_then,
}
use cbtools_autobench.Effect.Session.Last.{Always-bind, Always-last}
use cbtools_autobench.Effect.Process
use cbtools_autobench.Effect.Yields.{OnOk, Yields, Yields-lift, Yields-rest, Yields-wrapped}
use cbtools_autobench.Effect.Session.Values.{Returns-run, Returns-in_context}
use cbtools_autobench.Effect.Session.Within.{
  Within, WhenWithin, Within-here, WhenWithin-failures, WhenWithin-IsLate, Always-finally,
  Always-returned,
}
use cbtools_autobench.Nodes.Library.{Library}
use cbtools_autobench.Nodes.Cluster.{Cluster}
use cbtools_autobench.Nodes.Cluster.Connected.{IsClusterOf, new_cluster-IsClusterOf}
use cbtools_autobench.Nodes.BackupClient.{BackupClient}
use cbtools_autobench.Report.Text.{Report}
use cbtools_autobench.Cmd.Config.{Files, read_config}
use cbtools_autobench.Cmd.Benchmark
use cbtools_autobench.Cmd.Provision
use cbtools_autobench.Cmd.Provision.{provision}
use cbtools_autobench.Cmd.Provision.Plans.{whole_plan, provision_connected-Carries}
use cbtools_autobench.Cmd.Benchmark.{benchmark}
use cbtools_autobench.Cmd.Benchmark.Results.{
  IsBenchmark, Benchmarked, WhenBenchmarked, benchmark_connected-Benchmarked,
}
use cbtools_autobench.Cmd.Commands.{Root, provisioning, benchmarking, root_command, Documented}
use cbtools_autobench.Cmd.Commands.Valid.{valid-IsBenchmark}
use cbtools_autobench.Cmd.Main.{Outside, exit_status, execute, main}

-- If the status is 0, it has happened.
abbrev pub OnZero : (Trace → Type 0) → Trace → ℕ → Type 0
OnZero Happens tr code = code ≡ 0 → Within Happens tr

module _ {Below : Pooling ⊥} (P : Pools Below) (outside : Outside) where
  Always-exit_status :
      (Happens : Trace → Type 0) (s : Script (Unit {0}))
      → Always P s (WhenWithin Happens)
      → Always P (and_then s (exit_status outside)) (OnZero Happens)
  unfolding exit_status Always perform Ensures
  Always-exit_status Happens s h = Always-and_then P s _ _ (Always-mono P s _ _ goes h)
    where
      goes :
          (tr : Trace) (r : Result (Unit {0}))
          → WhenWithin Happens tr r
          → Always P (exit_status outside r) (λ tr' code. OnZero Happens (tr ++ tr') code)
      goes tr (ok a) w = λ e. rw append-nil w
      goes tr (err e) w = λ y zero. let no : ⊥ = omega arith in absurd no
      goes tr (panic e) w = λ zero. let no : ⊥ = omega arith in absurd no
      goes tr (fatal (exited e)) w = λ zero. let no : ⊥ = omega arith in absurd no
      goes tr (fatal (crashed e)) w = λ zero. let no : ⊥ = omega arith in absurd no

-- What is decoded from a configuration file.
abbrev pub Decoded : Files → AutobenchConfig → Type 0
Decoded files config = (text : String) × (files.decode_config text ≡ ok config)

module _ (format : Formats) (files : Files) where
  -- The benchmarks of a configuration file have run and their report has been printed.
  pub record HasReported (name : String) (json : Bool) (tr : Trace) : Type 0 where
    pub config : AutobenchConfig
    pub decoded : Decoded files config
    pub cluster : Cluster
    pub client : BackupClient
    pub report : Report
    pub benchmarked :
        Benchmarked format files config.blueprint config.benchmark_config json name client cluster
          tr report

module _ (files : Files) (received : List ℕ → List ℕ) where
  -- A cluster with the nodes of the blueprint of a configuration file, and a client, have been
  -- provisioned and loaded.
  pub record HasProvisioned (load_only : Bool) (tr : Trace) : Type 0 where
    pub config : AutobenchConfig
    pub decoded : Decoded files config
    pub cluster : Cluster
    pub client : BackupClient
    pub connected : IsClusterOf config.blueprint.cluster cluster
    pub carried_out : Meets (whole_plan received load_only cluster client) (commands tr)

module _ {W : Type 0} (Pooled : Pooling W) where
  read_config-Decoded :
      (files : Files) (path : String) → Yields Pooled (Decoded files) (read_config files path)
  unfolding read_config
  read_config-Decoded files path =
      Yields-rest Pooled _ _ _
        (λ text. Yields-wrapped Pooled _ _ _ (Yields-lift Pooled _ _ (λ config e. (text, e))))

module _ (format : Formats) (files : Files) (library : Library) (received : List ℕ → List ℕ) where
  module _ {Below : Pooling ⊥} (P : Pools Below) where
    config-Decoded :
        (path : String)
        → Always P
            (run (Process.wrapped "failed to read autobench config" (read_config files path)))
            (λ tr r. OnOk (Decoded files) r)
    config-Decoded path =
        (Returns-run P _ _ (
          Yields-wrapped P.tasks.pooled _ _ _ (read_config-Decoded P.tasks.pooled files path))).runs

    reported :
        (config : AutobenchConfig) (name : String) (json : Bool) (c : Cluster) (b : BackupClient)
        → Decoded files config
        → (tr : Trace) (r : Result Report)
        → WhenBenchmarked format files config.blueprint config.benchmark_config json name b c tr r
        → WhenWithin (HasReported format files name json) tr r
    reported config name json c b decoded tr (ok report) h = Within-here _ tr (record {
      config = config;
      decoded = decoded;
      cluster = c;
      client = b;
      report = report;
      benchmarked = h;
    })
    reported config name json c b decoded tr (err e) h = tt
    reported config name json c b decoded tr (panic e) h = tt
    reported config name json c b decoded tr (fatal e) h = tt

    benchmark-Within :
        (path name logs_path : String) (json : Bool)
        → IsBenchmark name
        → Always P
            (benchmark format files library path name logs_path json)
            (WhenWithin (HasReported format files name json))
    unfolding benchmark Benchmark.with_cluster Benchmark.with_client
    benchmark-Within path name logs_path json is_benchmark =
        let late = WhenWithin-IsLate (HasReported format files name json) in
        Always-bind P _ _ _ _ (WhenWithin-failures _) (config-Decoded path) (λ front config decoded.
          Always-mono P _ _ _ (late.before front) (
            Always-last P _ late _ _ (λ cluster. Always-finally _ P _ _ (
              Always-last P _ late _ _ (λ client. Always-finally _ P _ _ (
                Always-bind P _ _ _ _ (WhenWithin-failures _)
                  (Always-mono P _ _ _ (reported config name json cluster client decoded) (
                    benchmark_connected-Benchmarked format files config.blueprint
                      config.benchmark_config json P library name logs_path cluster client
                      is_benchmark))
                  (λ tr report w. Always-returned _ P tr tt w)))))))

    provisioned :
        (config : AutobenchConfig) (c : Cluster) (b : BackupClient) (load_only : Bool)
        → Decoded files config
        → IsClusterOf config.blueprint.cluster c
        → (tr : Trace) (r : Result (Unit {0}))
        → Obeys (whole_plan received load_only c b) (commands tr) r
        → WhenWithin (HasProvisioned files received load_only) tr r
    provisioned config c b load_only decoded connected tr (ok a) h = Within-here _ tr (record {
      config = config;
      decoded = decoded;
      cluster = c;
      client = b;
      connected = connected;
      carried_out = h;
    })
    provisioned config c b load_only decoded connected tr (err e) h = tt
    provisioned config c b load_only decoded connected tr (panic e) h = tt
    provisioned config c b load_only decoded connected tr (fatal e) h = tt

    provision-Within :
        (path : String) (load_only : Bool)
        → Always P
            (provision library received files path load_only)
            (WhenWithin (HasProvisioned files received load_only))
    unfolding provision Provision.with_cluster Provision.with_client
    provision-Within path load_only =
        let late = WhenWithin-IsLate (HasProvisioned files received load_only) in
        Always-bind P _ _ _ _ (WhenWithin-failures _) (config-Decoded path) (λ front config decoded.
          Always-mono P _ _ _ (late.before front) (
            Always-bind P _ _ _ _ (WhenWithin-failures _)
              (Returns-in_context P _ "failed to connect to cluster" _
                (new_cluster-IsClusterOf P config.ssh_config config.blueprint.cluster)).runs
              (λ tr cluster connected. Always-mono P _ _ _ (late.before tr) (
                Always-finally _ P _ _ (
                  Always-last P _ late _ _ (λ client. Always-finally _ P _ _ (
                    Always-mono P _ _ _
                      (provisioned config cluster client load_only decoded connected)
                      (provision_connected-Carries P library received load_only cluster
                        client).runs)))))))

    -- If cobra behaves as documented and the program exits with status 0 from `benchmark`, whatever its
    -- argument, then it is a `backup` or `restore` benchmark, and on that run the rounds of this benchmark
    -- with a decoded configuration have been carried out one after the other, at least one and at most
    -- `max 1 iterations`, each with a result whose duration is the time that it has taken, and then the
    -- report on these results has been printed.
    pub main-HasReported :
        (outside : Outside) (arguments : List String) (path name logs_path : String) (json : Bool)
        (root : Root)
        → Documented outside.cobra
        → root_command outside.cobra ≡ ok root
        → outside.cobra.parse root arguments ≡ ok (benchmarking path name logs_path json)
        → Always P
            (main outside format files library received arguments)
            (OnZero (HasReported format files name json))
    unfolding main execute
    main-HasReported outside arguments path name logs_path json root documented built parsed =
        let is_benchmark =
          valid-IsBenchmark outside.cobra documented root arguments path name logs_path json built
            parsed in
        Always-exit_status P outside _ _
          (rw (built, parsed) (benchmark-Within path name logs_path json is_benchmark))

    -- If the program exits with status 0 from `provision`, then on that run a cluster with exactly the
    -- nodes of the blueprint of a decoded configuration has been connected to, and the whole of `whole_plan`
    -- has been carried out on it and a backup client, without another command in between.
    pub main-HasProvisioned :
        (outside : Outside) (arguments : List String) (path : String) (load_only : Bool)
        (root : Root)
        → root_command outside.cobra ≡ ok root
        → outside.cobra.parse root arguments ≡ ok (provisioning path load_only)
        → Always P
            (main outside format files library received arguments)
            (OnZero (HasProvisioned files received load_only))
    unfolding main execute
    main-HasProvisioned outside arguments path load_only root built parsed =
        Always-exit_status P outside _ _ (rw (built, parsed) (provision-Within path load_only))
