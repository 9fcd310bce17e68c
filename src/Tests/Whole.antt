-- ===== src/Tests/Whole.antt =====
-- The theorems on connections, sub-commands and reports at concrete data.
use cbtools_autobench.Base.{◌≡◌, refl, ◌<>◌, true, false, []}
use cbtools_autobench.Result.{ok, message}
use cbtools_autobench.Tests.{bucket, two_nodes, client, remote_archive, two_iterations, library}
use text.Mathlib.TextLemmas.{cons-ne-nil}
use cbtools_autobench.Base.{none, ◌⊎◌, inl, inr}
use cbtools_autobench.Nodes.Cluster.{Cluster}
use cbtools_autobench.Effect.Session.{Always}
use cbtools_autobench.Effect.Session.Any.{any_pools}
use cbtools_autobench.Effect.Session.Values.{Returns}
use cbtools_autobench.Value.Blueprint.{Blueprint, AutobenchConfig}
use cbtools_autobench.Value.Build.{is_digit, build_then, extract_build}
use cbtools_autobench.Value.Build.Laws.{IsFirst, HasNone, extract_build-IsFirst}
use cbtools_autobench.Value.Build.RoundTrip.{extract_build-build_then}
use cbtools_autobench.Nodes.Cluster.Connect.{new_cluster}
use cbtools_autobench.Nodes.Cluster.Connected.{IsClusterOf, new_cluster-IsClusterOf}
use cbtools_autobench.Report.Text.{Report}
use cbtools_autobench.Report.Secrets.{Discreet, printed-Discreet}
use cbtools_autobench.Base.{max}
use cbtools_autobench.Result.{Error, wrap}
use cbtools_autobench.Effect.Runs.{Ensures}
use cbtools_autobench.Effect.Simulate.{any_pool}
use cbtools_autobench.Nodes.BackupClient.{run_backups, run_restores}
use cbtools_autobench.Nodes.BackupClient.Benchmarks.{backup_plan}
use cbtools_autobench.Nodes.BackupClient.Rounds.{Rounds}
use cbtools_autobench.Nodes.BackupClient.Whole.{
  fresh_plan, filled_plan, restore_round, run_backups-Rounds, run_restores-Rounds,
}
use cbtools_autobench.Tests.Cobra.{
  provisions, benchmarks, marked_root, provisions_root, benchmarks_root, backup_parsed,
  benchmarks-Documented,
}
use cbtools_autobench.Cmd.Main.{error_text, Outside, error_line, main}
use cbtools_autobench.Cmd.Main.Errors.{IsCause, error_line-IsCause}
use cbtools_autobench.Cmd.Main.Exits.{
  OnZero, HasProvisioned, HasReported, main-HasProvisioned, main-HasReported,
}
use cbtools_autobench.Cmd.Benchmark.{collect_logs}
use cbtools_autobench.Cmd.Benchmark.Destination.{Collected, collect_logs-Collected}
use cbtools_autobench.Cmd.Config.{Files}
use cbtools_autobench.Effect.Session.Blame.{BlamesAlways}
use cbtools_autobench.Cmd.Provision.Blame.{provision_connected-Blames}
use cbtools_autobench.Cmd.Provision
use cbtools_autobench.Cmd.Benchmark
use cbtools_autobench.Cmd.Provision.{provision_connected}
use cbtools_autobench.Cmd.Benchmark.{benchmark_connected}
use cbtools_autobench.Cmd.Benchmark.Results.{
  IsBenchmark, WhenBenchmarked, benchmark_connected-Benchmarked,
}
use cbtools_autobench.Tests.{plain_formats}

abbrev whole_blueprint : Blueprint
whole_blueprint = record { cluster = two_nodes.blueprint; backup_client = client.blueprint }

abbrev one_config : AutobenchConfig
one_config = record {
  ssh_config = record { username = "ec2-user"; private_key = "/key"; private_key_passphrase = "" };
  blueprint = whole_blueprint;
  benchmark_config = two_iterations;
}

-- A configuration file, and no other files.
abbrev one_file : Files
one_file = record {
  decode_config = λ s. ok one_config;
  is_not_exist = λ e. true;
  is_dir = λ s. false;
  marshal = λ j. ok "{}";
}

benchmark_connected-Benchmarked_example :
    Always any_pools
      (benchmark_connected plain_formats one_file library "backup" whole_blueprint two_iterations ""
        false two_nodes client)
      (WhenBenchmarked plain_formats one_file whole_blueprint two_iterations false "backup" client
        two_nodes)
benchmark_connected-Benchmarked_example =
    benchmark_connected-Benchmarked plain_formats one_file whole_blueprint two_iterations false
      any_pools library "backup" "" two_nodes client IsBenchmark.backup

new_cluster-IsClusterOf_example : Returns any_pools (IsClusterOf two_nodes.blueprint) (
    new_cluster
      (record { username = "ec2-user"; private_key = "/key"; private_key_passphrase = "" })
      two_nodes.blueprint)
new_cluster-IsClusterOf_example =
    new_cluster-IsClusterOf any_pools
      (record { username = "ec2-user"; private_key = "/key"; private_key_passphrase = "" })
      two_nodes.blueprint

extract_build-IsFirst_example :
    IsFirst (extract_build "server-7.0.0-4259.deb") "server-7.0.0-4259.deb"
    ⊎ ((extract_build "server-7.0.0-4259.deb" ≡ "unknown") × HasNone "server-7.0.0-4259.deb")
extract_build-IsFirst_example = extract_build-IsFirst "server-7.0.0-4259.deb"

extract_build-build_then_example :
    extract_build ("server-" <> build_then "7" "0" "0" "4259" ".deb")
    ≡ build_then "7" "0" "0" "4259" ""
unfolding is_digit
extract_build-build_then_example =
    extract_build-build_then "server-" "7" "0" "0" "4259" ".deb"
      (refl, (refl, (refl, (refl, (refl, (refl, (refl, tt)))))))
      (record { all_digits = (refl, tt); not_empty = cons-ne-nil "7" "" })
      (record { all_digits = (refl, tt); not_empty = cons-ne-nil "0" "" })
      (record { all_digits = (refl, tt); not_empty = cons-ne-nil "0" "" })
      (record {
        all_digits = (refl, (refl, (refl, (refl, tt))));
        not_empty = cons-ne-nil "4" "259";
      })
      refl

abbrev small_report : Report
small_report = record {
  cluster = two_nodes.blueprint;
  backup_client = client.blueprint;
  cbm = remote_archive;
  stats = none;
  overview = record {
    avg_duration = "1s";
    avg_ads = "2KiB";
    avg_gds = "2KiB";
    avg_transfer_rate_ads = "2KiB";
    avg_transfer_rate_gds = "2KiB";
  };
  rundown = [];
  logs = none;
}

printed-Discreet_example : Discreet plain_formats (λ j. ok "{}") small_report
printed-Discreet_example = printed-Discreet plain_formats (λ j. ok "{}") small_report

run_backups-Rounds_example :
    Ensures any_pool.pooled (run_backups library client two_iterations two_nodes) (
      Rounds
        (fresh_plan client two_iterations)
        (backup_plan client two_iterations two_nodes)
        (max 1 2))
run_backups-Rounds_example = run_backups-Rounds any_pool library client two_iterations two_nodes

run_restores-Rounds_example :
    Ensures any_pool.pooled (run_restores library client two_iterations two_nodes) (
      Rounds
        (filled_plan client two_iterations two_nodes)
        (restore_round client two_iterations two_nodes)
        (max 1 2))
run_restores-Rounds_example = run_restores-Rounds any_pool library client two_iterations two_nodes

-- A command line that asks for provisioning, and one that asks for a backup.
abbrev to_provision : Outside
to_provision = record { cobra = provisions; stacktrace = error_text; display = "" }

abbrev to_benchmark : Outside
to_benchmark = record { cobra = benchmarks "backup" false; stacktrace = error_text; display = "" }

main-HasProvisioned_example :
    Always any_pools
      (main to_provision plain_formats one_file library (λ items. items) [])
      (OnZero (HasProvisioned one_file (λ items. items) false))
main-HasProvisioned_example =
    main-HasProvisioned plain_formats one_file library (λ items. items) any_pools to_provision []
      "config.yaml" false marked_root provisions_root refl

main-HasReported_example :
    Always any_pools
      (main to_benchmark plain_formats one_file library (λ items. items) [])
      (OnZero (HasReported plain_formats one_file "backup" false))
main-HasReported_example =
    main-HasReported plain_formats one_file library (λ items. items) any_pools to_benchmark []
      "config.yaml" "backup" "" false marked_root (benchmarks-Documented "backup" false)
      (benchmarks_root "backup" false) backup_parsed

error_line-IsCause_example :
    (c : Error) × IsCause (wrap "failed to load test dataset" (message "timeout")) c
    × (error_line to_provision (wrap "failed to load test dataset" (message "timeout"))
        ≡ "Error: " <> (error_text c <> "\n"))
error_line-IsCause_example =
    error_line-IsCause to_provision (wrap "failed to load test dataset" (message "timeout")) refl

collect_logs-Collected_example :
    Ensures any_pool.pooled
      (collect_logs plain_formats one_file library two_nodes client two_iterations "/tmp/logs")
      (Collected one_file "/tmp/logs")
collect_logs-Collected_example =
    collect_logs-Collected plain_formats one_file library any_pool.pooled two_nodes client
      two_iterations "/tmp/logs"

-- The same cluster, whose bucket is not compacted.
abbrev uncompacted : Cluster
uncompacted = record two_nodes {
  blueprint = record two_nodes.blueprint { bucket = record bucket { compact = false } };
}

provision_connected-Blames_example :
    BlamesAlways any_pools (provision_connected library (λ items. items) false uncompacted client)
provision_connected-Blames_example =
    provision_connected-Blames any_pools library (λ items. items) false uncompacted client (λ e. cc)
      ((inl refl, inl refl), ((inr refl, inr (inr (λ e. cc))), tt)) refl refl (inl refl)
