-- ===== src/Tests/Examples.antt =====
-- The theorems at concrete data.
use cbtools_autobench.Base.{
  enumerate, ◌≡◌, refl, ◌==◌, if◌then◌else◌, ◌≤◌, ◌*◌, ◌-◌, ℕ, String, Bool, true, false, List, [],
  ◌∷◌, All, length, arith, max, IsQuotient, split, eq_iff,
}
use cbtools_autobench.Result.{Result, ok, panic, err, message, Succeeds}
use cbtools_autobench.Value.Cbm.Laws.{Lines, commands-Lines}
use cbtools_autobench.Value.Benchmark.{
  BenchmarkResult, avg_transfer_rate_ads, avg_transfer_rate_gds, generated,
}
use cbtools_autobench.Value.Benchmark.Laws.{whole_seconds, avg_transfer_rates_bounds}
use cbtools_autobench.Value.Stats.{residency_ratio}
use cbtools_autobench.Value.Stats.Laws.{residency_ratio_exact}
use cbtools_autobench.Ssh.Utils.{trim_port}
use cbtools_autobench.Ssh.Utils.TrimPort.{trim_port_lem}
use cbtools_autobench.Effect.FollowsMaking.{FollowsMaking}
use cbtools_autobench.Effect.Yields.{Yields}
use cbtools_autobench.Ssh.Client.Connect.{IsConnected, new_client-IsConnected}
use cbtools_autobench.Ssh.Client.{new_client, remote_line}
use cbtools_autobench.Effect.Plan.{commands}
use cbtools_autobench.Effect.Process.{Task, curl, request, pure, Reply, replied, Trace}
use cbtools_autobench.Effect.Runs.{Ensures}
use cbtools_autobench.Effect.Follows.{Follows}
use cbtools_autobench.Effect.Requires.{Requires}
use cbtools_autobench.Effect.Simulate.{no_pool, any_pool}
use cbtools_autobench.Nodes.Node
use cbtools_autobench.Nodes.Node.{extract_last_volume_name}
use cbtools_autobench.Nodes.Node.Volumes.{disks, last_or, extract_last_volume_name_lem}
use cbtools_autobench.Nodes.Cluster.Setup
use cbtools_autobench.Nodes.Cluster.Setup.Plans.{cluster_plan, provision-cluster_plan}
use cbtools_autobench.Nodes.Cluster.Setup.ServerAdd.{CanJoin, provision-CanJoin}
use cbtools_autobench.Nodes.Cluster.Load.{
  chunks, eviction_command, load_data, modify_eviction_percentages,
}
use cbtools_autobench.Nodes.Cluster.Poll.{poll}
use cbtools_autobench.Nodes.Cluster.Poll.Runs.{Polled, poll-Polled}
use cbtools_autobench.Nodes.Cluster.Poll.Select.{
  Step, Steps, fires, blocks_for, start, waiting, returned, polls_on_time, poll_ends, poll_overruns,
}
use cbtools_autobench.Nodes.Cluster.Load.Chunks.{IsSplit, chunks-IsSplit}
use cbtools_autobench.Nodes.Cluster.Load.Eviction.{modify_eviction_percentages-FirstOnly}
use cbtools_autobench.Nodes.Cluster.Load.Plans.{load_plan, load_data-Follows}
use cbtools_autobench.Cmd.Signals.{Signals, initial, arrive, Handles, Reached, arrives}
use cbtools_autobench.Cmd.Signals.Safety.{IsClosed, Handled, signals_safe, interrupt_cancels}
use mathlib.Core.WellFounded.{Acc}
use mathlib.Core.List.{Perm}
use cbtools_autobench.Utilities.Logging.{info_level, warn_level, log_line}
use cbtools_autobench.Utilities.Handler
use cbtools_autobench.Utilities.Handler.{Goroutine, before, after, LoggingHandler}
use cbtools_autobench.Utilities.Handler.Order.{finished, joined, AllBefore, lines_whole}
use cbtools_autobench.Nodes.BackupClient.{
  benchmark_backup, benchmark_restore, run_backups, run_restores,
}
use cbtools_autobench.Nodes.BackupClient.Benchmarks.{
  WhenTimed, backup_plan, restore_plan, benchmarks-WhenTimed,
}
use cbtools_autobench.Nodes.BackupClient.Iterations.{WhenOk, runs-Counted}
use cbtools_autobench.Report.Parts.{Totals, averages}
use cbtools_autobench.Report.Averages.{Means, HasOverview, averages-Means, benchmarks-HasOverview}
use cbtools_autobench.Tests.{
  dataset, first, second, two_nodes, client, remote_archive, two_iterations, library,
}
use cbtools_autobench.Tests.{plain_formats}

provision-cluster_plan_example :
    Follows any_pool.pooled (cluster_plan two_nodes) (Setup.provision two_nodes)
provision-cluster_plan_example = provision-cluster_plan any_pool two_nodes

provision-CanJoin_example :
    Requires any_pool.pooled (Setup.provision two_nodes) (All CanJoin (enumerate 0 two_nodes.nodes))
provision-CanJoin_example = provision-CanJoin any_pool two_nodes

load_data-Follows_example :
    Follows any_pool.pooled
      (load_plan two_nodes (λ items. items) true)
      (load_data library (λ items. items) two_nodes true)
load_data-Follows_example = load_data-Follows any_pool library (λ items. items) two_nodes true

modify_eviction_percentages-FirstOnly_example :
    Ensures any_pool.pooled
      (modify_eviction_percentages
        (record { blueprint = two_nodes.blueprint; nodes = first ∷ second ∷ [] })
        30)
      (λ tr r.
        All (λ x. x ≡ ("a", remote_line (eviction_command 30))) (commands tr)
        × (Succeeds r → length (commands tr) ≡ 2))
modify_eviction_percentages-FirstOnly_example =
    modify_eviction_percentages-FirstOnly any_pool two_nodes.blueprint first (second ∷ []) 30

chunks-IsSplit_example : (cs : List ℕ) × (chunks 7 2 ≡ ok cs) × IsSplit 7 2 cs
chunks-IsSplit_example = chunks-IsSplit 7 2 (omega arith)

commands-Lines_example : Lines remote_archive
commands-Lines_example = commands-Lines remote_archive

extract_last_volume_name_lem_example :
    extract_last_volume_name "nvme0n1 8G disk\nnvme1n1 1T disk\n" ≡ (
      let name = last_or "" (disks (split b'\n' "nvme0n1 8G disk\nnvme1n1 1T disk\n")) in
      if name == "" then err (message "no disk volume found in lsblk output") else ok name)
extract_last_volume_name_lem_example =
    extract_last_volume_name_lem "nvme0n1 8G disk\nnvme1n1 1T disk\n"

trim_port_lem_example :
    (trim_port "10.0.0.1:22" ≡ ok "10.0.0.1")
    × (trim_port "10.0.0.1" ≡ panic "slice bounds out of range")
    × (trim_port ":22" ≡ ok ":22")
trim_port_lem_example =
    trim_port_lem "10.0.0.1" "22" (refl, (refl, (refl, (refl, (refl, (refl, (refl, (refl, tt))))))))
      (ground (arith, eq_iff "10.0.0.1" ""))

abbrev run_of_minutes : BenchmarkResult
run_of_minutes = record { duration = 90_000_000_000; ain = 7; ads = 2048 }

avg_transfer_rates_bounds_example :
    IsQuotient (avg_transfer_rate_ads run_of_minutes) 2048 (whole_seconds 90_000_000_000)
    × IsQuotient
        (avg_transfer_rate_gds run_of_minutes dataset)
        (generated dataset)
        (whole_seconds 90_000_000_000)
avg_transfer_rates_bounds_example = avg_transfer_rates_bounds run_of_minutes dataset

residency_ratio_exact_example : IsQuotient (residency_ratio 7 3) ((7 - 3) * 100) 7
residency_ratio_exact_example = residency_ratio_exact 7 3 (omega arith) (omega arith) (omega arith)

averages-Means_example :
    (t : Totals) × (averages dataset (run_of_minutes ∷ []) ≡ ok t)
    × Means dataset (run_of_minutes ∷ []) t
averages-Means_example = averages-Means dataset run_of_minutes []

benchmarks-HasOverview_example :
    Ensures any_pool.pooled
      (run_backups library client two_iterations two_nodes)
      (λ tr r. HasOverview plain_formats dataset r)
    × Ensures any_pool.pooled
        (run_restores library client two_iterations two_nodes)
        (λ tr r. HasOverview plain_formats dataset r)
benchmarks-HasOverview_example =
    benchmarks-HasOverview any_pool.pooled plain_formats library client two_iterations two_nodes

new_client-IsConnected_example : Yields no_pool (IsConnected "a") (
    new_client "a"
      (record { username = "ec2-user"; private_key = "/key"; private_key_passphrase = "" }))
new_client-IsConnected_example =
    new_client-IsConnected no_pool "a"
      (record { username = "ec2-user"; private_key = "/key"; private_key_passphrase = "" })

-- A machine that is ready as soon as it answers.
abbrev any_answer : Task Bool
any_answer = request (curl "a:8091/pools/default/tasks") (λ y. pure true)

-- One request.
abbrev OneRequest : Trace → Result Bool → Type 0
OneRequest tr r = (y : Reply) × (tr ≡ replied (curl "a:8091/pools/default/tasks") y ∷ [])

poll-Polled_example : Ensures no_pool (poll any_answer 300) (Polled OneRequest 300)
unfolding Ensures
poll-Polled_example = poll-Polled no_pool OneRequest any_answer 300 (λ y. (y, refl))

-- A poll of 20 seconds, with one call, of 2 seconds, at 15 seconds.
first_tick : Steps 20_000 2_000 start (waiting 15_000 true 0)
unfolding fires
first_tick =
    Steps.then (blocks_for 20_000 2_000 0 0 14_999 refl (omega arith) (Steps.here start))
      (Step.blocks 14_999 0 (omega arith))

one_call : Steps 20_000 2_000 start (returned 1)
unfolding fires
one_call =
    Steps.then
      (blocks_for 20_000 2_000 17_000 1 3_000 refl (omega arith)
        (Steps.then first_tick (Step.ticks 15_000 0 2_000 (omega arith))))
      (Step.times_out 20_000 1 false (omega arith))

polls_on_time_example : (1 * 15_000 ≤ 20_000) × (20_000 ≤ 2 * 15_000)
polls_on_time_example = polls_on_time 20_000 2_000 1 (omega arith) one_call

poll_ends_example : Acc (λ s' s. Step 300_000 2_000 s s') start
poll_ends_example = poll_ends 300_000 2_000 (omega arith)

poll_overruns_example : Steps 300_000 20_000 start (returned 100)
poll_overruns_example = poll_overruns 300_000 20_000 100 (omega arith) (omega arith) (omega arith)

runs-Counted_example :
    Ensures any_pool.pooled
      (run_backups library client two_iterations two_nodes)
      (WhenOk 1 (max 1 2))
    × Ensures any_pool.pooled
        (run_restores library client two_iterations two_nodes)
        (WhenOk 1 (max 1 2))
runs-Counted_example = runs-Counted any_pool.pooled library client two_iterations two_nodes

benchmarks-WhenTimed_example :
    Ensures any_pool.pooled
      (benchmark_backup library client two_iterations two_nodes)
      (WhenTimed (backup_plan client two_iterations two_nodes))
    × Ensures any_pool.pooled
        (benchmark_restore library client two_iterations two_nodes 2048)
        (WhenTimed (restore_plan client two_iterations two_nodes))
benchmarks-WhenTimed_example =
    benchmarks-WhenTimed any_pool library client two_iterations two_nodes 2048

-- After one SIGINT.
once : Reached (arrive initial)
once = arrives initial Reached.start refl

signals_safe_example :
    ((arrive initial).interrupted ≡ true → 1 ≤ (arrive initial).count)
    × ((arrive initial).killed ≡ true → 2 ≤ (arrive initial).count)
    × (IsClosed (arrive initial).handler → (arrive initial).notified ≡ false)
signals_safe_example = signals_safe (arrive initial) once

interrupt_cancels_example :
    Acc (λ s' s. Handles s s') (arrive initial)
    × ((t : Signals)
        → Handled (arrive initial) t
        → ((s' : Signals) → ¬ Handles t s')
        → t.interrupted ≡ true)
unfolding arrive
interrupt_cancels_example = interrupt_cancels (arrive initial) once refl (omega arith)

-- Two goroutines log, and the first one has written its line in two pieces.
abbrev loggers : List Goroutine
loggers = before info_level "a" "" ∷ before warn_level "b" "" ∷ []

abbrev one_logged : LoggingHandler
one_logged = record {
  mu = false;
  writer = "t INFO a\n";
  goroutines = after "t INFO a\n" ∷ before warn_level "b" "" ∷ [];
}

logs_one : Handler.Steps (record { mu = false; writer = ""; goroutines = loggers }) one_logged
unfolding log_line
logs_one =
    let others : List Goroutine = before warn_level "b" "" ∷ [] in
    Handler.Steps.then
      (Handler.Steps.then
        (Handler.Steps.then
          (Handler.Steps.then (Handler.Steps.here _)
            (Handler.Step.locks [] others info_level "t" "a" "" "t INFO a\n" "" refl))
          (Handler.Step.writes [] others "t INFO a\n" "t IN" "FO a\n" ""))
        (Handler.Step.writes [] others "t INFO a\n" "FO a\n" "" "t IN"))
      (Handler.Step.unlocks [] others "t INFO a\n" "t INFO a\n")

lines_whole_example :
    (order : List String) × Perm order (finished one_logged.goroutines)
    × (one_logged.writer ≡ joined order)
unfolding AllBefore
lines_whole_example = lines_whole loggers one_logged tt logs_one refl
