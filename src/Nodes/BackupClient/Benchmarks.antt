-- ===== src/Nodes/BackupClient/Benchmarks.antt =====
-- One backup or restore benchmark of nodes/backup_client.go: its remote commands, and what is timed.
use mathlib.Core.List.{append-nil}
use cbtools_autobench.Base.{
  enumerate, ◌≡◌, refl, ℕ, ◌-◌, String, Bool, false, List, [], ◌∷◌, ◌++◌, map, Option, none, some,
}
use cbtools_autobench.Result.{Result, ok, err, panic, fatal}
use cbtools_autobench.Value.Command.{new_command}
use cbtools_autobench.Value.Blueprint.{BenchmarkConfig}
use cbtools_autobench.Value.Benchmark.{BenchmarkResult}
use cbtools_autobench.Value.Cbm.{command_backup, command_restore, command_info, command_remove}
use cbtools_autobench.Effect.Process.{clock, read, Trace, Exec, Task}
use cbtools_autobench.Effect.Runs.{Pooling, Runs, Ensures, Ensures-mono, Ensures-continue, Pool}
use cbtools_autobench.Effect.Plan.{
  commands, commands-append, Action, Plan, nothing, must, among, both, Meets, Begins, stopped,
  whole, first, second, Obeys, on_host, all_merged,
}
use cbtools_autobench.Effect.Follows.{
  Follows, Follows-bind, Follows-pure, Follows-silent, Follows-wrapped, Follows-print, Follows-lift,
  Follows-lift_bind,
}
use cbtools_autobench.Effect.Pools.{Follows-pool}
use cbtools_autobench.Ssh.Client.{Client, remote_line}
use cbtools_autobench.Ssh.Client.Plans.{execute_command-Follows}
use cbtools_autobench.Ssh.Client.Methods.{ignored-Follows, sync-Follows, flush_caches-Follows}
use cbtools_autobench.Nodes.Library.{Library}
use cbtools_autobench.Nodes.Cluster.{Cluster, connection_string, for_each_node}
use cbtools_autobench.Nodes.BackupClient.{
  BackupClient, with_duration, timed, date_range, restore_backup, remove_backups,
  run_pre_benchmark_tasks, flush_caches, run_cluster_pre_benchmark_tasks, create_backup,
  purge_backups, benchmark_backup, benchmark_restore,
}

-- The clock is read before and after the plan, and the difference is the duration.
pub record Timed (plan : Plan) (tr : Trace) (result : BenchmarkResult) : Type 0 where
  pub start : ℕ
  pub end : ℕ
  pub between : Trace
  pub whole_trace : tr ≡ read clock start ∷ (between ++ read clock end ∷ [])
  pub duration : result.duration ≡ end - start
  pub carried_out : Meets plan (commands between)

abbrev pub WhenTimed : Plan → Trace → Result BenchmarkResult → Type 0
WhenTimed plan tr (ok result) = Timed plan tr result
WhenTimed plan tr (err e) = Begins plan (commands tr)
WhenTimed plan tr (panic s) = Begins plan (commands tr)
WhenTimed plan tr (fatal s) = Begins plan (commands tr)

timed_result :
    (plan : Plan) (s e : ℕ) (tr : Trace) (r : Result BenchmarkResult)
    → Obeys plan (commands tr) r
    → WhenTimed plan (read clock s ∷ (tr ++ read clock e ∷ [])) (with_duration s e r)
unfolding commands
timed_result plan s e tr (ok result) h = record {
  start = s;
  end = e;
  between = tr;
  whole_trace = refl;
  duration = refl;
  carried_out = h;
}
timed_result plan s e tr (err error) h = rw (commands-append, append-nil) h
timed_result plan s e tr (panic error) h = rw (commands-append, append-nil) h
timed_result plan s e tr (fatal error) h = rw (commands-append, append-nil) h

cache_plan : Client → Plan
cache_plan c =
    on_host c.host (remote_line (new_command "sync; echo 3 > /proc/sys/vm/drop_caches" []) ∷ [])

-- The caches of all nodes, side by side, then those of the backup client.
unfoldable pub setup_plan : BackupClient → Cluster → Plan → Plan
unfolding cache_plan
setup_plan b cluster rest =
    both
      (both (all_merged (map (λ (i, n). cache_plan n.client) (enumerate 0 cluster.nodes))) nothing)
      (both (cache_plan b.node.client) rest)

abbrev pub info_plan : BackupClient → BenchmarkConfig → Plan
info_plan b config = must b.node.client.host (remote_line (command_info config.cbm_config))

abbrev pub create_plan : BackupClient → BenchmarkConfig → Bool → Result String → Plan
create_plan b config ignore (ok host) =
    both (must b.node.client.host (remote_line (command_backup config.cbm_config host ignore))) (
      both (on_host b.node.client.host (remote_line (new_command "sync" []) ∷ []))
        (both (info_plan b config) nothing))
create_plan b config ignore (err e) = nothing
create_plan b config ignore (panic e) = nothing
create_plan b config ignore (fatal e) = nothing

-- The removal of some range of dates, unless there is no backup.
abbrev pub remove_plan : BackupClient → BenchmarkConfig → Plan
remove_plan b config =
    among b.node.client.host
      (λ (start, end). remote_line (command_remove config.cbm_config start end))

unfoldable pub backup_plan : BackupClient → BenchmarkConfig → Cluster → Plan
backup_plan b config cluster = setup_plan b cluster (
    both (create_plan b config false (connection_string cluster))
      (both (both (info_plan b config) (remove_plan b config)) nothing))

abbrev pub restore_command : BackupClient → BenchmarkConfig → Result String → Plan
restore_command b config (ok host) =
    on_host b.node.client.host (remote_line (command_restore config.cbm_config host) ∷ [])
restore_command b config (err e) = nothing
restore_command b config (panic e) = nothing
restore_command b config (fatal e) = nothing

unfoldable pub restore_plan : BackupClient → BenchmarkConfig → Cluster → Plan
restore_plan b config cluster =
    setup_plan b cluster (both (restore_command b config (connection_string cluster)) nothing)

one-among :
    (host : String) (line : String × String → String) (i : String × String) (xs : List Action)
    → Meets (on_host host (line i ∷ [])) xs
    → Meets (among host line) xs
unfolding on_host
one-among host line i xs (Meets.both Meets.must Meets.nothing) = Meets.chosen i

begun-among :
    (host : String) (line : String × String → String) (i : String × String) (xs : List Action)
    → Begins (on_host host (line i ∷ [])) xs
    → Begins (among host line) xs
unfolding on_host
begun-among host line i xs stopped = stopped
begun-among host line i xs (whole h) = whole (one-among host line i xs h)
begun-among host line i xs (first stopped) = stopped
begun-among host line i xs (first (whole Meets.must)) = whole (Meets.chosen i)
begun-among host line i xs (second Meets.must stopped) = whole (Meets.chosen i)
begun-among host line i xs (second Meets.must (whole Meets.nothing)) = whole (Meets.chosen i)

Obeys-among :
    {A : Type 0} (host : String) (line : String × String → String) (i : String × String)
    (xs : List Action) (r : Result A)
    → Obeys (on_host host (line i ∷ [])) xs r
    → Obeys (among host line) xs r
Obeys-among host line i xs (ok a) h = one-among host line i xs h
Obeys-among host line i xs (err e) h = begun-among host line i xs h
Obeys-among host line i xs (panic e) h = begun-among host line i xs h
Obeys-among host line i xs (fatal e) h = begun-among host line i xs h

module _ {W : Type 0} (Pooled : Pooling W) where
  timed-WhenTimed :
      (plan : Plan) (m : Exec W BenchmarkResult)
      → Follows Pooled plan m
      → Ensures Pooled (timed m) (WhenTimed plan)
  unfolding timed Ensures
  timed-WhenTimed plan m h = λ s.
      Ensures-continue Pooled m _ _
        (Ensures-mono Pooled m _ _ (λ tr r o e. timed_result plan s e tr r o) h.runs)

  Follows-among :
      {A : Type 0} (host : String) (line : String × String → String) (i : String × String)
      (m : Exec W A)
      → Follows Pooled (on_host host (line i ∷ [])) m
      → Follows Pooled (among host line) m
  Follows-among host line i m h = record {
    runs = Ensures-mono Pooled m _ _ (λ tr r. Obeys-among host line i (commands tr) r) h.runs;
  }

  remove_backups-Follows :
      (b : BackupClient) (config : BenchmarkConfig) (range : Option (String × String))
      → Follows Pooled (remove_plan b config) (remove_backups b config range)
  unfolding remove_backups Ensures commands
  remove_backups-Follows b config none = record { runs = Meets.unchosen }
  remove_backups-Follows b config (some (start, end)) =
      Follows-among b.node.client.host _ (start, end) _
        (ignored-Follows Pooled b.node.client (command_remove config.cbm_config start end))

  pub create_backup-Follows :
      (library : Library) (b : BackupClient) (config : BenchmarkConfig) (cluster : Cluster)
      (ignore : Bool)
      → Follows Pooled
          (create_plan b config ignore (connection_string cluster))
          (create_backup library b config cluster ignore)
  unfolding create_backup
  create_backup-Follows library b config cluster ignore =
      Follows-lift_bind Pooled _ (connection_string cluster) _ (λ host e. rw e (
        Follows-print Pooled _ _ _ (
          Follows-print Pooled _ _ _ (
            Follows-bind Pooled _ _ _ _
              (Follows-wrapped Pooled _ _ _ (execute_command-Follows Pooled b.node.client _))
              (λ _.
                Follows-bind Pooled _ _ _ _
                  (Follows-wrapped Pooled _ _ _ (sync-Follows Pooled b.node.client))
                  (λ _.
                    Follows-bind Pooled _ _ _ _
                      (Follows-wrapped Pooled _ _ _
                        (execute_command-Follows Pooled b.node.client _))
                      (λ output.
                        Follows-silent Pooled _ _ _
                          (Follows-wrapped Pooled _ _ _ (Follows-lift Pooled _))
                          (λ backups. Follows-lift Pooled _))))))))

  purge_backups-Follows :
      (library : Library) (b : BackupClient) (config : BenchmarkConfig)
      → Follows Pooled
          (both (info_plan b config) (remove_plan b config))
          (purge_backups library b config)
  unfolding purge_backups
  purge_backups-Follows library b config =
      Follows-bind Pooled _ _ _ _
        (Follows-wrapped Pooled _ _ _ (execute_command-Follows Pooled b.node.client _))
        (λ output.
          Follows-silent Pooled _ _ _ (Follows-wrapped Pooled _ _ _ (Follows-lift Pooled _))
            (λ backups. remove_backups-Follows b config (date_range backups)))

module _ {Below : Pooling ⊥} (P : Pool (Task Unit) (Runs Below)) where
  caches-Follows :
      (cluster : Cluster)
      → Follows P.pooled
          (both
            (all_merged (map (λ (i, n). cache_plan n.client) (enumerate 0 cluster.nodes)))
            nothing)
          (run_cluster_pre_benchmark_tasks cluster)
  unfolding run_cluster_pre_benchmark_tasks flush_caches for_each_node cache_plan
  caches-Follows cluster =
      Follows-bind P.pooled _ _ _ _
        (Follows-wrapped P.pooled _ _ _
          (Follows-pool _ _ (λ x. flush_caches-Follows Below x.1.client) P _ _))
        (λ _. Follows-pure P.pooled tt)

  -- A backup benchmark that succeeds reads the clock, carries out the whole of `backup_plan`, and reads
  -- the clock again; its duration is the difference of the two readings. If it fails, its commands stop
  -- within that plan.
  pub benchmark_backup-WhenTimed :
      (library : Library) (b : BackupClient) (config : BenchmarkConfig) (cluster : Cluster)
      → Ensures P.pooled
          (benchmark_backup library b config cluster)
          (WhenTimed (backup_plan b config cluster))
  unfolding benchmark_backup backup_plan setup_plan cache_plan run_cluster_pre_benchmark_tasks
      run_pre_benchmark_tasks flush_caches for_each_node
  benchmark_backup-WhenTimed library b config cluster = timed-WhenTimed P.pooled _ _ (
      Follows-bind P.pooled _ _ _ _ (Follows-wrapped P.pooled _ _ _ (caches-Follows cluster)) (λ _.
        Follows-bind P.pooled _ _ _ _
          (Follows-wrapped P.pooled _ _ _ (flush_caches-Follows P.pooled b.node.client))
          (λ _.
            Follows-bind P.pooled _ _ _ _
              (Follows-wrapped P.pooled _ _ _
                (create_backup-Follows P.pooled library b config cluster false))
              (λ info.
                Follows-bind P.pooled _ _ _ _
                  (Follows-wrapped P.pooled _ _ _ (purge_backups-Follows P.pooled library b config))
                  (λ _. Follows-pure P.pooled _)))))

  -- A restore benchmark that succeeds reads the clock, carries out the whole of `restore_plan`, and
  -- reads the clock again; its duration is the difference of the two readings. If it fails, its
  -- commands stop within that plan.
  pub benchmark_restore-WhenTimed :
      (library : Library) (b : BackupClient) (config : BenchmarkConfig) (cluster : Cluster)
      (ads : ℕ)
      → Ensures P.pooled
          (benchmark_restore library b config cluster ads)
          (WhenTimed (restore_plan b config cluster))
  unfolding benchmark_restore restore_plan setup_plan cache_plan restore_backup
      run_cluster_pre_benchmark_tasks run_pre_benchmark_tasks flush_caches for_each_node
  benchmark_restore-WhenTimed library b config cluster ads = timed-WhenTimed P.pooled _ _ (
      Follows-bind P.pooled _ _ _ _ (Follows-wrapped P.pooled _ _ _ (caches-Follows cluster)) (λ _.
        Follows-bind P.pooled _ _ _ _
          (Follows-wrapped P.pooled _ _ _ (flush_caches-Follows P.pooled b.node.client))
          (λ _.
            Follows-bind P.pooled _ _ _ _
              (Follows-wrapped P.pooled _ _ _ (
                Follows-lift_bind P.pooled _ (connection_string cluster) _
                  (λ host e. rw e (ignored-Follows P.pooled b.node.client _))))
              (λ _. Follows-pure P.pooled _))))

  -- A backup benchmark that succeeds reads the clock, carries out the whole of `backup_plan`, and reads
  -- the clock again, and a restore benchmark that succeeds does the same with `restore_plan`; the
  -- duration of the result is the difference of the two readings. The plan of a backup leaves open which
  -- range of backups is removed. If one fails, its commands stop within its plan.
  pub benchmarks-WhenTimed :
      (library : Library) (b : BackupClient) (config : BenchmarkConfig) (cluster : Cluster)
      (ads : ℕ)
      → Ensures P.pooled
          (benchmark_backup library b config cluster)
          (WhenTimed (backup_plan b config cluster))
        × Ensures P.pooled
            (benchmark_restore library b config cluster ads)
            (WhenTimed (restore_plan b config cluster))
  benchmarks-WhenTimed library b config cluster ads = (
    benchmark_backup-WhenTimed library b config cluster,
    benchmark_restore-WhenTimed library b config cluster ads,
  )
