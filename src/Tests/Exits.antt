-- ===== src/Tests/Exits.antt =====
-- Runs of the whole program in which everything succeeds.
use cbtools_autobench.Base.{◌≡◌, refl, ℕ, String, ◌==◌, Bool, true, false, [], ◌∷◌, if◌then◌else◌}
use cbtools_autobench.Result.{ok}
use cbtools_autobench.Value.Blueprint.{AutobenchConfig}
use cbtools_autobench.Value.Command.{to_string}
use cbtools_autobench.Effect.Process.{Request, Reply, answer, combined_output, Trace}
use cbtools_autobench.Effect.Session.Simulate.{session_result, Always-session_result}
use cbtools_autobench.Effect.Session.{Session}
use cbtools_autobench.Effect.Session.Any.{any_pools}
use cbtools_autobench.Effect.Session.Within.{Within}
use cbtools_autobench.Cmd.Main.Exits.{
  OnZero, HasProvisioned, HasReported, main-HasProvisioned, main-HasReported,
}
use cbtools_autobench.Ssh.Utils.{distro_line, release_line}
use cbtools_autobench.Cmd.Config.{Files}
use cbtools_autobench.Cmd.Commands.{Cobra}
use cbtools_autobench.Tests.Cobra.{
  provisions, benchmarks, marked_root, provisions_root, benchmarks_root, restore_parsed,
  benchmarks-Documented,
}
use cbtools_autobench.Cmd.Main.{Outside, error_text, main}
use cbtools_autobench.Tests.{
  first, two_nodes, client, two_iterations, library, plain_formats, settle_calmly, measure_calmly,
}

-- Machines with Amazon Linux 2 on which each command succeeds.
abbrev amazon : Request → Reply
unfolding to_string
amazon (combined_output host line) =
    if line == to_string distro_line []
    then answer "amzn"
    else if line == to_string release_line []
    then answer "2"
    else answer ""
amazon r = answer ""

abbrev config : AutobenchConfig
config = record {
  ssh_config = record { username = "root"; private_key = "/key"; private_key_passphrase = "" };
  blueprint = record {
    cluster = record two_nodes.blueprint {
      nodes = first.blueprint ∷ record first.blueprint { host = "b" } ∷ [];
    };
    backup_client = client.blueprint;
  };
  benchmark_config = two_iterations;
}

abbrev files : Files
files = record {
  decode_config = λ s. ok config;
  is_not_exist = λ e. true;
  is_dir = λ s. true;
  marshal = λ j. ok "{}";
}

abbrev asks_for : Cobra → Outside
asks_for cobra = record { cobra = cobra; stacktrace = error_text; display = "" }

abbrev program : Cobra → Session ℕ
program cobra = main (asks_for cobra) plain_formats files library (λ items. items) []

abbrev status : Cobra → ℕ
status cobra = session_result amazon settle_calmly measure_calmly (program cobra)

provisioning_exits : status provisions ≡ 0
unfolding session_result main cbtools_autobench.Effect.Session.and_then
    cbtools_autobench.Cmd.Provision.provision cbtools_autobench.Effect.Session.◌>>=◌
    cbtools_autobench.Effect.Process.wrapped cbtools_autobench.Cmd.Config.read_config
    cbtools_autobench.Effect.Process.◌>>=◌ cbtools_autobench.Effect.Process.call amazon
    cbtools_autobench.Effect.Session.in_context cbtools_autobench.Nodes.Cluster.Connect.new_cluster
    cbtools_autobench.Effect.Session.Simulate.in_slots cbtools_autobench.Nodes.Node.new_node
    cbtools_autobench.Ssh.Client.new_client cbtools_autobench.Ssh.Utils.determine_platform
    cbtools_autobench.Ssh.Utils.execute cbtools_autobench.Effect.Process.caught distro_line
    cbtools_autobench.Effect.Process.perform release_line cbtools_autobench.Ssh.Utils.platform_of
    cbtools_autobench.Base.trim_suffix cbtools_autobench.Base.trim_prefix
    cbtools_autobench.Base.trim_space cbtools_autobench.Nodes.Cluster.Load.generate_command
    cbtools_autobench.Nodes.Cluster.Load.compact_bucket
    cbtools_autobench.Nodes.Cluster.Load.compact_bucket_command
    cbtools_autobench.Nodes.Cluster.Poll.poll
    cbtools_autobench.Nodes.Cluster.Load.compaction_complete cbtools_autobench.Ssh.Client.as_root
    cbtools_autobench.Nodes.Cluster.Connect.prepare cbtools_autobench.Effect.Session.finally
    cbtools_autobench.Nodes.BackupClient.new_backup_client
    cbtools_autobench.Effect.Session.Simulate.each_in_turn
    cbtools_autobench.Nodes.Cluster.Setup.provision
    cbtools_autobench.Nodes.Cluster.Setup.provision_nodes
    cbtools_autobench.Nodes.Cluster.for_each_node cbtools_autobench.Effect.Simulate.in_turn
    cbtools_autobench.Nodes.Cluster.Setup.provision_node cbtools_autobench.Nodes.Node.provision
    cbtools_autobench.Nodes.Node.install_deps cbtools_autobench.Value.Platform.dependencies
    cbtools_autobench.Ssh.Client.install_packages
    cbtools_autobench.Value.Platform.command_install_packages
    cbtools_autobench.Effect.Process.ignored cbtools_autobench.Ssh.Client.execute_command
    cbtools_autobench.Nodes.Node.uninstall_cb cbtools_autobench.Ssh.Client.uninstall_packages
    cbtools_autobench.Value.Platform.command_uninstall_packages
    cbtools_autobench.Ssh.Client.remove_directory cbtools_autobench.Nodes.Node.install_cb
    cbtools_autobench.Ssh.Client.secure_upload cbtools_autobench.Ssh.Client.file_exists
    cbtools_autobench.Nodes.Node.remote_package cbtools_autobench.Ssh.Client.install_package_at
    cbtools_autobench.Value.Platform.command_install_package_at
    cbtools_autobench.Ssh.Client.remove_file cbtools_autobench.Nodes.Node.give_cb_permissions
    cbtools_autobench.Effect.Process.embedded cbtools_autobench.Nodes.Node.create_data_path
    cbtools_autobench.Nodes.Node.make_path cbtools_autobench.Nodes.Node.create_index_path
    cbtools_autobench.Nodes.Node.initialize_cb cbtools_autobench.Nodes.Node.init_line
    cbtools_autobench.Nodes.Cluster.Setup.initialize_cb
    cbtools_autobench.Nodes.Cluster.Setup.cluster_init
    cbtools_autobench.Nodes.Cluster.Setup.on_first cbtools_autobench.Nodes.Cluster.first_node
    cbtools_autobench.Nodes.Cluster.Setup.cluster_init_command
    cbtools_autobench.Nodes.Cluster.Setup.server_add cbtools_autobench.Nodes.Cluster.Setup.service
    cbtools_autobench.Nodes.Cluster.Setup.server_add_command
    cbtools_autobench.Nodes.Cluster.Setup.rebalance
    cbtools_autobench.Nodes.Cluster.Setup.rebalance_command
    cbtools_autobench.Nodes.Cluster.Setup.enable_developer_preview_mode
    cbtools_autobench.Nodes.Cluster.Setup.developer_preview_command
    cbtools_autobench.Nodes.Cluster.Setup.limit_vbuckets
    cbtools_autobench.Nodes.Cluster.Setup.limit_vbuckets_command
    cbtools_autobench.Nodes.Cluster.Setup.create_bucket
    cbtools_autobench.Nodes.Cluster.Setup.create_bucket_command
    cbtools_autobench.Nodes.Cluster.Load.modify_eviction_percentage
    cbtools_autobench.Nodes.Cluster.Load.eviction_command
    cbtools_autobench.Nodes.Cluster.Load.load_items cbtools_autobench.Nodes.Cluster.Load.chunks
    cbtools_autobench.Nodes.Cluster.Load.load_using_backup_mgr
    cbtools_autobench.Nodes.BackupClient.provision cbtools_autobench.Nodes.Node.disable_cb
    cbtools_autobench.Value.Platform.command_disable_couchbase
    cbtools_autobench.Nodes.Cluster.Load.load_data cbtools_autobench.Nodes.Cluster.Load.flush_bucket
    cbtools_autobench.Nodes.Cluster.Load.flush_bucket_command
    cbtools_autobench.Nodes.Cluster.Load.modify_eviction_percentages
    cbtools_autobench.Ssh.Utils.parse_private_key cbtools_autobench.Ssh.Client.ssh_dial
    cbtools_autobench.Effect.Session.Slots.all_filled
    cbtools_autobench.Effect.Session.Slots.write_all
provisioning_exits = refl

backup_exits : status (benchmarks "backup" false) ≡ 0
unfolding session_result main cbtools_autobench.Effect.Session.and_then
    cbtools_autobench.Cmd.Benchmark.benchmark cbtools_autobench.Effect.Session.◌>>=◌
    cbtools_autobench.Effect.Process.wrapped cbtools_autobench.Cmd.Config.read_config
    cbtools_autobench.Effect.Process.◌>>=◌ cbtools_autobench.Effect.Process.call amazon
    cbtools_autobench.Effect.Session.in_context cbtools_autobench.Nodes.Cluster.Connect.new_cluster
    cbtools_autobench.Effect.Session.Simulate.in_slots cbtools_autobench.Nodes.Node.new_node
    cbtools_autobench.Ssh.Client.new_client cbtools_autobench.Ssh.Utils.determine_platform
    cbtools_autobench.Ssh.Utils.execute cbtools_autobench.Effect.Process.caught distro_line
    cbtools_autobench.Effect.Process.perform release_line cbtools_autobench.Ssh.Utils.platform_of
    cbtools_autobench.Base.trim_suffix cbtools_autobench.Base.trim_prefix
    cbtools_autobench.Base.trim_space cbtools_autobench.Nodes.BackupClient.date_range
    cbtools_autobench.Value.Cbm.command_remove cbtools_autobench.Nodes.Cluster.Logs.stats
    cbtools_autobench.Cmd.Benchmark.collect_logs cbtools_autobench.Report.Text.new_report
    cbtools_autobench.Report.Print.printed cbtools_autobench.Ssh.Client.as_root
    cbtools_autobench.Nodes.Cluster.Connect.prepare cbtools_autobench.Effect.Session.finally
    cbtools_autobench.Nodes.BackupClient.new_backup_client
    cbtools_autobench.Nodes.BackupClient.run_backups
    cbtools_autobench.Nodes.BackupClient.purge_archive cbtools_autobench.Ssh.Client.execute_command
    cbtools_autobench.Nodes.BackupClient.purge_command cbtools_autobench.Ssh.Client.remove_directory
    cbtools_autobench.Effect.Process.ignored cbtools_autobench.Nodes.BackupClient.create_repository
    cbtools_autobench.Value.Cbm.command_config cbtools_autobench.Nodes.BackupClient.iterate
    cbtools_autobench.Nodes.BackupClient.benchmark_backup cbtools_autobench.Nodes.BackupClient.timed
    cbtools_autobench.Nodes.BackupClient.run_cluster_pre_benchmark_tasks
    cbtools_autobench.Nodes.BackupClient.flush_caches cbtools_autobench.Value.Cbm.command_backup
    cbtools_autobench.Ssh.Client.sync cbtools_autobench.Value.Cbm.command_info
    cbtools_autobench.Nodes.BackupClient.backup_info
    cbtools_autobench.Nodes.BackupClient.purge_backups
    cbtools_autobench.Nodes.BackupClient.remove_backups
    cbtools_autobench.Nodes.Cluster.for_each_node cbtools_autobench.Effect.Simulate.in_turn
    cbtools_autobench.Ssh.Client.flush_caches
    cbtools_autobench.Nodes.BackupClient.run_pre_benchmark_tasks
    cbtools_autobench.Nodes.BackupClient.create_backup
    cbtools_autobench.Nodes.Cluster.connection_string cbtools_autobench.Tests.Cobra.find_benchmark
    cbtools_autobench.Ssh.Utils.parse_private_key cbtools_autobench.Ssh.Client.ssh_dial
    cbtools_autobench.Effect.Session.Slots.all_filled
    cbtools_autobench.Effect.Session.Slots.write_all
backup_exits = refl

restore_exits : status (benchmarks "restore" true) ≡ 0
unfolding session_result main cbtools_autobench.Effect.Session.and_then
    cbtools_autobench.Cmd.Benchmark.benchmark cbtools_autobench.Effect.Session.◌>>=◌
    cbtools_autobench.Effect.Process.wrapped cbtools_autobench.Cmd.Config.read_config
    cbtools_autobench.Effect.Process.◌>>=◌ cbtools_autobench.Effect.Process.call amazon
    cbtools_autobench.Effect.Session.in_context cbtools_autobench.Nodes.Cluster.Connect.new_cluster
    cbtools_autobench.Effect.Session.Simulate.in_slots cbtools_autobench.Nodes.Node.new_node
    cbtools_autobench.Ssh.Client.new_client cbtools_autobench.Ssh.Utils.determine_platform
    cbtools_autobench.Ssh.Utils.execute cbtools_autobench.Effect.Process.caught distro_line
    cbtools_autobench.Effect.Process.perform release_line cbtools_autobench.Ssh.Utils.platform_of
    cbtools_autobench.Base.trim_suffix cbtools_autobench.Base.trim_prefix
    cbtools_autobench.Base.trim_space cbtools_autobench.Nodes.BackupClient.restore_backup
    cbtools_autobench.Value.Cbm.command_restore cbtools_autobench.Nodes.Cluster.Logs.stats
    cbtools_autobench.Cmd.Benchmark.collect_logs cbtools_autobench.Report.Text.new_report
    cbtools_autobench.Report.Print.printed cbtools_autobench.Ssh.Client.as_root
    cbtools_autobench.Nodes.Cluster.Connect.prepare cbtools_autobench.Effect.Session.finally
    cbtools_autobench.Nodes.BackupClient.new_backup_client
    cbtools_autobench.Nodes.BackupClient.run_restores
    cbtools_autobench.Nodes.BackupClient.purge_archive cbtools_autobench.Ssh.Client.execute_command
    cbtools_autobench.Nodes.BackupClient.purge_command cbtools_autobench.Ssh.Client.remove_directory
    cbtools_autobench.Effect.Process.ignored cbtools_autobench.Nodes.BackupClient.create_repository
    cbtools_autobench.Value.Cbm.command_config cbtools_autobench.Nodes.BackupClient.create_backup
    cbtools_autobench.Nodes.Cluster.connection_string cbtools_autobench.Value.Cbm.command_backup
    cbtools_autobench.Ssh.Client.sync cbtools_autobench.Value.Cbm.command_info
    cbtools_autobench.Nodes.BackupClient.flush_caches cbtools_autobench.Nodes.Cluster.for_each_node
    cbtools_autobench.Effect.Simulate.in_turn cbtools_autobench.Ssh.Client.flush_caches
    cbtools_autobench.Nodes.BackupClient.run_pre_benchmark_tasks
    cbtools_autobench.Nodes.BackupClient.backup_info cbtools_autobench.Nodes.BackupClient.iterate
    cbtools_autobench.Nodes.BackupClient.restore_once
    cbtools_autobench.Nodes.Cluster.Load.flush_bucket cbtools_autobench.Nodes.Cluster.Setup.on_first
    cbtools_autobench.Nodes.Cluster.Load.flush_bucket_command
    cbtools_autobench.Nodes.BackupClient.benchmark_restore
    cbtools_autobench.Nodes.BackupClient.timed
    cbtools_autobench.Nodes.BackupClient.run_cluster_pre_benchmark_tasks
    cbtools_autobench.Tests.Cobra.find_benchmark cbtools_autobench.Ssh.Utils.parse_private_key
    cbtools_autobench.Ssh.Client.ssh_dial cbtools_autobench.Effect.Session.Slots.all_filled
    cbtools_autobench.Effect.Session.Slots.write_all
restore_exits = refl

-- There are runs on which the whole plan is carried out, or a report is printed.
provisioning_happens : (tr : Trace) × Within (HasProvisioned files (λ items. items) false) tr
provisioning_happens =
    let (tr, when_zero) =
      Always-session_result amazon settle_calmly measure_calmly (program provisions)
        (OnZero (HasProvisioned files (λ items. items) false))
        (main-HasProvisioned plain_formats files library (λ items. items) any_pools
          (asks_for provisions) [] "config.yaml" false marked_root provisions_root refl) in
    (tr, when_zero provisioning_exits)

restore_happens : (tr : Trace) × Within (HasReported plain_formats files "restore" true) tr
restore_happens =
    let (tr, when_zero) =
      Always-session_result amazon settle_calmly measure_calmly
        (program (benchmarks "restore" true))
        (OnZero (HasReported plain_formats files "restore" true))
        (main-HasReported plain_formats files library (λ items. items) any_pools
          (asks_for (benchmarks "restore" true)) [] "config.yaml" "restore" "" true marked_root
          (benchmarks-Documented "restore" true) (benchmarks_root "restore" true) restore_parsed) in
    (tr, when_zero restore_exits)
