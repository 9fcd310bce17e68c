-- ===== src/Tests/Outcomes.antt =====
-- Runs in which everything succeeds: provisioning, loading and both benchmarks return results.
use cbtools_autobench.Base.{◌≡◌, refl, ℕ, true, false, [], ◌∷◌}
use cbtools_autobench.Result.{ok}
use cbtools_autobench.Effect.Simulate.{simulate, machine}
use cbtools_autobench.Nodes.Cluster.Setup.{provision}
use cbtools_autobench.Nodes.Cluster.Load.{load_data}
use cbtools_autobench.Nodes.BackupClient.{run_backups, run_restores}
use cbtools_autobench.Tests.{two_nodes, client, two_iterations, library, outcome}

provision_succeeds : outcome (provision two_nodes) ≡ ok tt
unfolding cbtools_autobench.Nodes.Cluster.Setup.provision simulate machine
    cbtools_autobench.Effect.Process.◌>>=◌ cbtools_autobench.Effect.Process.wrapped
    cbtools_autobench.Nodes.Cluster.Setup.provision_nodes
    cbtools_autobench.Nodes.Cluster.for_each_node cbtools_autobench.Effect.Simulate.in_turn
    cbtools_autobench.Nodes.Cluster.Setup.provision_node cbtools_autobench.Nodes.Node.provision
    cbtools_autobench.Nodes.Node.install_deps cbtools_autobench.Value.Platform.dependencies
    cbtools_autobench.Ssh.Client.install_packages
    cbtools_autobench.Value.Platform.command_install_packages
    cbtools_autobench.Effect.Process.ignored cbtools_autobench.Ssh.Client.execute_command
    cbtools_autobench.Ssh.Utils.execute cbtools_autobench.Effect.Process.call
    cbtools_autobench.Effect.Process.caught cbtools_autobench.Effect.Process.perform
    cbtools_autobench.Base.split cbtools_autobench.Effect.Process.continue
    cbtools_autobench.Effect.Process.embedded cbtools_autobench.Nodes.Cluster.Setup.add_pitr_args
    cbtools_autobench.Nodes.Cluster.Setup.cluster_init
    cbtools_autobench.Nodes.Cluster.Setup.cluster_init_command
    cbtools_autobench.Nodes.Cluster.Setup.create_bucket
    cbtools_autobench.Nodes.Cluster.Setup.create_bucket_command
    cbtools_autobench.Nodes.Cluster.Setup.developer_preview_command
    cbtools_autobench.Nodes.Cluster.Setup.enable_developer_preview_mode
    cbtools_autobench.Nodes.Cluster.Setup.initialize_cb
    cbtools_autobench.Nodes.Cluster.Setup.limit_vbuckets
    cbtools_autobench.Nodes.Cluster.Setup.limit_vbuckets_command
    cbtools_autobench.Nodes.Cluster.Setup.on_first cbtools_autobench.Nodes.Cluster.Setup.rebalance
    cbtools_autobench.Nodes.Cluster.Setup.rebalance_command
    cbtools_autobench.Nodes.Cluster.Setup.server_add
    cbtools_autobench.Nodes.Cluster.Setup.server_add_command
    cbtools_autobench.Nodes.Cluster.Setup.service cbtools_autobench.Nodes.Cluster.first_node
    cbtools_autobench.Nodes.Node.base cbtools_autobench.Nodes.Node.create_data_path
    cbtools_autobench.Nodes.Node.create_index_path cbtools_autobench.Nodes.Node.give_cb_permissions
    cbtools_autobench.Nodes.Node.init_line cbtools_autobench.Nodes.Node.initialize_cb
    cbtools_autobench.Nodes.Node.install_cb cbtools_autobench.Nodes.Node.make_path
    cbtools_autobench.Nodes.Node.remote_package cbtools_autobench.Nodes.Node.uninstall_cb
    cbtools_autobench.Ssh.Client.file_exists cbtools_autobench.Ssh.Client.install_package_at
    cbtools_autobench.Ssh.Client.remote_line cbtools_autobench.Ssh.Client.remove_directory
    cbtools_autobench.Ssh.Client.remove_file cbtools_autobench.Ssh.Client.secure_upload
    cbtools_autobench.Ssh.Client.send_file cbtools_autobench.Ssh.Client.uninstall_packages
    cbtools_autobench.Ssh.Utils.deferred cbtools_autobench.Value.Command.exports
    cbtools_autobench.Value.Command.new_command cbtools_autobench.Value.Command.to_string
    cbtools_autobench.Value.Format.itoa cbtools_autobench.Value.Format.show_arg
    cbtools_autobench.Value.Format.sprintf
    cbtools_autobench.Value.Platform.command_install_package_at
    cbtools_autobench.Value.Platform.command_uninstall_packages
provision_succeeds = refl

load_data_succeeds : outcome (load_data library (λ items. items) two_nodes true) ≡ ok tt
unfolding load_data simulate machine cbtools_autobench.Effect.Process.◌>>=◌
    cbtools_autobench.Effect.Process.wrapped cbtools_autobench.Nodes.Cluster.Load.flush_bucket
    cbtools_autobench.Nodes.Cluster.Setup.on_first cbtools_autobench.Nodes.Cluster.first_node
    cbtools_autobench.Effect.Process.ignored cbtools_autobench.Ssh.Client.execute_command
    cbtools_autobench.Ssh.Utils.execute cbtools_autobench.Effect.Process.call
    cbtools_autobench.Effect.Process.caught cbtools_autobench.Effect.Process.perform
    cbtools_autobench.Nodes.Cluster.Load.modify_eviction_percentages
    cbtools_autobench.Nodes.Cluster.for_each_node cbtools_autobench.Effect.Simulate.in_turn
    cbtools_autobench.Nodes.Cluster.Load.modify_eviction_percentage
    cbtools_autobench.Nodes.Cluster.Load.load_items cbtools_autobench.Nodes.Cluster.Load.chunks
    cbtools_autobench.Effect.Process.continue cbtools_autobench.Nodes.Cluster.Load.compact_bucket
    cbtools_autobench.Nodes.Cluster.Load.compact_bucket_command
    cbtools_autobench.Nodes.Cluster.Load.compaction_complete
    cbtools_autobench.Nodes.Cluster.Load.cycles_num
    cbtools_autobench.Nodes.Cluster.Load.eviction_command
    cbtools_autobench.Nodes.Cluster.Load.flush_bucket_command
    cbtools_autobench.Nodes.Cluster.Load.generate_command
    cbtools_autobench.Nodes.Cluster.Load.load_using_backup_mgr
    cbtools_autobench.Nodes.Cluster.Load.load_using_pillowfight
    cbtools_autobench.Nodes.Cluster.Load.pillowfight_command
    cbtools_autobench.Nodes.Cluster.Poll.poll cbtools_autobench.Nodes.Cluster.Poll.poll_loop
    cbtools_autobench.Ssh.Client.remote_line cbtools_autobench.Ssh.Utils.deferred
    cbtools_autobench.Value.Command.exports cbtools_autobench.Value.Command.new_command
    cbtools_autobench.Value.Command.to_string cbtools_autobench.Value.Format.itoa
    cbtools_autobench.Value.Format.show_arg cbtools_autobench.Value.Format.sprintf
load_data_succeeds = refl

run_backups_succeeds :
    outcome (run_backups library client two_iterations two_nodes)
    ≡ ok (
        record { duration = 0; ads = 2048; ain = 7 }
        ∷ record { duration = 0; ads = 2048; ain = 7 }
        ∷ [])
unfolding run_backups simulate machine cbtools_autobench.Effect.Process.◌>>=◌
    cbtools_autobench.Effect.Process.wrapped cbtools_autobench.Nodes.BackupClient.purge_archive
    cbtools_autobench.Ssh.Client.execute_command cbtools_autobench.Ssh.Utils.execute
    cbtools_autobench.Effect.Process.call cbtools_autobench.Effect.Process.caught
    cbtools_autobench.Effect.Process.perform cbtools_autobench.Ssh.Client.remove_directory
    cbtools_autobench.Effect.Process.ignored cbtools_autobench.Nodes.BackupClient.create_repository
    cbtools_autobench.Nodes.BackupClient.iterate
    cbtools_autobench.Nodes.BackupClient.benchmark_backup cbtools_autobench.Nodes.BackupClient.timed
    cbtools_autobench.Nodes.BackupClient.run_cluster_pre_benchmark_tasks
    cbtools_autobench.Nodes.BackupClient.flush_caches cbtools_autobench.Nodes.Cluster.for_each_node
    cbtools_autobench.Effect.Process.continue cbtools_autobench.Effect.Simulate.in_turn
    cbtools_autobench.Nodes.BackupClient.backup_info
    cbtools_autobench.Nodes.BackupClient.create_backup
    cbtools_autobench.Nodes.BackupClient.date_range
    cbtools_autobench.Nodes.BackupClient.purge_backups
    cbtools_autobench.Nodes.BackupClient.purge_command
    cbtools_autobench.Nodes.BackupClient.remove_backups
    cbtools_autobench.Nodes.BackupClient.run_pre_benchmark_tasks
    cbtools_autobench.Nodes.Cluster.connection_string cbtools_autobench.Ssh.Client.flush_caches
    cbtools_autobench.Ssh.Client.remote_line cbtools_autobench.Ssh.Client.sync
    cbtools_autobench.Ssh.Utils.deferred cbtools_autobench.Value.Cbm.command_backup
    cbtools_autobench.Value.Cbm.command_config cbtools_autobench.Value.Cbm.command_info
    cbtools_autobench.Value.Cbm.command_remove cbtools_autobench.Value.Command.exports
    cbtools_autobench.Value.Command.new_command cbtools_autobench.Value.Command.to_string
    cbtools_autobench.Value.Format.itoa cbtools_autobench.Value.Format.show_arg
    cbtools_autobench.Value.Format.sprintf
run_backups_succeeds = refl

run_restores_succeeds :
    outcome (run_restores library client two_iterations two_nodes)
    ≡ ok (
        record { duration = 0; ads = 2048; ain = 0 }
        ∷ record { duration = 0; ads = 2048; ain = 0 }
        ∷ [])
unfolding run_restores simulate machine cbtools_autobench.Effect.Process.◌>>=◌
    cbtools_autobench.Effect.Process.wrapped cbtools_autobench.Nodes.BackupClient.purge_archive
    cbtools_autobench.Ssh.Client.execute_command cbtools_autobench.Ssh.Utils.execute
    cbtools_autobench.Effect.Process.call cbtools_autobench.Effect.Process.caught
    cbtools_autobench.Effect.Process.perform cbtools_autobench.Ssh.Client.remove_directory
    cbtools_autobench.Effect.Process.ignored cbtools_autobench.Nodes.BackupClient.create_repository
    cbtools_autobench.Nodes.BackupClient.create_backup
    cbtools_autobench.Nodes.Cluster.connection_string cbtools_autobench.Ssh.Client.sync
    cbtools_autobench.Nodes.BackupClient.backup_info cbtools_autobench.Nodes.BackupClient.iterate
    cbtools_autobench.Nodes.BackupClient.restore_once cbtools_autobench.Effect.Process.continue
    cbtools_autobench.Effect.Simulate.in_turn cbtools_autobench.Nodes.BackupClient.benchmark_restore
    cbtools_autobench.Nodes.BackupClient.flush_caches
    cbtools_autobench.Nodes.BackupClient.purge_command
    cbtools_autobench.Nodes.BackupClient.restore_backup
    cbtools_autobench.Nodes.BackupClient.run_cluster_pre_benchmark_tasks
    cbtools_autobench.Nodes.BackupClient.run_pre_benchmark_tasks
    cbtools_autobench.Nodes.BackupClient.timed cbtools_autobench.Nodes.Cluster.Load.flush_bucket
    cbtools_autobench.Nodes.Cluster.Load.flush_bucket_command
    cbtools_autobench.Nodes.Cluster.Setup.on_first cbtools_autobench.Nodes.Cluster.first_node
    cbtools_autobench.Nodes.Cluster.for_each_node cbtools_autobench.Ssh.Client.flush_caches
    cbtools_autobench.Ssh.Client.remote_line cbtools_autobench.Ssh.Utils.deferred
    cbtools_autobench.Value.Cbm.command_backup cbtools_autobench.Value.Cbm.command_config
    cbtools_autobench.Value.Cbm.command_info cbtools_autobench.Value.Cbm.command_restore
    cbtools_autobench.Value.Command.exports cbtools_autobench.Value.Command.new_command
    cbtools_autobench.Value.Command.to_string cbtools_autobench.Value.Format.itoa
    cbtools_autobench.Value.Format.show_arg cbtools_autobench.Value.Format.sprintf
run_restores_succeeds = refl
