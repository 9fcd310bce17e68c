-- ===== src/Value/Cbm.antt =====
-- value/cbbackupmgr.go: the command lines for 'cbbackupmgr'. The methods of `CBMConfig` that report to
-- the user are not here, and a printed copy of a command is not modelled.
pub mod Flags
pub mod Laws
use cbtools_autobench.Base.{
  ℕ, String, ◌<>◌, Bool, true, false, not, ◌==◌, List, [], ◌∷◌, eqb, if◌then◌else◌,
}
use cbtools_autobench.Value.Format.{str, num, sprintf}
use cbtools_autobench.Value.Command.{Command, new_command, exports}
use cbtools_autobench.Value.Blueprint.{CbmConfig}

-- The early return for an empty environment, then the loop over it.
with_exports : List (String × String) → String → String
with_exports [] command = command
with_exports (v ∷ env) command = exports (v ∷ env) <> command

module _ (c : CbmConfig) where
  pub prefix_environment : String → String
  unfolding with_exports
  prefix_environment command = with_exports c.env_vars command

  pub add_storage : String → String
  add_storage command =
      if c.storage == "" then command else command <> sprintf " --storage %s" (str c.storage ∷ [])

  pub add_threads : String → String
  add_threads command =
      if not (eqb c.threads 0)
      then command <> sprintf " --threads %d" (num c.threads ∷ [])
      else command <> " --auto-select-threads"

  pub add_blackhole : String → String
  add_blackhole command = if not c.blackhole then command else command <> " --sink blackhole"

  pub add_point_in_time_flag : String → String
  add_point_in_time_flag command = if not c.pitr then command else command <> " --point-in-time"

  -- `if x != "" { command += fmt.Sprintf(format, x) }`
  abbrev add_option : String → String → String → String
  add_option x format command =
      if not (x == "") then command <> sprintf format (str x ∷ []) else command

  pub add_cloud_args : String → String
  add_cloud_args command =
      let command = add_option c.obj_staging_directory " --obj-staging-dir %s" command in
      let command = add_option c.obj_access_key_id " --obj-access-key-id %s" command in
      let command = add_option c.obj_secret_access_key " --obj-secret-access-key %s" command in
      let command = add_option c.obj_region " --obj-region %s" command in
      let command = add_option c.obj_endpoint " --obj-endpoint %s" command in
      let command =
        if c.obj_auth_by_instance_metadata
        then command <> " --obj-auth-by-instance-metadata"
        else command in
      let command = if c.obj_no_ssl_verify then command <> " --obj-no-ssl-verify" else command in
      let command = add_option c.s3_log_level " --s3-log-level %s" command in
      if c.s3_force_path_style then command <> " --s3-force-path-style" else command

  -- The flag `config` is set for the config sub-command.
  pub add_encryption_args : String → Bool → String
  add_encryption_args command config =
      let command' = command <> sprintf " --passphrase %s" (str c.passphrase ∷ []) in
      let command'' = command' <> " --encrypted" in
      if not c.encrypted
      then command
      else if not config
      then command'
      else if not (c.encryption_algo == "")
      then command'' <> sprintf " --encryption-algo %s" (str c.encryption_algo ∷ [])
      else command''

  -- The line that CommandConfig prints and turns into a command.
  unfoldable pub config_line : String
  unfolding prefix_environment add_cloud_args add_encryption_args add_point_in_time_flag
  config_line =
      let command =
        sprintf "cbbackupmgr config -a %s -r %s" (str c.archive ∷ str c.repository ∷ []) in
      let command = prefix_environment command in
      let command = add_cloud_args command in
      let command = add_encryption_args command true in add_point_in_time_flag command

  unfoldable pub command_config : Command
  unfolding config_line
  command_config = new_command config_line []

  -- The line that CommandBackup prints and turns into a command.
  unfoldable pub backup_line : String → Bool → String
  unfolding prefix_environment add_cloud_args add_encryption_args add_storage add_threads
      add_blackhole
  backup_line host ignore_blackhole =
      let command =
        sprintf "cbbackupmgr backup -a %s -r %s -c %s -u Administrator -p asdasd --no-progress-bar"
          (str c.archive ∷ str c.repository ∷ str host ∷ []) in
      let command = prefix_environment command in
      let command = add_cloud_args command in
      let command = add_encryption_args command false in
      let command = add_storage command in
      let command = add_threads command in
      if not ignore_blackhole then add_blackhole command else command

  unfoldable pub command_backup : String → Bool → Command
  unfolding backup_line
  command_backup host ignore_blackhole = new_command (backup_line host ignore_blackhole) []

  unfoldable pub command_restore : String → Command
  unfolding prefix_environment add_cloud_args add_encryption_args add_threads add_blackhole
  command_restore host =
      let command =
        sprintf "cbbackupmgr restore -a %s -r %s -c %s -u Administrator -p asdasd --no-progress-bar"
          (str c.archive ∷ str c.repository ∷ str host ∷ []) in
      let command = prefix_environment command in
      let command = add_cloud_args command in
      let command = add_encryption_args command false in
      let command = add_threads command in
      let command = add_blackhole command in new_command command []

  unfoldable pub command_collect_logs : Command
  unfolding prefix_environment add_cloud_args
  command_collect_logs =
      let command = sprintf "cbbackupmgr collect-logs -a %s" (str c.archive ∷ []) in
      let command = add_cloud_args command in
      let command = prefix_environment command in new_command command []

  unfoldable pub command_remove : String → String → Command
  unfolding prefix_environment add_cloud_args
  command_remove start end =
      let command =
        sprintf "cbbackupmgr remove -a %s -r %s --backups %s,%s"
          (str c.archive ∷ str c.repository ∷ str start ∷ str end ∷ []) in
      let command = prefix_environment command in
      let command = add_cloud_args command in new_command command []

  unfoldable pub command_info : Command
  unfolding prefix_environment add_cloud_args
  command_info =
      let command =
        sprintf "cbbackupmgr info -a %s -r %s -j" (str c.archive ∷ str c.repository ∷ []) in
      let command = prefix_environment command in
      let command = add_cloud_args command in new_command command []
