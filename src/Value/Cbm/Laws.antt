-- ===== src/Value/Cbm/Laws.antt =====
-- Each command of `CBMConfig` as its environment, its sub-command and its list of arguments.
use text.Mathlib.TextLemmas.{nil-append, append_assoc}
use cbtools_autobench.Base.{
  String, ◌<>◌, ◌≡◌, refl, ap, ◌∙◌, sym, Bool, true, false, not, List, [], ◌∷◌, ◌++◌, if◌then◌else◌,
}
use cbtools_autobench.Value.Format.{str, sprintf}
use cbtools_autobench.Value.Command.{Command, new_command, exports}
use cbtools_autobench.Value.Blueprint.{CbmConfig}
use cbtools_autobench.Value.Cbm.{
  prefix_environment, with_exports, command_config, config_line, command_backup, backup_line,
  command_restore, command_collect_logs, command_remove, command_info, add_blackhole,
}
use cbtools_autobench.Value.Cbm.Flags.{
  words, flag, option, Adds, Adds-nil, Adds-then, Adds-if, cloud_flags, thread_flags,
  encryption_flags, add_storage-Adds, add_blackhole-Adds, add_point_in_time_flag-Adds,
  add_cloud_args-Adds, add_threads-Adds, add_encryption_args-Adds,
}

-- The environment is exported, then the sub-command runs with the arguments.
pub line : CbmConfig → String → List String → Command
line c sub_command arguments =
    new_command (exports c.env_vars <> (sub_command <> words arguments)) []

with_exports-exports :
    (env : List (String × String)) (command : String)
    → with_exports env command ≡ exports env <> command
unfolding with_exports exports
with_exports-exports [] command = sym (nil-append command)
with_exports-exports (v ∷ env) command = refl

prefixed-Adds :
    (c : CbmConfig) (f : String → String) (ws : List String) (command : String)
    → Adds f ws
    → f (prefix_environment c command) ≡ exports c.env_vars <> (command <> words ws)
unfolding prefix_environment Adds
prefixed-Adds c f ws command h = rw (h, with_exports-exports) (append_assoc _ _ _)

pub backup_flags : CbmConfig → Bool → List String
backup_flags c ignore_blackhole =
    cloud_flags c
    ++ (encryption_flags c false
        ++ (option "--storage" c.storage
            ++ (thread_flags c
                ++ (if not ignore_blackhole then flag c.blackhole "--sink blackhole" else []))))

pub config_flags : CbmConfig → List String
config_flags c = cloud_flags c ++ (encryption_flags c true ++ flag c.pitr "--point-in-time")

pub restore_flags : CbmConfig → List String
restore_flags c =
    cloud_flags c
    ++ (encryption_flags c false ++ (thread_flags c ++ flag c.blackhole "--sink blackhole"))

command_config-line :
    (c : CbmConfig)
    → command_config c
      ≡ line c
          (sprintf "cbbackupmgr config -a %s -r %s" (str c.archive ∷ str c.repository ∷ []))
          (config_flags c)
unfolding command_config config_line line config_flags
command_config-line c =
    ap (λ t. new_command t [])
      (prefixed-Adds c _ _ _ (
        Adds-then _ _ _ _ (add_cloud_args-Adds c)
          (Adds-then _ _ _ _ (add_encryption_args-Adds c true) (add_point_in_time_flag-Adds c))))

command_backup-line :
    (c : CbmConfig) (host : String) (ignore_blackhole : Bool)
    → command_backup c host ignore_blackhole
      ≡ line c
          (sprintf
            "cbbackupmgr backup -a %s -r %s -c %s -u Administrator -p asdasd --no-progress-bar"
            (str c.archive ∷ str c.repository ∷ str host ∷ []))
          (backup_flags c ignore_blackhole)
unfolding command_backup backup_line line backup_flags
command_backup-line c host ignore_blackhole =
    ap (λ t. new_command t [])
      (prefixed-Adds c _ _ _ (
        Adds-then _ _ _ _ (add_cloud_args-Adds c) (
          Adds-then _ _ _ _ (add_encryption_args-Adds c false) (
            Adds-then _ _ _ _ (add_storage-Adds c) (
              Adds-then _ _ _ _ (add_threads-Adds c) (
                Adds-if (not ignore_blackhole) (add_blackhole c) (λ command. command) _ _
                  (add_blackhole-Adds c) Adds-nil))))))

command_restore-line :
    (c : CbmConfig) (host : String)
    → command_restore c host
      ≡ line c
          (sprintf
            "cbbackupmgr restore -a %s -r %s -c %s -u Administrator -p asdasd --no-progress-bar"
            (str c.archive ∷ str c.repository ∷ str host ∷ []))
          (restore_flags c)
unfolding command_restore line restore_flags
command_restore-line c host =
    ap (λ t. new_command t [])
      (prefixed-Adds c _ _ _ (
        Adds-then _ _ _ _ (add_cloud_args-Adds c) (
          Adds-then _ _ _ _ (add_encryption_args-Adds c false)
            (Adds-then _ _ _ _ (add_threads-Adds c) (add_blackhole-Adds c)))))

command_collect_logs-line :
    (c : CbmConfig)
    → command_collect_logs c
      ≡ line c (sprintf "cbbackupmgr collect-logs -a %s" (str c.archive ∷ [])) (cloud_flags c)
unfolding command_collect_logs prefix_environment line Adds
command_collect_logs-line c =
    ap (λ t. new_command t [])
      (with_exports-exports c.env_vars _
        ∙ ap (λ t. exports c.env_vars <> t) (add_cloud_args-Adds c _))

command_remove-line :
    (c : CbmConfig) (start end : String)
    → command_remove c start end
      ≡ line c
          (sprintf "cbbackupmgr remove -a %s -r %s --backups %s,%s"
            (str c.archive ∷ str c.repository ∷ str start ∷ str end ∷ []))
          (cloud_flags c)
unfolding command_remove line
command_remove-line c start end =
    ap (λ t. new_command t []) (prefixed-Adds c _ _ _ (add_cloud_args-Adds c))

command_info-line :
    (c : CbmConfig)
    → command_info c
      ≡ line c
          (sprintf "cbbackupmgr info -a %s -r %s -j" (str c.archive ∷ str c.repository ∷ []))
          (cloud_flags c)
unfolding command_info line
command_info-line c = ap (λ t. new_command t []) (prefixed-Adds c _ _ _ (add_cloud_args-Adds c))

-- The six command lines, each read off the configuration.
pub record Lines (c : CbmConfig) : Type 0 where
  pub config :
      command_config c
      ≡ line c
          (sprintf "cbbackupmgr config -a %s -r %s" (str c.archive ∷ str c.repository ∷ []))
          (config_flags c)
  pub backup :
      (host : String) (ignore_blackhole : Bool)
      → command_backup c host ignore_blackhole
        ≡ line c
            (sprintf
              "cbbackupmgr backup -a %s -r %s -c %s -u Administrator -p asdasd --no-progress-bar"
              (str c.archive ∷ str c.repository ∷ str host ∷ []))
            (backup_flags c ignore_blackhole)
  pub restore :
      (host : String)
      → command_restore c host
        ≡ line c
            (sprintf
              "cbbackupmgr restore -a %s -r %s -c %s -u Administrator -p asdasd --no-progress-bar"
              (str c.archive ∷ str c.repository ∷ str host ∷ []))
            (restore_flags c)
  pub collect_logs :
      command_collect_logs c
      ≡ line c (sprintf "cbbackupmgr collect-logs -a %s" (str c.archive ∷ [])) (cloud_flags c)
  pub remove :
      (start end : String)
      → command_remove c start end
        ≡ line c
            (sprintf "cbbackupmgr remove -a %s -r %s --backups %s,%s"
              (str c.archive ∷ str c.repository ∷ str start ∷ str end ∷ []))
            (cloud_flags c)
  pub info :
      command_info c
      ≡ line c
          (sprintf "cbbackupmgr info -a %s -r %s -j" (str c.archive ∷ str c.repository ∷ []))
          (cloud_flags c)

-- Every 'cbbackupmgr' command is the exported environment, the sub-command with its required
-- arguments, and the list of optional arguments that the configuration asks for, in this order: object
-- storage, encryption, storage type, threads, sink. Only a backup names the storage type, only backup
-- and restore name threads and sink, only the configuration of a repository names the point in time,
-- and a backup that ignores the blackhole never has the sink.
pub commands-Lines : (c : CbmConfig) → Lines c
commands-Lines c = record {
  config = command_config-line c;
  backup = command_backup-line c;
  restore = command_restore-line c;
  collect_logs = command_collect_logs-line c;
  remove = command_remove-line c;
  info = command_info-line c;
}
