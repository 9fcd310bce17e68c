-- ===== src/Ssh/Client/Methods.antt =====
-- The remote commands of the client's other methods.
use cbtools_autobench.Base.{String, refl, List, [], ◌∷◌}
use cbtools_autobench.Result.{Result, ok, err, panic, fatal}
use cbtools_autobench.Value.Format.{str, sprintf}
use cbtools_autobench.Value.Command.{Command, new_command}
use cbtools_autobench.Value.Platform.{
  command_install_package_at, command_install_packages, command_uninstall_packages,
}
use cbtools_autobench.Effect.Process.{
  new_session, close_session, print, perform, Exec, pure, lift, ignored, ◌>>=◌,
}
use cbtools_autobench.Effect.Runs.{Pooling, Ensures, Ensures-mono}
use cbtools_autobench.Effect.Plan.{
  commands, Action, Plan, nothing, may, both, Meets, Begins, stopped, whole, first, second, Obeys,
  on_host,
}
use cbtools_autobench.Effect.Follows.{
  Follows, Follows-silent, Follows-bind, Follows-ignored, Follows-lift_bind, Follows-if,
}
use cbtools_autobench.Ssh.Client.{
  Client, execute_command, remote_line, secure_upload, secure_download, install_package_at,
  install_packages, uninstall_packages, remove_file, remove_directory, sync, flush_caches,
}
use cbtools_autobench.Ssh.Client.Plans.{
  execute_command-Follows, silent_call, Follows-deferred, file_exists-Follows, exists_line,
  send_file-Follows, receive_file-Follows,
}

one-may :
    {host line : String} (xs : List Action)
    → Meets (on_host host (line ∷ [])) xs
    → Meets (may host line) xs
unfolding on_host
one-may xs (Meets.both Meets.must Meets.nothing) = Meets.taken

begun-may :
    {host line : String} (xs : List Action)
    → Begins (on_host host (line ∷ [])) xs
    → Begins (may host line) xs
unfolding on_host
begun-may xs stopped = stopped
begun-may xs (whole h) = whole (one-may xs h)
begun-may xs (first stopped) = stopped
begun-may xs (first (whole Meets.must)) = whole Meets.taken
begun-may xs (second Meets.must stopped) = whole Meets.taken
begun-may xs (second Meets.must (whole Meets.nothing)) = whole Meets.taken

Obeys-optional :
    {A : Type 0} (host line : String) (xs : List Action) (r : Result A)
    → Obeys (on_host host (line ∷ [])) xs r
    → Obeys (may host line) xs r
Obeys-optional host line xs (ok a) h = one-may xs h
Obeys-optional host line xs (err e) h = begun-may xs h
Obeys-optional host line xs (panic e) h = begun-may xs h
Obeys-optional host line xs (fatal e) h = begun-may xs h

-- The remote line of a command that depends on the platform.
abbrev pub line_of : Result Command → String
line_of (ok command) = remote_line command
line_of (err e) = ""
line_of (panic s) = ""
line_of (fatal s) = ""

-- The upload is left out if the file is there.
abbrev pub upload_plan : String → String → Plan
upload_plan host sink =
    both (both (may host (exists_line sink)) nothing)
      (may host (sprintf "cat > %s" (str sink ∷ [])))

module _ {W : Type 0} (Pooled : Pooling W) where
  pub optional :
      {A : Type 0} (host line : String) (m : Exec W A)
      → Follows Pooled (on_host host (line ∷ [])) m
      → Follows Pooled (may host line) m
  optional host line m h = record {
    runs = Ensures-mono Pooled m _ _ (λ tr r. Obeys-optional host line (commands tr) r) h.runs;
  }

  pub skipped : (host line : String) → Follows Pooled (may host line) (pure {W = W} tt)
  unfolding Ensures commands
  skipped host line = record { runs = Meets.skipped }

  skipped_print :
      (host line text : String) → Follows Pooled (may host line) (perform {W = W} (print text))
  unfolding Ensures commands perform
  skipped_print host line text = record { runs = λ y. Meets.skipped }

  pub secure_upload-Follows :
      (c : Client) (source sink : String)
      → Follows Pooled (upload_plan c.host sink) (secure_upload c source sink)
  unfolding secure_upload commands
  secure_upload-Follows c source sink =
      Follows-bind Pooled _ _ _ _ (file_exists-Follows Pooled c sink) (λ exists.
        Follows-if Pooled _ exists _ _ (skipped_print c.host _ _) (
          optional c.host _ _ (
            Follows-silent Pooled _ _ _ (silent_call Pooled (new_session c.host) _ (λ y. refl))
              (λ _.
                Follows-deferred Pooled _ (close_session c.host) _ (λ y. refl)
                  (send_file-Follows Pooled c source sink)))))

  pub secure_download-Follows :
      (c : Client) (source sink : String)
      → Follows Pooled
          (on_host c.host (sprintf "cat %s" (str source ∷ []) ∷ []))
          (secure_download c source sink)
  unfolding secure_download commands
  secure_download-Follows c source sink =
      Follows-silent Pooled _ _ _ (silent_call Pooled (new_session c.host) _ (λ y. refl)) (λ _.
        Follows-deferred Pooled _ (close_session c.host) _ (λ y. refl)
          (receive_file-Follows Pooled c source sink))

  -- One command whose output is dropped.
  pub ignored-Follows :
      (c : Client) (command : Command)
      → Follows Pooled
          (on_host c.host (remote_line command ∷ []))
          (ignored (execute_command c command))
  unfolding on_host
  ignored-Follows c command = Follows-ignored Pooled _ _ (execute_command-Follows Pooled c command)

  platform_command-Follows :
      (c : Client) (r : Result Command)
      → Follows Pooled
          (on_host c.host (line_of r ∷ []))
          (lift r >>= λ command. ignored (execute_command c command))
  platform_command-Follows c r =
      Follows-lift_bind Pooled _ r _ (λ command e. rw e (ignored-Follows c command))

  pub install_package_at-Follows :
      (c : Client) (path : String)
      → Follows Pooled
          (on_host c.host (line_of (command_install_package_at c.platform path) ∷ []))
          (install_package_at c path)
  unfolding install_package_at
  install_package_at-Follows c path = platform_command-Follows c _

  pub install_packages-Follows :
      (c : Client) (packages : List String)
      → Follows Pooled
          (on_host c.host (line_of (command_install_packages c.platform packages) ∷ []))
          (install_packages c packages)
  unfolding install_packages
  install_packages-Follows c packages = platform_command-Follows c _

  pub uninstall_packages-Follows :
      (c : Client) (packages : List String)
      → Follows Pooled
          (on_host c.host (line_of (command_uninstall_packages c.platform packages) ∷ []))
          (uninstall_packages c packages)
  unfolding uninstall_packages
  uninstall_packages-Follows c packages = platform_command-Follows c _

  pub remove_file-Follows :
      (c : Client) (path : String)
      → Follows Pooled
          (on_host c.host (remote_line (new_command "rm %s" (str path ∷ [])) ∷ []))
          (remove_file c path)
  unfolding remove_file
  remove_file-Follows c path = ignored-Follows c _

  pub remove_directory-Follows :
      (c : Client) (path : String)
      → Follows Pooled
          (on_host c.host (remote_line (new_command "rm -rf %s" (str path ∷ [])) ∷ []))
          (remove_directory c path)
  unfolding remove_directory
  remove_directory-Follows c path = ignored-Follows c _

  pub sync-Follows :
      (c : Client)
      → Follows Pooled (on_host c.host (remote_line (new_command "sync" []) ∷ [])) (sync c)
  unfolding sync
  sync-Follows c = ignored-Follows c _

  pub flush_caches-Follows :
      (c : Client)
      → Follows Pooled
          (on_host c.host
            (remote_line (new_command "sync; echo 3 > /proc/sys/vm/drop_caches" []) ∷ []))
          (flush_caches c)
  unfolding flush_caches
  flush_caches-Follows c = ignored-Follows c _
