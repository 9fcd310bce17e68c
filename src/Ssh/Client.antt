-- ===== src/Ssh/Client.antt =====
-- ssh/client.go: a connection to a machine. A connection is known by its host; log output is not
-- modelled, nor is the text that `log.Fatalf` adds to its message.
pub mod Connect
pub mod Plans
pub mod Blame
pub mod Methods
pub mod Upload
use cbtools_autobench.Base.{
  String, ◌<>◌, ◌==◌, Bool, true, false, List, [], ◌∷◌, Option, none, some, if◌then◌else◌,
  from_first,
}
use cbtools_autobench.Result.{Result, ok, err, panic, fatal, exited}
use cbtools_autobench.Value.Format.{str, sprintf}
use cbtools_autobench.Value.Command.{Command, new_command, to_string}
use cbtools_autobench.Value.Blueprint.{SshConfig}
use cbtools_autobench.Value.Platform.{
  Platform, command_install_package_at, command_install_packages, command_uninstall_packages,
}
use cbtools_autobench.Ssh.Utils.{parse_private_key, deferred, execute, determine_platform}
use cbtools_autobench.Effect.Process.{
  Request, dial, new_session, stdin_pipe, stdout_pipe, start, close_pipe, wait, close_session,
  close_client, print, perform, copy_file_to, write_to_file, Process, done, Exec, continue, call,
  perform, pure, caught, ignored, lift, wrapped, ◌>>=◌, ◌>>◌,
}

-- The user is that of the connection.
pub record Client : Type 0 where
  pub host : String
  pub user : String
  pub platform : Platform

-- What ssh.Dial returns: a connection to the host that is dialled, as the user of its configuration.
pub record Connection : Type 0 where
  pub host : String
  pub user : String

-- &Client{Platform: platform, client: connection}
abbrev pub client_of : Connection → Platform → Client
client_of connection platform = record {
  host = connection.host;
  user = connection.user;
  platform = platform;
}

-- value.CBBinDirectory, value.CBInstallDirectory
abbrev pub cb_bin_directory : String
cb_bin_directory = "/opt/couchbase/bin"

abbrev pub cb_install_directory : String
cb_install_directory = "/opt/couchbase"

-- What `ExecuteCommand` sends for a command.
unfoldable pub remote_line : Command → String
unfolding to_string sprintf
remote_line command =
    to_string command (("PATH", sprintf "%s:$PATH" (str cb_bin_directory ∷ [])) ∷ [])

-- `if err != nil { log.Fatalf(...) }`
abbrev pub or_fatal : {A : Type 0} → String → Result A → Result A
or_fatal s (ok a) = ok a
or_fatal s (err e) = fatal (exited s)
or_fatal s (panic e) = panic e
or_fatal s (fatal e) = fatal e

-- The search for 'ssh-rsa' in the output, and the text behind it.
abbrev pub trim_keys : Option String → Result String
trim_keys none = fatal (exited "ssh-rsa not found in authorized_keys")
trim_keys (some keys) = ok keys

abbrev pub succeeded : {A : Type 0} → Result A → Bool
succeeded (ok a) = true
succeeded (err e) = false
succeeded (panic s) = false
succeeded (fatal s) = false

module _ {W : Type 0} where
  unfoldable pub execute_command : Client → Command → Exec W String
  unfolding remote_line
  execute_command c command = execute c.host (remote_line command)

  unfoldable pub must_succeed : {A : Type 0} → String → Exec W A → Exec W A
  unfolding continue
  must_succeed s m = continue m (λ r. done (or_fatal s r))

  -- loginAsRoot, of the client and, in the same words, of nodes.Node
  unfoldable pub login_as_root : Client → Exec W Unit
  unfolding from_first sprintf
  login_as_root c = do
    must_succeed "failed to become root" (execute_command c "sudo -s")
    output ←
        must_succeed "failed to read authorized_keys"
          (execute_command c "sudo cat /root/.ssh/authorized_keys")
    new_content ← lift (trim_keys (from_first "ssh-rsa" output))
    must_succeed "failed to write to authorized_keys" (
        execute_command c
          (sprintf "echo '%s' | sudo tee /root/.ssh/authorized_keys" (str new_content ∷ [])))
    must_succeed "failed to restart SSH service" (
        execute_command c
          "sudo systemctl restart sshd.service || sudo systemctl restart ssh.service")
    pure tt

  -- ssh.Dial
  unfoldable pub ssh_dial : String → String → Exec W Connection
  ssh_dial host user = do call (dial host user); pure (record { host = host; user = user })

  -- The part of NewClient behind the platform.
  unfoldable pub as_root : String → SshConfig → Client → Exec W Client
  as_root host config c =
      let elevated = (do
        wrapped "failed to login as root" (login_as_root c)
        connection ← wrapped "failed to create ssh client" (ssh_dial host "root")
        pure (client_of connection c.platform)) in
      if config.username == "root" then pure c else elevated

  -- NewClient
  unfoldable pub new_client : String → SshConfig → Exec W Client
  new_client host config = do
    wrapped "failed to parse private key"
        (parse_private_key config.private_key config.private_key_passphrase)
    connection ← wrapped "failed to create ssh client" (ssh_dial host config.username)
    platform ← wrapped "failed to determine platform" (determine_platform connection.host)
    as_root host config (client_of connection platform)

  unfoldable pub file_exists : Client → String → Exec W Bool
  unfolding new_command
  file_exists c path = do
    result ← caught (execute_command c (new_command "test -e %s" (str path ∷ [])))
    pure (succeeded result)

  -- The part of SecureUpload behind the new session.
  unfoldable pub send_file : Client → String → String → Exec W Unit
  unfolding sprintf
  send_file c source sink = do
    wrapped "failed to get stdin pipe" (call (stdin_pipe c.host))
    wrapped "failed to start session" (call (start c.host (sprintf "cat > %s" (str sink ∷ []))))
    wrapped "failed to copy source data to pipe" (call (copy_file_to c.host source))
    wrapped "failed to close pipe" (call (close_pipe c.host))
    ignored (call (wait c.host))

  unfoldable pub secure_upload : Client → String → String → Exec W Unit
  secure_upload c source sink = do
    exists ← file_exists c sink
    let upload = (do
      wrapped "failed to create session" (call (new_session c.host))
      deferred (close_session c.host) (send_file c source sink))
    if exists then perform (print "File already exists\n") else upload

  -- The part of SecureDownload behind the new session.
  unfoldable pub receive_file : Client → String → String → Exec W Unit
  unfolding sprintf
  receive_file c source sink = do
    wrapped "failed to get stdout pipe" (call (stdout_pipe c.host))
    wrapped "failed to start session" (call (start c.host (sprintf "cat %s" (str source ∷ []))))
    wrapped "failed to copy to file" (call (write_to_file c.host sink))
    ignored (call (wait c.host))

  unfoldable pub secure_download : Client → String → String → Exec W Unit
  secure_download c source sink = do
    wrapped "failed to create session" (call (new_session c.host))
    deferred (close_session c.host) (receive_file c source sink)

  unfoldable pub install_package_at : Client → String → Exec W Unit
  install_package_at c path = do
    command ← lift (command_install_package_at c.platform path)
    ignored (execute_command c command)

  unfoldable pub install_packages : Client → List String → Exec W Unit
  install_packages c packages = do
    command ← lift (command_install_packages c.platform packages)
    ignored (execute_command c command)

  unfoldable pub uninstall_packages : Client → List String → Exec W Unit
  uninstall_packages c packages = do
    command ← lift (command_uninstall_packages c.platform packages)
    ignored (execute_command c command)

  unfoldable pub remove_file : Client → String → Exec W Unit
  unfolding new_command
  remove_file c path = ignored (execute_command c (new_command "rm %s" (str path ∷ [])))

  unfoldable pub remove_directory : Client → String → Exec W Unit
  unfolding new_command
  remove_directory c path = ignored (execute_command c (new_command "rm -rf %s" (str path ∷ [])))

  unfoldable pub sync : Client → Exec W Unit
  unfolding new_command
  sync c = ignored (execute_command c (new_command "sync" []))

  unfoldable pub flush_caches : Client → Exec W Unit
  unfolding new_command
  flush_caches c =
      ignored (execute_command c (new_command "sync; echo 3 > /proc/sys/vm/drop_caches" []))

  unfoldable pub close : Client → Exec W Unit
  close c = ignored (call (close_client c.host))
