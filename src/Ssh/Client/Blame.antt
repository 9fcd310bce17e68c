-- ===== src/Ssh/Client/Blame.antt =====
-- The methods of ssh/client.go fail only if a call to the machine has failed.
use mathlib.Core.List.{append-nil}
use cbtools_autobench.Base.{String, List, [], ◌++◌}
use cbtools_autobench.Result.{Result, ok, err, panic, fatal, Succeeds}
use cbtools_autobench.Value.Command.{Command}
use cbtools_autobench.Value.Platform.Laws.{IsSupported, IsSupported-iff-NeverPanics}
use cbtools_autobench.Effect.Process.{
  ignored, Request, Trace, done, Exec, continue, caught, kept, on_ok, perform, lift, ◌>>=◌, ◌>>◌,
}
use cbtools_autobench.Effect.Runs.{Pooling, Ensures, Ensures-mono, Ensures-continue}
use cbtools_autobench.Effect.Blame.{
  Blamed, Blames, Blames-bind, Blames-lift_bind, Blames-if, Blames-pure, Blames-ignored,
  Blames-wrapped, Blames-caught, Blames-call, Blames-perform, failure_left,
}
use cbtools_autobench.Ssh.Utils.{deferred, execute}
use cbtools_autobench.Ssh.Client.{
  Client, execute_command, file_exists, send_file, secure_upload, install_package_at,
  install_packages, uninstall_packages, remove_file, remove_directory,
}

module _ {W : Type 0} (Pooled : Pooling W) where
  after_deferred :
      {A : Type 0} (q : Request) (tr : Trace) (r : Result A)
      → Blamed tr r
      → Ensures Pooled (on_ok (λ x. perform q >> lift x) (kept r)) (λ tr' s. Blamed (tr ++ tr') s)
  unfolding Ensures perform ◌>>=◌
  after_deferred q tr (ok a) b = λ y. tt
  after_deferred q tr (err e) b = λ y. failure_left _ b
  after_deferred q tr (panic s) b = failure_left [] b
  after_deferred q tr (fatal s) b = failure_left [] b

  Blames-deferred :
      {A : Type 0} (q : Request) (m : Exec W A) → Blames Pooled m → Blames Pooled (deferred q m)
  unfolding deferred ◌>>=◌ caught Ensures
  Blames-deferred q m h = record {
    runs = Ensures-continue Pooled (continue m (λ x. done (kept x))) _ _ (
        Ensures-continue Pooled m _ _
          (Ensures-mono Pooled m _ _ (λ tr r b. rw append-nil (after_deferred q tr r b)) h.runs));
  }

  pub execute_command-Blames :
      (c : Client) (command : Command) → Blames Pooled (execute_command c command)
  unfolding execute_command execute
  execute_command-Blames c command =
      Blames-bind Pooled _ _ (Blames-wrapped Pooled _ _ (Blames-call Pooled _))
        (λ _. Blames-deferred _ _ (Blames-call Pooled _))

  pub ignored-Blames :
      (c : Client) (command : Command) → Blames Pooled (ignored (execute_command c command))
  ignored-Blames c command = Blames-ignored Pooled _ (execute_command-Blames c command)

  -- A command that depends on the platform.
  pub platform-Blames :
      (c : Client) (r : Result Command)
      → Succeeds r
      → Blames Pooled (lift r >>= λ command. ignored (execute_command c command))
  platform-Blames c r h = Blames-lift_bind Pooled r _ h (λ command. ignored-Blames c command)

  send_file-Blames : (c : Client) (source sink : String) → Blames Pooled (send_file c source sink)
  unfolding send_file
  send_file-Blames c source sink =
      let called = λ (s : String) (q : Request). Blames-wrapped Pooled s _ (Blames-call Pooled q) in
      Blames-bind Pooled _ _ (called _ _) (λ _. Blames-bind Pooled _ _ (called _ _) (λ _.
        Blames-bind Pooled _ _ (called _ _) (λ _.
          Blames-bind Pooled _ _ (called _ _)
            (λ _. Blames-ignored Pooled _ (Blames-call Pooled _)))))

  pub secure_upload-Blames :
      (c : Client) (source sink : String) → Blames Pooled (secure_upload c source sink)
  unfolding secure_upload file_exists
  secure_upload-Blames c source sink =
      Blames-bind Pooled _ _
        (Blames-bind Pooled _ _ (Blames-caught Pooled _ (execute_command-Blames c _))
          (λ r. Blames-pure Pooled _))
        (λ exists. Blames-if Pooled exists _ _ (Blames-perform Pooled _) (
          Blames-bind Pooled _ _ (Blames-wrapped Pooled _ _ (Blames-call Pooled _))
            (λ _. Blames-deferred _ _ (send_file-Blames c source sink))))

  pub install_package_at-Blames :
      (c : Client) (path : String)
      → IsSupported c.platform
      → Blames Pooled (install_package_at c path)
  unfolding install_package_at
  install_package_at-Blames c path h =
      platform-Blames c _ (((IsSupported-iff-NeverPanics c.platform).0 h).install_at path)

  pub install_packages-Blames :
      (c : Client) (packages : List String)
      → IsSupported c.platform
      → Blames Pooled (install_packages c packages)
  unfolding install_packages
  install_packages-Blames c packages h =
      platform-Blames c _ (((IsSupported-iff-NeverPanics c.platform).0 h).install packages)

  pub uninstall_packages-Blames :
      (c : Client) (packages : List String)
      → IsSupported c.platform
      → Blames Pooled (uninstall_packages c packages)
  unfolding uninstall_packages
  uninstall_packages-Blames c packages h =
      platform-Blames c _ (((IsSupported-iff-NeverPanics c.platform).0 h).uninstall packages)

  pub remove_file-Blames : (c : Client) (path : String) → Blames Pooled (remove_file c path)
  unfolding remove_file
  remove_file-Blames c path = ignored-Blames c _

  pub remove_directory-Blames :
      (c : Client) (path : String) → Blames Pooled (remove_directory c path)
  unfolding remove_directory
  remove_directory-Blames c path = ignored-Blames c _
