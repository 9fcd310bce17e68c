-- ===== src/Nodes/Node/Provision.antt =====
-- The remote commands that set up one node.
use cbtools_autobench.Base.{String, refl, List, [], ◌∷◌}
use cbtools_autobench.Result.{Result, ok, err, panic, fatal}
use cbtools_autobench.Value.Format.{str}
use cbtools_autobench.Value.Command.{new_command}
use cbtools_autobench.Value.Platform.{
  Platform, dependencies, command_install_packages, command_uninstall_packages,
  command_install_package_at,
}
use cbtools_autobench.Ssh.Client.{Client, remote_line, cb_install_directory}
use cbtools_autobench.Ssh.Client.Plans.{execute_command-Follows}
use cbtools_autobench.Ssh.Client.Methods.{
  line_of, upload_plan, secure_upload-Follows, install_package_at-Follows, install_packages-Follows,
  uninstall_packages-Follows, remove_file-Follows, remove_directory-Follows,
}
use cbtools_autobench.Effect.Process.{sleep}
use cbtools_autobench.Effect.Runs.{Pooling}
use cbtools_autobench.Effect.Plan.{Plan, nothing, both, on_host, commands}
use cbtools_autobench.Effect.Follows.{
  Follows, Follows-silent, Follows-bind, Follows-pure, Follows-wrapped, Follows-embedded,
  Follows-lift_bind, Follows-perform,
}
use cbtools_autobench.Nodes.Node.{
  Node, remote_package, install_deps, uninstall_cb, install_cb, give_cb_permissions, provision,
}

-- The command that installs the dependencies of a platform.
abbrev pub deps_line : Platform → Result (List String) → String
deps_line p (ok packages) = line_of (command_install_packages p packages)
deps_line p (err e) = ""
deps_line p (panic s) = ""
deps_line p (fatal s) = ""

pub uninstall_plan : Client → Plan
uninstall_plan c =
    both
      (on_host c.host
        (line_of (command_uninstall_packages c.platform ("couchbase-server" ∷ [])) ∷ []))
      (both
        (on_host c.host
          (remote_line (new_command "rm -rf %s" (str cb_install_directory ∷ [])) ∷ []))
        nothing)

pub install_plan : Client → String → Plan
install_plan c path = both (upload_plan c.host path) (
    both (on_host c.host (line_of (command_install_package_at c.platform path) ∷ []))
      (both (on_host c.host (remote_line (new_command "rm %s" (str path ∷ [])) ∷ [])) nothing))

-- Dependencies, removal of the old version, upload and installation of the new one, permissions.
unfoldable pub provision_plan : Client → String → Plan
provision_plan c package_path =
    both (on_host c.host (deps_line c.platform (dependencies c.platform) ∷ [])) (
      both (uninstall_plan c) (
        both (install_plan c (remote_package package_path)) (
          both
            (on_host c.host
              (remote_line (new_command "sudo chown -R couchbase:couchbase /mnt" []) ∷ []))
            nothing)))

module _ {W : Type 0} (Pooled : Pooling W) where
  install_deps-Follows :
      (n : Node)
      → Follows Pooled
          (on_host n.client.host
            (deps_line n.client.platform (dependencies n.client.platform) ∷ []))
          (install_deps n)
  unfolding install_deps
  install_deps-Follows n =
      Follows-lift_bind Pooled _ (dependencies n.client.platform) _
        (λ packages e. rw e (install_packages-Follows Pooled n.client packages))

  uninstall_cb-Follows : (n : Node) → Follows Pooled (uninstall_plan n.client) (uninstall_cb n)
  unfolding uninstall_cb uninstall_plan
  uninstall_cb-Follows n =
      Follows-bind Pooled _ _ _ _
        (Follows-wrapped Pooled _ _ _ (uninstall_packages-Follows Pooled n.client _))
        (λ _.
          Follows-bind Pooled _ _ _ _
            (Follows-wrapped Pooled _ _ _ (remove_directory-Follows Pooled n.client _))
            (λ _. Follows-pure Pooled tt))

  install_cb-Follows :
      (n : Node) (path : String)
      → Follows Pooled (install_plan n.client (remote_package path)) (install_cb n path)
  unfolding install_cb install_plan
  install_cb-Follows n path =
      Follows-bind Pooled _ _ _ _
        (Follows-wrapped Pooled _ _ _ (secure_upload-Follows Pooled n.client _ _))
        (λ _.
          Follows-bind Pooled _ _ _ _
            (Follows-wrapped Pooled _ _ _ (install_package_at-Follows Pooled n.client _))
            (λ _.
              Follows-bind Pooled _ _ _ _
                (Follows-wrapped Pooled _ _ _ (remove_file-Follows Pooled n.client _))
                (λ _. Follows-pure Pooled tt)))

  give_cb_permissions-Follows :
      (n : Node)
      → Follows Pooled
          (on_host n.client.host
            (remote_line (new_command "sudo chown -R couchbase:couchbase /mnt" []) ∷ []))
          (give_cb_permissions n)
  unfolding give_cb_permissions on_host
  give_cb_permissions-Follows n =
      Follows-bind Pooled _ _ _ _
        (Follows-embedded Pooled _ _ _ (execute_command-Follows Pooled n.client _))
        (λ _. Follows-pure Pooled tt)

  -- Provisioning a node that returns nil has sent, in this order: the installation of the platform's
  -- dependencies, the removal of Couchbase Server and of its directory, the test for the uploaded
  -- package (unless no session could be made for it), the upload or not, the
  -- installation of the package, its removal, and the change of owner; and nothing else. If it fails,
  -- it has sent the commands up to some point of this list.
  pub provision-Follows :
      (n : Node) (package_path : String)
      → Follows Pooled (provision_plan n.client package_path) (provision n package_path)
  unfolding provision provision_plan commands
  provision-Follows n package_path =
      Follows-bind Pooled _ _ _ _ (Follows-wrapped Pooled _ _ _ (install_deps-Follows n)) (λ _.
        Follows-bind Pooled _ _ _ _ (Follows-wrapped Pooled _ _ _ (uninstall_cb-Follows n)) (λ _.
          Follows-bind Pooled _ _ _ _
            (Follows-wrapped Pooled _ _ _ (install_cb-Follows n package_path))
            (λ _. Follows-silent Pooled _ _ _ (Follows-perform Pooled (sleep 30) (λ y. refl)) (λ _.
              Follows-bind Pooled _ _ _ _
                (Follows-wrapped Pooled _ _ _ (give_cb_permissions-Follows n))
                (λ _. Follows-pure Pooled tt)))))
