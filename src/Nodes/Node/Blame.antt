-- ===== src/Nodes/Node/Blame.antt =====
-- Provisioning a node fails only if a call to it has failed.
use cbtools_autobench.Base.{String, ◌==◌}
use cbtools_autobench.Value.Platform.Laws.{IsSupported, IsSupported-iff-NeverPanics}
use cbtools_autobench.Effect.Runs.{Pooling}
use cbtools_autobench.Effect.Blame.{
  Blames, Blames-bind, Blames-lift_bind, Blames-if, Blames-pure, Blames-wrapped, Blames-embedded,
  Blames-perform,
}
use cbtools_autobench.Ssh.Client.Blame.{
  execute_command-Blames, ignored-Blames, platform-Blames, secure_upload-Blames,
  install_package_at-Blames, install_packages-Blames, uninstall_packages-Blames, remove_file-Blames,
  remove_directory-Blames,
}
use cbtools_autobench.Nodes.Node.{
  Node, install_deps, uninstall_cb, install_cb, give_cb_permissions, provision, make_path,
  create_data_path, create_index_path, initialize_cb, disable_cb,
}

module _ {W : Type 0} (Pooled : Pooling W) where
  install_deps-Blames : (n : Node) → IsSupported n.client.platform → Blames Pooled (install_deps n)
  unfolding install_deps
  install_deps-Blames n h =
      Blames-lift_bind Pooled _ _ ((IsSupported-iff-NeverPanics n.client.platform).0 h).deps
        (λ packages. install_packages-Blames Pooled n.client packages h)

  uninstall_cb-Blames : (n : Node) → IsSupported n.client.platform → Blames Pooled (uninstall_cb n)
  unfolding uninstall_cb
  uninstall_cb-Blames n h =
      Blames-bind Pooled _ _
        (Blames-wrapped Pooled _ _ (uninstall_packages-Blames Pooled n.client _ h))
        (λ _.
          Blames-bind Pooled _ _
            (Blames-wrapped Pooled _ _ (remove_directory-Blames Pooled n.client _))
            (λ _. Blames-pure Pooled tt))

  install_cb-Blames :
      (n : Node) (path : String) → IsSupported n.client.platform → Blames Pooled (install_cb n path)
  unfolding install_cb
  install_cb-Blames n path h =
      Blames-bind Pooled _ _
        (Blames-wrapped Pooled _ _ (secure_upload-Blames Pooled n.client path _))
        (λ _.
          Blames-bind Pooled _ _
            (Blames-wrapped Pooled _ _ (install_package_at-Blames Pooled n.client _ h))
            (λ _.
              Blames-bind Pooled _ _
                (Blames-wrapped Pooled _ _ (remove_file-Blames Pooled n.client _))
                (λ _. Blames-pure Pooled tt)))

  pub provision-Blames :
      (n : Node) (path : String) → IsSupported n.client.platform → Blames Pooled (provision n path)
  unfolding provision give_cb_permissions
  provision-Blames n path h =
      Blames-bind Pooled _ _ (Blames-wrapped Pooled _ _ (install_deps-Blames n h)) (λ _.
        Blames-bind Pooled _ _ (Blames-wrapped Pooled _ _ (uninstall_cb-Blames n h)) (λ _.
          Blames-bind Pooled _ _ (Blames-wrapped Pooled _ _ (install_cb-Blames n path h)) (λ _.
            Blames-bind Pooled _ _ (Blames-perform Pooled _) (λ _.
              Blames-bind Pooled _ _
                (Blames-wrapped Pooled _ _ (
                  Blames-bind Pooled _ _
                    (Blames-embedded Pooled _ _ (execute_command-Blames Pooled n.client _))
                    (λ _. Blames-pure Pooled tt)))
                (λ _. Blames-pure Pooled tt)))))

  make_path-Blames : (n : Node) (path name : String) → Blames Pooled (make_path n path name)
  unfolding make_path
  make_path-Blames n path name =
      Blames-bind Pooled _ _ (Blames-wrapped Pooled _ _ (execute_command-Blames Pooled n.client _))
        (λ _.
          Blames-bind Pooled _ _
            (Blames-wrapped Pooled _ _ (execute_command-Blames Pooled n.client _))
            (λ _. Blames-pure Pooled tt))

  pub create_data_path-Blames : (n : Node) → Blames Pooled (create_data_path n)
  unfolding create_data_path
  create_data_path-Blames n =
      Blames-if Pooled (n.blueprint.data_path == "") _ _ (Blames-pure Pooled tt)
        (make_path-Blames n _ _)

  pub create_index_path-Blames : (n : Node) → Blames Pooled (create_index_path n)
  unfolding create_index_path
  create_index_path-Blames n =
      Blames-if Pooled (n.blueprint.index_path == "") _ _ (Blames-pure Pooled tt)
        (make_path-Blames n _ _)

  pub initialize_cb-Blames : (n : Node) → Blames Pooled (initialize_cb n)
  unfolding initialize_cb
  initialize_cb-Blames n = ignored-Blames Pooled n.client _

  pub disable_cb-Blames : (n : Node) → IsSupported n.client.platform → Blames Pooled (disable_cb n)
  unfolding disable_cb
  disable_cb-Blames n h =
      platform-Blames Pooled n.client _
        ((IsSupported-iff-NeverPanics n.client.platform).0 h).disable
