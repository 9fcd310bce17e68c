-- ===== src/Value/Platform/Laws.antt =====
-- On which platforms the methods panic.
use cbtools_autobench.Base.{◌≡◌, ◌⊎◌, ◌↔◌, inl, inr, String, List, arith, eq_iff}
use cbtools_autobench.Result.{Succeeds}
use cbtools_autobench.Value.Platform.{
  Platform, by_platform, platform_ubuntu20_04, platform_amazon_linux2, package_extension,
  dependencies, command_install_package_at, command_install_packages, command_uninstall_packages,
  command_disable_couchbase,
}

-- The platforms that `determinePlatform` can return.
abbrev pub IsSupported : Platform → Type 0
IsSupported p = (p ≡ platform_ubuntu20_04) ⊎ (p ≡ platform_amazon_linux2)

-- No method panics.
pub record NeverPanics (p : Platform) : Type 0 where
  pub extension : Succeeds (package_extension p)
  pub deps : Succeeds (dependencies p)
  pub install_at : (path : String) → Succeeds (command_install_package_at p path)
  pub install : (packages : List String) → Succeeds (command_install_packages p packages)
  pub uninstall : (packages : List String) → Succeeds (command_uninstall_packages p packages)
  pub disable : Succeeds (command_disable_couchbase p)

by_platform-Succeeds :
    {A : Type 0} (p : Platform) (a b : A) → IsSupported p → Succeeds (by_platform p a b)
by_platform-Succeeds p a b (inl e) = ground (arith, eq_iff p platform_ubuntu20_04)
by_platform-Succeeds p a b (inr e) =
    ground (arith, eq_iff p platform_ubuntu20_04, eq_iff p platform_amazon_linux2)

disable-Succeeds : (p : Platform) → IsSupported p → Succeeds (command_disable_couchbase p)
unfolding command_disable_couchbase
disable-Succeeds p (inl e) = ground (arith, eq_iff p platform_ubuntu20_04)
disable-Succeeds p (inr e) =
    ground (arith, eq_iff p platform_ubuntu20_04, eq_iff p platform_amazon_linux2)

IsSupported→NeverPanics : (p : Platform) → IsSupported p → NeverPanics p
unfolding package_extension dependencies command_install_package_at command_install_packages
    command_uninstall_packages
IsSupported→NeverPanics p h = record {
  extension = by_platform-Succeeds p _ _ h;
  deps = by_platform-Succeeds p _ _ h;
  install_at = λ path. by_platform-Succeeds p _ _ h;
  install = λ packages. by_platform-Succeeds p _ _ h;
  uninstall = λ packages. by_platform-Succeeds p _ _ h;
  disable = disable-Succeeds p h;
}

NeverPanics→IsSupported : (p : Platform) → NeverPanics p → IsSupported p
unfolding command_disable_couchbase
NeverPanics→IsSupported p h =
    let d = h.disable in
    ground (arith, eq_iff p platform_ubuntu20_04, eq_iff p platform_amazon_linux2)

-- A platform has all its methods exactly if it is one of the two supported ones.
pub IsSupported-iff-NeverPanics : (p : Platform) → IsSupported p ↔ NeverPanics p
IsSupported-iff-NeverPanics p = (IsSupported→NeverPanics p, NeverPanics→IsSupported p)
