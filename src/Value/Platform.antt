-- ===== src/Value/Platform.antt =====
-- value/platform.go: what differs between the supported Linux distributions. A `Platform` is a text,
-- and a method called on a text that is no supported platform panics.
pub mod Laws
use cbtools_autobench.Base.{String, ◌<>◌, List, [], ◌∷◌, ◌==◌, ◌||◌, if◌then◌else◌}
use cbtools_autobench.Result.{Result, ok, panic}
use cbtools_autobench.Value.Format.{str, sprintf}
use cbtools_autobench.Value.Command.{Command, new_command}

abbrev pub Platform : Type 0
Platform = String

abbrev pub platform_ubuntu20_04 : Platform
platform_ubuntu20_04 = "ubuntu20.04"

abbrev pub platform_amazon_linux2 : Platform
platform_amazon_linux2 = "amzn2"

-- The `panic` that ends each method.
abbrev unsupported : {A : Type 0} → Platform → Result A
unsupported p = panic ("unsupported platform '" <> p <> "'")

-- strings.Join(packages, " ")
join : List String → String
join [] = ""
join (p ∷ []) = p
join (p ∷ q ∷ ps) = p <> (" " <> join (q ∷ ps))

-- The two cases of the `switch` and its panic, which all methods share but the last.
abbrev by_platform : {A : Type 0} → Platform → A → A → Result A
by_platform p ubuntu amazon =
    if p == platform_ubuntu20_04
    then ok ubuntu
    else if p == platform_amazon_linux2
    then ok amazon
    else unsupported p

unfoldable pub package_extension : Platform → Result String
package_extension p = by_platform p "deb" "rpm"

unfoldable pub dependencies : Platform → Result (List String)
dependencies p = by_platform p ("awscli" ∷ "libtinfo5" ∷ []) ("awscli" ∷ "ncurses-compat-libs" ∷ [])

unfoldable pub command_install_package_at : Platform → String → Result Command
unfolding new_command
command_install_package_at p path =
    by_platform p (new_command "dpkg -i %s" (str path ∷ []))
      (new_command "yum install -y %s" (str path ∷ []))

unfoldable pub command_install_packages : Platform → List String → Result Command
unfolding new_command join
command_install_packages p packages =
    by_platform p (new_command "apt update && apt install -y %s" (str (join packages) ∷ []))
      (new_command "yum update -y && yum install -y %s" (str (join packages) ∷ []))

unfoldable pub command_uninstall_packages : Platform → List String → Result Command
unfolding new_command join
command_uninstall_packages p packages =
    by_platform p (new_command "dpkg --purge %s" (str (join packages) ∷ []))
      (new_command "yum autoremove -y %s" (str (join packages) ∷ []))

unfoldable pub command_disable_couchbase : Platform → Result Command
unfolding new_command
command_disable_couchbase p =
    if p == platform_ubuntu20_04 || p == platform_amazon_linux2
    then ok (new_command "systemctl disable --now couchbase-server" [])
    else unsupported p
