-- ===== src/Ssh/Utils.antt =====
-- ssh/utils.go: one remote command, and the platform of a machine. Log output is not modelled.
pub mod Platforms
pub mod TrimPort
use cbtools_autobench.Base.{
  String, ◌<>◌, ◌==◌, ◌||◌, [], ◌∷◌, Option, none, some, if◌then◌else◌, trim_space, trim_prefix,
  trim_suffix, up_to,
}
use cbtools_autobench.Result.{message, Result, ok, err, panic}
use cbtools_autobench.Value.Format.{str, sprintf}
use cbtools_autobench.Value.Command.{Command, new_command, to_string}
use cbtools_autobench.Value.Platform.{Platform, platform_ubuntu20_04, platform_amazon_linux2}
use cbtools_autobench.Effect.Process.{
  Request, read_file, parse_key, parse_key_with_passphrase, new_session, combined_output,
  close_session, Exec, call, perform, caught, lift, wrapped, ◌>>=◌, ◌>>◌,
}

-- trimPort. The slice `s[:-1]` of a text without a colon panics.
unfoldable pub trim_port : String → Result String
unfolding up_to
trim_port s = elim (up_to b':' s) [
  | none ↦ panic "slice bounds out of range"
  | some front ↦ if front == "" then ok s else ok front
]

module _ {W : Type 0} where
  -- `defer`: the request is made when `m` is left, on each path that does not end the process.
  unfoldable pub deferred : {A : Type 0} → Request → Exec W A → Exec W A
  deferred r m = do result ← caught m; perform r; lift result

  -- parsePrivateKey
  unfoldable pub parse_private_key : String → String → Exec W String
  parse_private_key path passphrase = do
    text ← wrapped (sprintf "failed to read file at '%s'" (str path ∷ [])) (call (read_file path))
    if passphrase == ""
        then call (parse_key text)
        else call (parse_key_with_passphrase text passphrase)

  -- executeCommand
  unfoldable pub execute : String → String → Exec W String
  unfolding deferred
  execute host command = do
    wrapped "failed to create session" (call (new_session host))
    deferred (close_session host) (call (combined_output host command))

unfoldable pub determine_ubuntu_platform : String → Result Platform
determine_ubuntu_platform release =
    if release == "20.04"
    then ok platform_ubuntu20_04
    else err (message ("unsupported ubuntu release '" <> (release <> "'")))

unfoldable pub determine_amazon_linux_platform : String → Result Platform
determine_amazon_linux_platform release =
    if release == "2" || release == "2023"
    then ok platform_amazon_linux2
    else err (message ("unsupported amazon linux release '" <> (release <> "'")))

-- What `determinePlatform` makes of the outputs of its two commands.
unfoldable pub platform_of : String → String → Result Platform
unfolding determine_ubuntu_platform determine_amazon_linux_platform
platform_of distro release =
    let distro = trim_suffix b'"' (trim_prefix b'"' (trim_space distro)) in
    if distro == "ubuntu"
    then determine_ubuntu_platform (trim_space release)
    else if distro == "amzn"
    then determine_amazon_linux_platform (trim_space release)
    else err (message ("unsupported distro '" <> (trim_space distro <> "'")))

unfoldable pub distro_line : Command
unfolding new_command
distro_line = new_command "cat /etc/os-release | grep '^ID=' | cut -c4-" []

unfoldable pub release_line : Command
unfolding new_command
release_line =
    new_command "cat /etc/os-release | grep '^VERSION_ID=' | cut -c13- | rev | cut -c2- | rev" []

module _ {W : Type 0} where
  -- determinePlatform
  unfoldable pub determine_platform : String → Exec W Platform
  unfolding to_string
  determine_platform host = do
    distro ← wrapped "failed to determine distribution" (execute host (to_string distro_line []))
    release ← wrapped "failed to determine version" (execute host (to_string release_line []))
    lift (platform_of distro release)
