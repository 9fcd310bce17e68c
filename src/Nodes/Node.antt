-- ===== src/Nodes/Node.antt =====
-- nodes/node.go: a connection to a Couchbase Server node. Log output is not modelled.
pub mod Volumes
pub mod Provision
pub mod Upload
pub mod Blame
pub mod Partition
use cbtools_autobench.Base.{
  String, ◌<>◌, ◌==◌, Bool, ◌||◌, not, List, [], ◌∷◌, if◌then◌else◌, split, fields,
}
use cbtools_autobench.Result.{message, Result, ok, err}
use cbtools_autobench.Value.Format.{str, sprintf}
use cbtools_autobench.Value.Command.{new_command}
use cbtools_autobench.Value.Blueprint.{SshConfig, NodeBlueprint}
use cbtools_autobench.Value.Platform.{dependencies, command_disable_couchbase}
use cbtools_autobench.Ssh.Client
use cbtools_autobench.Ssh.Client.{Client, cb_install_directory, succeeded}
use cbtools_autobench.Effect.Process.{
  sleep, Exec, perform, caught, embedded, ignored, lift, pure, wrapped, ◌>>=◌, ◌>>◌,
}

pub record Node : Type 0 where
  pub blueprint : NodeBlueprint
  pub client : Client

-- The last element of a path, for filepath.Base: what stands behind the last slash, where trailing
-- slashes do not count; `.` for an empty path and `/` for one of slashes only.
last_part : String → List String → String
last_part found [] = found
last_part found (s ∷ rest) = last_part (if s == "" then found else s) rest

unfoldable pub base : String → String
unfolding last_part split
base path =
    if path == ""
    then "."
    else let part = last_part "" (split b'/' path) in if part == "" then "/" else part

-- The fields of one line, and the name of the volume found so far.
disk_name : String → List String → String
disk_name last (name ∷ size ∷ kind ∷ rest) = if kind == "disk" then name else last
disk_name last _ = last

last_disk : String → List String → String
unfolding disk_name fields
last_disk last [] = last
last_disk last (line ∷ lines) = last_disk (disk_name last (fields line)) lines

-- ExtractLastVolumeName
unfoldable pub extract_last_volume_name : String → Result String
unfolding last_disk split
extract_last_volume_name output =
    let name = last_disk "" (split b'\n' output) in
    if name == "" then err (message "no disk volume found in lsblk output") else ok name

-- filepath.Join("/home/ec2-user", filepath.Base(localPath)): `Join` drops the `.` of an empty path and
-- the `/` of a path of slashes.
unfoldable pub remote_package : String → String
unfolding base
remote_package local_path =
    let name = base local_path in
    if name == "." || name == "/"
    then "/home/ec2-user"
    else if name == ".."
    then "/home"
    else "/home/ec2-user/" <> name

-- The command line that initializeCB builds.
unfoldable pub init_line : NodeBlueprint → String
unfolding sprintf
init_line b =
    let init : String = "couchbase-cli node-init -c localhost:8091 -u Administrator -p asdasd" in
    let init : String =
      if not (b.data_path == "")
      then init <> sprintf " --node-init-data-path %s" (str b.data_path ∷ [])
      else init in
    if not (b.index_path == "")
    then init <> sprintf " --node-init-index-path %s" (str b.index_path ∷ [])
    else init

module _ {W : Type 0} where
  -- NewNode
  unfoldable pub new_node : SshConfig → NodeBlueprint → Exec W Node
  new_node config blueprint = do
    client ← wrapped "failed to create ssh client" (Client.new_client blueprint.host config)
    pure (record { blueprint = blueprint; client = client })

  unfoldable pub install_deps : Node → Exec W Unit
  install_deps n = do
    packages ← lift (dependencies n.client.platform)
    Client.install_packages n.client packages

  unfoldable pub uninstall_cb : Node → Exec W Unit
  uninstall_cb n = do
    wrapped "failed to uninstall 'couchbase-server'"
        (Client.uninstall_packages n.client ("couchbase-server" ∷ []))
    wrapped "failed to cleanup install directory at '/opt/couchbase'"
        (Client.remove_directory n.client cb_install_directory)
    pure tt

  unfoldable pub install_cb : Node → String → Exec W Unit
  install_cb n local_path = do
    let remote_path = remote_package local_path
    wrapped "failed to upload package archive"
        (Client.secure_upload n.client local_path remote_path)
    wrapped "failed to install 'couchbase-server'" (Client.install_package_at n.client remote_path)
    wrapped "failed to remove package archive" (Client.remove_file n.client remote_path)
    pure tt

  unfoldable pub give_cb_permissions : Node → Exec W Unit
  give_cb_permissions n = do
    embedded "failed to change permissions on /mnt"
        (Client.execute_command n.client (new_command "sudo chown -R couchbase:couchbase /mnt" []))
    pure tt

  unfoldable pub provision : Node → String → Exec W Unit
  provision n package_path = do
    wrapped "failed to install dependencies" (install_deps n)
    wrapped "failed to uninstall Couchbase Server" (uninstall_cb n)
    wrapped "failed to install Couchbase Server" (install_cb n package_path)
    perform (sleep 30)
    wrapped "failed to give Couchbase Server permissions" (give_cb_permissions n)
    pure tt

  -- The two commands of createDataPath and of createIndexPath, for a path and its name in errors.
  unfoldable pub make_path : Node → String → String → Exec W Unit
  make_path n path name = do
    wrapped ("failed to create remote " <> (name <> " directory"))
        (Client.execute_command n.client (new_command "mkdir -p %s" (str path ∷ [])))
    wrapped ("failed to chown remote " <> (name <> " directory")) (
        Client.execute_command n.client
          (new_command "chown -R couchbase:couchbase %s" (str path ∷ [])))
    pure tt

  unfoldable pub create_data_path : Node → Exec W Unit
  create_data_path n =
      if n.blueprint.data_path == "" then pure tt else make_path n n.blueprint.data_path "data"

  unfoldable pub create_index_path : Node → Exec W Unit
  create_index_path n =
      if n.blueprint.index_path == "" then pure tt else make_path n n.blueprint.index_path "index"

  unfoldable pub initialize_cb : Node → Exec W Unit
  initialize_cb n =
      ignored (Client.execute_command n.client (new_command (init_line n.blueprint) []))

  unfoldable pub disable_cb : Node → Exec W Unit
  disable_cb n = do
    command ← lift (command_disable_couchbase n.client.platform)
    ignored (Client.execute_command n.client command)

  unfoldable pub login_as_root : Node → Exec W Unit
  login_as_root n = Client.login_as_root n.client

  -- One command of checkAndPartitionEBS, whose error ends the method.
  step : Node → String → String → Exec W String
  step n context line = embedded context (Client.execute_command n.client (new_command line []))

  -- From `sfdisk` on, for a volume that is not partitioned.
  unfoldable pub partition : Node → String → Exec W Unit
  unfolding step sprintf
  partition n volume = do
    step n "failed to partition EBS volume"
        (sprintf "echo ',,,;' | sfdisk /dev/%s" (str volume ∷ []))
    step n "failed to make mkfs file structure" (sprintf "mkfs.xfs /dev/%sp1" (str volume ∷ []))
    step n "failed to mount /mnt on EBS volume" (sprintf "mount /dev/%sp1 /mnt" (str volume ∷ []))
    step n "failed to change permissions on /mnt" "chmod 777 /mnt"
    pure tt

  -- checkAndPartitionEBS
  unfoldable pub check_and_partition_ebs : Node → Exec W Unit
  unfolding step sprintf
  check_and_partition_ebs n = do
    volumes ← step n "failed to check for all volumes" "lsblk -o NAME,SIZE,TYPE,MOUNTPOINT"
    volume ← embedded "failed to extract last volume name" (lift (extract_last_volume_name volumes))
    step n "failed to check for EBS volume" (sprintf "lsblk | grep %s" (str volume ∷ []))
    let partitioned = sprintf "/dev/%sp1" (str volume ∷ [])
    found ← caught (
        Client.execute_command n.client
          (new_command (sprintf "lsblk /dev/%s | grep %s" (str volume ∷ str partitioned ∷ [])) []))
    if succeeded found then pure tt else partition n volume

  unfoldable pub close : Node → Exec W Unit
  close n = Client.close n.client
