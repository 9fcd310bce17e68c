-- ===== src/Nodes/Node/Partition.antt =====
-- Which commands checkAndPartitionEBS of nodes/node.go sends to a volume.
use cbtools_autobench.Base.{String, Bool, true, false, if◌then◌else◌, [], ◌∷◌}
use cbtools_autobench.Value.Format.{str, sprintf}
use cbtools_autobench.Value.Command.{new_command}
use cbtools_autobench.Effect.Process.{pure}
use cbtools_autobench.Effect.Runs.{Pooling}
use cbtools_autobench.Effect.Plan.{Plan, nothing, must, may, both}
use cbtools_autobench.Effect.Follows.{
  Follows, Follows-bind, Follows-pure, Follows-embedded, Follows-lift,
}
use cbtools_autobench.Effect.FollowsSome.{
  FollowsSome, FollowsSome-given, FollowsSome-bind, FollowsSome-along,
}
use cbtools_autobench.Ssh.Client.{remote_line, succeeded}
use cbtools_autobench.Ssh.Client.Plans.{execute_command-Follows, caught-may}
use cbtools_autobench.Nodes.Node.{Node, step, partition, check_and_partition_ebs}

abbrev pub send : Node → String → Plan
send n line = must n.client.host (remote_line (new_command line []))

-- The four commands that make a file system on a volume.
abbrev pub format_plan : Node → String → Plan
format_plan n volume = both (send n (sprintf "echo ',,,;' | sfdisk /dev/%s" (str volume ∷ []))) (
    both (send n (sprintf "mkfs.xfs /dev/%sp1" (str volume ∷ []))) (
      both (send n (sprintf "mount /dev/%sp1 /mnt" (str volume ∷ [])))
        (both (send n "chmod 777 /mnt") nothing)))

abbrev pub check_line : String → String
check_line volume =
    sprintf "lsblk /dev/%s | grep %s"
      (str volume ∷ str (sprintf "/dev/%sp1" (str volume ∷ [])) ∷ [])

-- What is sent if the last volume is this one, and has been found to be partitioned or not.
abbrev pub ebs_plan : Node → String × Bool → Plan
ebs_plan n (volume, found) = both (send n "lsblk -o NAME,SIZE,TYPE,MOUNTPOINT") (
    both nothing (
      both (send n (sprintf "lsblk | grep %s" (str volume ∷ []))) (
        both (may n.client.host (remote_line (new_command (check_line volume) [])))
          (if found then nothing else format_plan n volume))))

module _ {W : Type 0} (Pooled : Pooling W) where
  step-Follows :
      (n : Node) (context line : String) → Follows Pooled (send n line) (step n context line)
  unfolding step
  step-Follows n context line =
      Follows-embedded Pooled _ _ _ (execute_command-Follows Pooled n.client _)

  partition-Follows :
      (n : Node) (volume : String) → Follows Pooled (format_plan n volume) (partition n volume)
  unfolding partition
  partition-Follows n volume = Follows-bind Pooled _ _ _ _ (step-Follows n _ _) (λ _.
      Follows-bind Pooled _ _ _ _ (step-Follows n _ _) (λ _.
        Follows-bind Pooled _ _ _ _ (step-Follows n _ _)
          (λ _. Follows-bind Pooled _ _ _ _ (step-Follows n _ _) (λ _. Follows-pure Pooled tt))))

  branch :
      (n : Node) (volume : String) (b : Bool)
      → FollowsSome Pooled
          (λ found. if found then nothing else format_plan n volume)
          (if b then pure tt else partition n volume)
  branch n volume true = FollowsSome-given Pooled _ true _ (Follows-pure Pooled tt)
  branch n volume false = FollowsSome-given Pooled _ false _ (partition-Follows n volume)

  -- On every run there is one volume such that the method lists the volumes, looks for this volume and
  -- for its partition, and then sends nothing, or the commands that partition, format and mount just
  -- this volume, in this order; if it fails, it has stopped within this list.
  pub check_and_partition_ebs-FollowsSome :
      (n : Node) → FollowsSome Pooled (ebs_plan n) (check_and_partition_ebs n)
  unfolding check_and_partition_ebs
  check_and_partition_ebs-FollowsSome n =
      FollowsSome-bind Pooled _ _ ("", true) _ _ (step-Follows n _ _)
        (λ volumes.
          FollowsSome-bind Pooled _ _ ("", true) _ _
            (Follows-embedded Pooled _ _ _ (Follows-lift Pooled _))
            (λ volume.
              FollowsSome-along Pooled _ (λ found. (volume, found)) _
                (FollowsSome-bind Pooled _ _ true _ _ (step-Follows n _ _) (λ _.
                  FollowsSome-bind Pooled _ _ true _ _
                    (caught-may Pooled _ (execute_command-Follows Pooled n.client _))
                    (λ found. branch n volume (succeeded found))))))
