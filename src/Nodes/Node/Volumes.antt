-- ===== src/Nodes/Node/Volumes.antt =====
-- Which volume `ExtractLastVolumeName` picks.
use cbtools_autobench.Base.{
  ◌≡◌, refl, String, ◌==◌, List, [], ◌∷◌, ◌++◌, if◌then◌else◌, arith, split, fields, ◌∙◌,
}
use cbtools_autobench.Result.{message, ok, err}
use cbtools_autobench.Nodes.Node.{disk_name, last_disk, extract_last_volume_name}

-- The name on a line of fields whose third is `disk`.
pub disk_of : List String → List String
disk_of (name ∷ size ∷ kind ∷ rest) = if kind == "disk" then name ∷ [] else []
disk_of _ = []

-- The names of the disks, in the order of the lines.
pub disks : List String → List String
disks [] = []
disks (line ∷ lines) = disk_of (fields line) ++ disks lines

pub last_or : String → List String → String
last_or name [] = name
last_or name (n ∷ names) = last_or n names

disk_name-last_or :
    (name : String) (fs names : List String)
    → last_or (disk_name name fs) names ≡ last_or name (disk_of fs ++ names)
unfolding disk_name disk_of last_or
disk_name-last_or name [] names = refl
disk_name-last_or name (a ∷ []) names = refl
disk_name-last_or name (a ∷ b ∷ []) names = refl
disk_name-last_or name (a ∷ b ∷ c ∷ rest) names = ground arith

last_disk-disks :
    (name : String) (lines : List String) → last_disk name lines ≡ last_or name (disks lines)
unfolding last_disk disks last_or
last_disk-disks name [] = refl
last_disk-disks name (line ∷ lines) =
    last_disk-disks (disk_name name (fields line)) lines
    ∙ disk_name-last_or name (fields line) (disks lines)

-- The volume is the name on the last line, of those that have at least three fields, whose third field
-- is `disk`; it is an error if there is no such line. (A field is never empty.)
pub extract_last_volume_name_lem :
    (output : String)
    → extract_last_volume_name output ≡ (
        let name = last_or "" (disks (split b'\n' output)) in
        if name == "" then err (message "no disk volume found in lsblk output") else ok name)
unfolding extract_last_volume_name
extract_last_volume_name_lem output = rw (last_disk-disks, extract_last_volume_name)
