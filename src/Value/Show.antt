-- ===== src/Value/Show.antt =====
-- The String methods of value/*.go: the tables of the report. Blueprints are there; an environment is a
-- list in the order in which the map is visited.
use cbtools_autobench.Base.{
  ℕ, ◌+◌, String, ◌<>◌, ◌==◌, not, Bool, true, false, ◌&&◌, List, [], ◌∷◌, map, eqb, if◌then◌else◌,
  trim_space,
}
use cbtools_autobench.Value.Format.{itoa}
use cbtools_autobench.Value.Blueprint.{
  NodeBlueprint, DataBlueprint, BucketBlueprint, ClusterBlueprint, BackupClientBlueprint, CbmConfig,
  pillowfight,
}
use cbtools_autobench.Value.Build.{extract_build}
use cbtools_autobench.Value.Formats.{Formats}
use cbtools_autobench.Value.Stats.{Stats, residency_ratio}
use cbtools_autobench.Value.Table.{Row, table}

-- `%t`
abbrev pub show_bool : Bool → String
show_bool true = "true"
show_bool false = "false"

-- A setting, or what stands for its zero value.
abbrev text_or : String → String → String
text_or zero s = if not (s == "") then s else zero

abbrev number_or : String → ℕ → String
number_or zero n = if not (eqb n 0) then itoa n else zero

-- CBMEnvironment.String
unfoldable pub environment_rows : List (String × String) → List Row
environment_rows env =
    ("| Key" ∷ " Value" ∷ []) ∷ map (λ (key, value). ("| " <> key) ∷ (" " <> value) ∷ []) env

unfoldable pub environment_string : List (String × String) → String
unfolding table environment_rows
environment_string env =
    "| CBM Environment Variables\n| -------------------------\n" <> table (environment_rows env)

-- CBMConfig.String
unfoldable pub cbm_rows : CbmConfig → List Row
cbm_rows c =
    ("| Archive" ∷ " Repository" ∷ " Staging Directory" ∷ " Storage" ∷ " Threads" ∷ " PiTR"
      ∷ " Blackhole" ∷ [])
    ∷ (("| " <> c.archive)
        ∷ (" " <> c.repository)
        ∷ (" " <> text_or "N/A" c.obj_staging_directory)
        ∷ (" " <> text_or "default" c.storage)
        ∷ (" " <> number_or "auto" c.threads)
        ∷ (" " <> show_bool c.pitr)
        ∷ (" " <> show_bool c.blackhole)
        ∷ [])
    ∷ []

unfoldable pub cbm_string : CbmConfig → String
unfolding table cbm_rows environment_string
cbm_string c =
    let text = "| CBM\n| ----\n" <> table (cbm_rows c) in
    trim_space
      (elim c.env_vars [ [] ↦ text | v ∷ vs ↦ text <> ("\n" <> environment_string (v ∷ vs)) ])

-- stringifyPiTRSettings
unfoldable pub stringify_pitr_settings : BucketBlueprint → String × String
stringify_pitr_settings b =
    if not b.pitr_enabled
    then ("N/A", "N/A")
    else (number_or "default" b.pitr_granularity, number_or "default" b.pitr_max_history_age)

-- BucketBlueprint.String
unfoldable pub bucket_rows : BucketBlueprint → List Row
unfolding stringify_pitr_settings
bucket_rows b =
    let (granularity, max_history_age) = stringify_pitr_settings b in
    ("| vBuckets" ∷ " Type" ∷ " Eviction Policy" ∷ " PiTR Enabled" ∷ " PiTR Granularity"
      ∷ " PiTR Max History Age" ∷ " Compact" ∷ [])
    ∷ (("| " <> number_or "default" b.vbuckets)
        ∷ (" " <> text_or "default" b.bucket_type)
        ∷ (" " <> text_or "default" b.eviction_policy)
        ∷ (" " <> show_bool b.pitr_enabled)
        ∷ (" " <> granularity)
        ∷ (" " <> max_history_age)
        ∷ (" " <> show_bool b.compact)
        ∷ [])
    ∷ []

-- BackupClientBlueprint.String
unfoldable pub client_rows : BackupClientBlueprint → List Row
unfolding extract_build
client_rows b =
    ("| Version" ∷ " Host" ∷ [])
    ∷ (("| " <> extract_build b.package_path) ∷ (" " <> b.host) ∷ [])
    ∷ []

unfoldable pub client_string : BackupClientBlueprint → String
unfolding table client_rows
client_string b = trim_space ("| Backup Client\n| -------------\n" <> table (client_rows b))

-- The rows of the nodes, from the given index on.
unfoldable pub node_rows : ClusterBlueprint → ℕ → List NodeBlueprint → List Row
unfolding extract_build
node_rows c i [] = []
node_rows c i (n ∷ ns) =
    (("| " <> itoa (i + 1))
      ∷ (" " <> extract_build c.package_path)
      ∷ (" " <> n.host)
      ∷ (" " <> show_bool c.developer_preview)
      ∷ [])
    ∷ node_rows c (i + 1) ns

unfoldable pub cluster_rows : ClusterBlueprint → List Row
unfolding node_rows
cluster_rows c =
    ("| Node" ∷ " Version" ∷ " Host" ∷ " Developer Preview" ∷ []) ∷ node_rows c 0 c.nodes

module _ (format : Formats) where
  -- DataBlueprint.String. `uint64` of the size leaves it as it is, as it is not negative.
  unfoldable pub data_rows : DataBlueprint → List Row
  data_rows d =
      let active =
        if d.data_loader == pillowfight && not (eqb d.active_items 0)
        then format.english d.active_items
        else "N/A" in
      ("| Data Loader" ∷ " Items" ∷ " Active Items" ∷ " Size" ∷ " Compressible" ∷ " Load Threads"
        ∷ [])
      ∷ (("| " <> d.data_loader)
          ∷ (" " <> format.english d.items)
          ∷ (" " <> active)
          ∷ (" " <> format.bytes d.size)
          ∷ (" " <> show_bool d.compressible)
          ∷ (" " <> number_or "auto" d.load_threads)
          ∷ [])
      ∷ []

  unfoldable pub data_string : DataBlueprint → String
  unfolding table data_rows
  data_string d = "| Data\n| ----\n" <> table (data_rows d)

  unfoldable pub bucket_string : BucketBlueprint → String
  unfolding table bucket_rows data_string
  bucket_string b =
      "| Bucket\n| ------\n" <> (table (bucket_rows b) <> ("\n" <> data_string b.dataset))

  -- ClusterBlueprint.String
  unfoldable pub cluster_string : ClusterBlueprint → String
  unfolding table cluster_rows bucket_string
  cluster_string c =
      trim_space
        ("| Cluster\n| -------\n" <> (table (cluster_rows c) <> ("\n" <> bucket_string c.bucket)))

  -- Stats.String
  unfoldable pub stats_rows : Stats → List Row
  unfolding residency_ratio
  stats_rows s =
      ("| Item Count" ∷ " Memory Used" ∷ " Disk Used" ∷ " Residency Ratio" ∷ [])
      ∷ (("| " <> format.english s.item_count)
          ∷ (" " <> format.bytes s.mem_used)
          ∷ (" " <> format.bytes s.disk_used)
          ∷ (" " <> (itoa (residency_ratio s.item_count s.vb_active_num_non_resident) <> "%"))
          ∷ [])
      ∷ []

  unfoldable pub stats_string : Stats → String
  unfolding table stats_rows
  stats_string s = trim_space ("| Stats\n| -----\n" <> table (stats_rows s))
