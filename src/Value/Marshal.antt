-- ===== src/Value/Marshal.antt =====
-- The JSON forms of the package value: the MarshalJSON methods, and the tags of the other structs.
use cbtools_autobench.Base.{List, [], ◌∷◌, map, some}
use cbtools_autobench.Value.Blueprint.{
  NodeBlueprint, DataBlueprint, BucketBlueprint, ClusterBlueprint, BackupClientBlueprint, CbmConfig,
}
use cbtools_autobench.Value.Build.{extract_build}
use cbtools_autobench.Value.Formats.{Formats}
use cbtools_autobench.Value.Json.{
  Json, object, Tagged, if_text, if_number, if_true, if_items, if_map, fields_of,
}
use cbtools_autobench.Value.Stats.{Stats, residency_ratio}

unfoldable pub node_json : NodeBlueprint → Json
unfolding fields_of
node_json n = object (fields_of (if_text "host" n.host ∷ []))

unfoldable pub data_json : DataBlueprint → Json
unfolding fields_of
data_json d = object (
    fields_of (
      if_text "data_loader" d.data_loader
      ∷ if_number "items" d.items
      ∷ if_number "active_items" d.active_items
      ∷ if_number "size" d.size
      ∷ if_true "compressible" d.compressible
      ∷ if_number "load_threads" d.load_threads
      ∷ []))

unfoldable pub bucket_json : BucketBlueprint → Json
unfolding data_json fields_of
bucket_json b = object (
    fields_of (
      if_number "vbuckets" b.vbuckets
      ∷ if_text "type" b.bucket_type
      ∷ if_text "eviction_policy" b.eviction_policy
      ∷ if_true "compact" b.compact
      ∷ if_true "pitr_enabled" b.pitr_enabled
      ∷ if_number "pitr_granularity" b.pitr_granularity
      ∷ if_number "pitr_max_history_age" b.pitr_max_history_age
      ∷ ("data", some (data_json b.dataset))
      ∷ []))

-- ClusterBlueprint.MarshalJSON
unfoldable pub cluster_json : ClusterBlueprint → Json
unfolding extract_build node_json bucket_json fields_of
cluster_json c = object (
    fields_of (
      if_text "version" (extract_build c.package_path)
      ∷ if_items "nodes" (map node_json c.nodes)
      ∷ ("bucket", some (bucket_json c.bucket))
      ∷ if_true "developer_preview" c.developer_preview
      ∷ []))

-- BackupClientBlueprint.MarshalJSON
unfoldable pub client_json : BackupClientBlueprint → Json
unfolding extract_build fields_of
client_json b =
    object
      (fields_of (if_text "host" b.host ∷ if_text "version" (extract_build b.package_path) ∷ []))

-- The fields of CBMConfig, whose access key is left out
abbrev pub cbm_fields : CbmConfig → List Tagged
cbm_fields c =
    if_map "environment_variables" c.env_vars
    ∷ if_text "archive" c.archive
    ∷ if_text "repository" c.repository
    ∷ if_text "storage" c.storage
    ∷ if_text "obj_staging_directory" c.obj_staging_directory
    ∷ if_text "obj_region" c.obj_region
    ∷ if_text "obj_endpoint" c.obj_endpoint
    ∷ if_true "obj_auth_by_instance_metadata" c.obj_auth_by_instance_metadata
    ∷ if_true "obj_no_ssl_verify" c.obj_no_ssl_verify
    ∷ if_text "s3_log_level" c.s3_log_level
    ∷ if_true "s3_force_path_style" c.s3_force_path_style
    ∷ if_true "encrypted" c.encrypted
    ∷ if_text "passphrase" c.passphrase
    ∷ if_text "encryption_algo" c.encryption_algo
    ∷ if_number "threads" c.threads
    ∷ if_true "pitr" c.pitr
    ∷ if_true "blackhole" c.blackhole
    ∷ []

unfoldable pub cbm_json : CbmConfig → Json
unfolding fields_of
cbm_json c = object (fields_of (cbm_fields c))

-- Stats.MarshalJSON
unfoldable pub stats_json : Formats → Stats → Json
unfolding residency_ratio fields_of
stats_json format s = object (
    fields_of (
      if_number "item_count" s.item_count
      ∷ if_text "memory_used" (format.bytes s.mem_used)
      ∷ if_text "disk_used" (format.bytes s.disk_used)
      ∷ if_number "residency_ratio" (residency_ratio s.item_count s.vb_active_num_non_resident)
      ∷ []))
