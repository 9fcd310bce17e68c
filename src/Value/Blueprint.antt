-- ===== src/Value/Blueprint.antt =====
-- value/{blueprint,cluster,node,bucket,data,backup_client,benchmark,cbbackupmgr,ssh,config,info}.go:
-- the configuration, as it is decoded from the YAML file. Pointers are taken to be set, as in a
-- complete file, and numbers not to be negative. The types of a platform and of a data loader are
-- texts in the source too.
use cbtools_autobench.Base.{ℕ, String, Bool, List}

pub record SshConfig : Type 0 where
  pub username : String
  pub private_key : String
  pub private_key_passphrase : String

pub record NodeBlueprint : Type 0 where
  pub host : String
  pub data_path : String
  pub index_path : String

abbrev pub DataLoaderType : Type 0
DataLoaderType = String

abbrev pub cbm : DataLoaderType
cbm = "cbbackupmgr"

abbrev pub pillowfight : DataLoaderType
pillowfight = "pillowfight"

pub record DataBlueprint : Type 0 where
  pub data_loader : DataLoaderType
  pub items : ℕ
  pub active_items : ℕ
  pub size : ℕ
  pub compressible : Bool
  pub load_threads : ℕ

pub record BucketBlueprint : Type 0 where
  pub vbuckets : ℕ
  pub bucket_type : String
  pub eviction_policy : String
  pub compact : Bool
  pub pitr_enabled : Bool
  pub pitr_granularity : ℕ
  pub pitr_max_history_age : ℕ
  pub dataset : DataBlueprint

pub record ClusterBlueprint : Type 0 where
  pub package_path : String
  pub nodes : List NodeBlueprint
  pub bucket : BucketBlueprint
  pub developer_preview : Bool

pub record BackupClientBlueprint : Type 0 where
  pub host : String
  pub package_path : String
  pub cbm_path : String

pub record Blueprint : Type 0 where
  pub cluster : ClusterBlueprint
  pub backup_client : BackupClientBlueprint

-- CBMEnvironment is a map: it is listed in the order in which a `range` visits it.
pub record CbmConfig : Type 0 where
  pub env_vars : List (String × String)
  pub archive : String
  pub repository : String
  pub storage : String
  pub obj_staging_directory : String
  pub obj_access_key_id : String
  pub obj_secret_access_key : String
  pub obj_region : String
  pub obj_endpoint : String
  pub obj_auth_by_instance_metadata : Bool
  pub obj_no_ssl_verify : Bool
  pub s3_log_level : String
  pub s3_force_path_style : Bool
  pub encrypted : Bool
  pub passphrase : String
  pub encryption_algo : String
  pub threads : ℕ
  pub pitr : Bool
  pub blackhole : Bool

pub record BenchmarkConfig : Type 0 where
  pub iterations : ℕ
  pub cbm_config : CbmConfig

pub record AutobenchConfig : Type 0 where
  pub ssh_config : SshConfig
  pub blueprint : Blueprint
  pub benchmark_config : BenchmarkConfig

pub record BackupInfo : Type 0 where
  pub backup_size : ℕ
  pub items_num : ℕ
