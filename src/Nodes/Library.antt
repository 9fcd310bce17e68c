-- ===== src/Nodes/Library.antt =====
-- What the package takes from libraries and is not modelled: the decoding of JSON into the fields that
-- the program reads, and filepath.Join.
use cbtools_autobench.Base.{ℕ, String, List, Option}
use cbtools_autobench.Result.{Result}
use cbtools_autobench.Value.Stats.{Stats}

-- A task of the cluster, as /pools/default/tasks lists it.
pub record ClusterTask : Type 0 where
  pub kind : String
  pub status : String

-- A backup as createBackup decodes the output of 'cbbackupmgr info'; of a bucket only
-- `total_mutations` is read.
pub record Backup : Type 0 where
  pub size : ℕ
  pub buckets : List ℕ

pub record Library : Type 0 where
  pub decode_tasks : String → Result (List ClusterTask)
  pub decode_stats : String → Result (Option Stats)
  pub decode_info : String → Result (List Backup)
  -- the dates of the backups, which purgeBackups decodes
  pub decode_dates : String → Result (List String)
  pub join_path : String → String → String
