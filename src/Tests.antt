-- ===== src/Tests.antt =====
-- Test data and runs on it.
pub mod Cobra
pub mod Examples
pub mod Outcomes
pub mod Exits
pub mod Whole
use cbtools_autobench.Base.{
  ◌≡◌, refl, ℕ, String, ◌<>◌, Bool, true, false, List, [], ◌∷◌, ◌++◌, Option, none, some, length,
}
use cbtools_autobench.Result.{Result, ok, err, Succeeds}
use cbtools_autobench.Value.Blueprint.{
  NodeBlueprint, DataBlueprint, BucketBlueprint, ClusterBlueprint, BackupClientBlueprint, CbmConfig,
  BenchmarkConfig, cbm,
}
use cbtools_autobench.Value.Benchmark.{BenchmarkResult}
use cbtools_autobench.Value.Format.{itoa}
use cbtools_autobench.Value.Formats.{Formats}
use cbtools_autobench.Value.Platform.{platform_ubuntu20_04, platform_amazon_linux2}
use cbtools_autobench.Effect.Process.{
  Request, Reply, answer, curl, Question, interrupted, Gauge, Process, Task, Trace,
}
use cbtools_autobench.Effect.Simulate.{Environment, simulate, machine}
use cbtools_autobench.Nodes.Library.{Library, ClusterTask}
use cbtools_autobench.Nodes.Node.{Node}
use cbtools_autobench.Nodes.Cluster.{Cluster, Main}
use cbtools_autobench.Nodes.BackupClient.{BackupClient}

abbrev pub dataset : DataBlueprint
dataset = record {
  data_loader = cbm;
  items = 7;
  active_items = 2;
  size = 1024;
  compressible = false;
  load_threads = 0;
}

abbrev pub bucket : BucketBlueprint
bucket = record {
  vbuckets = 128;
  bucket_type = "";
  eviction_policy = "";
  compact = true;
  pitr_enabled = false;
  pitr_granularity = 0;
  pitr_max_history_age = 0;
  dataset = dataset;
}

abbrev pub first : Node
first = record {
  blueprint = record { host = "a"; data_path = "/data"; index_path = "" };
  client = record { host = "a"; user = "root"; platform = platform_ubuntu20_04 };
}

abbrev pub second : Node
second = record {
  blueprint = record { host = "b"; data_path = ""; index_path = "/index" };
  client = record { host = "b"; user = "root"; platform = platform_amazon_linux2 };
}

abbrev pub two_nodes : Cluster
two_nodes = record {
  blueprint = record {
    package_path = "/tmp/server.deb";
    nodes = first.blueprint ∷ second.blueprint ∷ [];
    bucket = bucket;
    developer_preview = true;
  };
  nodes = first ∷ second ∷ [];
}

abbrev pub client : BackupClient
client = record {
  blueprint = record { host = "c"; package_path = "/tmp/server.deb"; cbm_path = "" };
  node = record {
    blueprint = record { host = "c"; data_path = ""; index_path = "" };
    client = record { host = "c"; user = "root"; platform = platform_ubuntu20_04 };
  };
}

abbrev pub remote_archive : CbmConfig
remote_archive = record {
  env_vars = ("GOGC", "50") ∷ [];
  archive = "s3://bucket/archive";
  repository = "repo";
  storage = "rift";
  obj_staging_directory = "/staging";
  obj_access_key_id = "id";
  obj_secret_access_key = "key";
  obj_region = "us-east-1";
  obj_endpoint = "";
  obj_auth_by_instance_metadata = false;
  obj_no_ssl_verify = true;
  s3_log_level = "";
  s3_force_path_style = false;
  encrypted = true;
  passphrase = "secret";
  encryption_algo = "";
  threads = 4;
  pitr = false;
  blackhole = false;
}

abbrev pub two_iterations : BenchmarkConfig
two_iterations = record { iterations = 2; cbm_config = remote_archive }

-- A library that finds one backup of 2048 bytes and 7 items, and one task.
abbrev pub library : Library
library = record {
  decode_tasks = λ s. ok (record { kind = "rebalance"; status = "notRunning" } ∷ []);
  decode_stats = λ s. ok none;
  decode_info = λ s. ok (record { size = 2048; buckets = 7 ∷ [] } ∷ []);
  decode_dates = λ s. ok ("2021" ∷ []);
  join_path = λ a b. a <> ("/" <> b);
}

-- The user never interrupts.
abbrev pub settle_calmly : Question → Bool
settle_calmly q = false

-- Every reading is the same.
abbrev pub measure_calmly : Gauge → ℕ
measure_calmly g = 5

abbrev pub obliging : Request → Reply
obliging r = answer ""

-- Everything succeeds.
abbrev pub outcome : {A : Type 0} → Main A → Result A
outcome p = (simulate (machine obliging settle_calmly measure_calmly) p).1

abbrev pub plain_formats : Formats
plain_formats = record { duration = itoa; bytes = itoa; english = itoa }
