-- ===== src/Cmd/Commands.antt =====
-- The commands and flags that cmd/provision.go, cmd/benchmark.go and cmd/root.go declare to cobra.
pub mod Valid
use mathlib.Core.List.{Memᴰ}
use cbtools_autobench.Base.{◌≡◌, ℕ, String, Bool, true, false, List, [], ◌∷◌, Option, none, some}
use cbtools_autobench.Result.{Error, Result, ok, err, panic, fatal}

-- The default of StringVarP and of BoolVarP.
pub data Default : Type 0 where
  text_default : String → Default
  switch_default : Bool → Default

pub record Flag : Type 0 where
  pub name : String
  pub shorthand : String
  pub default_value : Default
  pub usage : String

-- The body that RunE names.
pub data Body : Type 0 where
  provision_body benchmark_body : Body

-- A sub-command: `exact_valid_args` is the argument of cobra.ExactValidArgs, if Args is set.
pub record Command : Type 0 where
  pub run : Body
  pub use_line : String
  pub short : String
  pub exact_valid_args : Option ℕ
  pub valid_args : List String
  pub flags : List Flag
  -- the flags that are marked as required
  pub required : List String

pub record Root : Type 0 where
  pub short : String
  pub silence_errors : Bool
  pub silence_usage : Bool
  pub commands : List Command

-- provisionCommand, and the flags that its init adds
unfoldable pub provision_command : Command
provision_command = record {
  run = Body.provision_body;
  use_line = "provision";
  short = "install and configure a cluster and backup client";
  exact_valid_args = none;
  valid_args = [];
  flags =
      record {
        name = "config";
        shorthand = "c";
        default_value = Default.text_default "";
        usage = "path to a cbtools-autobench config file";
      }
      ∷ record {
        name = "load-only";
        shorthand = "";
        default_value = Default.switch_default false;
        usage = "skip provisioning and only load benchmark dataset";
      }
      ∷ [];
  required = [];
}

-- benchmarkCommand, and the flags that its init adds
unfoldable pub benchmark_command : Command
benchmark_command = record {
  run = Body.benchmark_body;
  use_line = "benchmark {backup|restore}";
  short = "benchmark the cbbackupmgr tool performing either a backup or restore";
  exact_valid_args = some 1;
  valid_args = "backup" ∷ "restore" ∷ [];
  flags =
      record {
        name = "config";
        shorthand = "c";
        default_value = Default.text_default "";
        usage = "path to a cbtools-autobench config file";
      }
      ∷ record {
        name = "collect-logs";
        shorthand = "l";
        default_value = Default.text_default "";
        usage = "collect cluster/cbbackupmgr logs and download them into this directory";
      }
      ∷ record {
        name = "json";
        shorthand = "j";
        default_value = Default.switch_default false;
        usage = "JSON format benchmarking report";
      }
      ∷ [];
  required = [];
}

-- What cobra makes of the arguments: nothing to run, as with --help or without a sub-command, or a
-- sub-command with its flags and arguments.
pub data Invocation : Type 0 where
  helping : Invocation
  provisioning : String → Bool → Invocation
  benchmarking : String → String → String → Bool → Invocation

-- Cobra: MarkFlagRequired, the execution of a root command up to the call of RunE, and Error of an error.
pub record Cobra : Type 0 where
  pub mark_flag_required_in : Command → String → Result Command
  pub parse : Root → List String → Result Invocation
  pub text_of : Error → String

-- `if err != nil { panic(err) }`
abbrev pub or_panic : (Error → String) → Result Command → Result Command
or_panic text_of (ok marked) = ok marked
or_panic text_of (err e) = panic (text_of e)
or_panic text_of (panic s) = panic s
or_panic text_of (fatal s) = fatal s

module _ (cobra : Cobra) where
  -- markFlagRequired
  unfoldable pub mark_flag_required : Command → String → Result Command
  mark_flag_required command flag =
      or_panic cobra.text_of (cobra.mark_flag_required_in command flag)

  abbrev both_marked : Result Command → Result Command → Result Root
  both_marked (ok b) (ok p) = ok (record {
    short = "An automatic benchmarking tool designed to benchmark Couchbase tools";
    silence_errors = true;
    silence_usage = true;
    commands = p ∷ b ∷ [];
  })
  both_marked (ok b) (err e) = err e
  both_marked (ok b) (panic s) = panic s
  both_marked (ok b) (fatal s) = fatal s
  both_marked (err e) p = err e
  both_marked (panic s) p = panic s
  both_marked (fatal s) p = fatal s

  -- rootCommand as the three `init` functions leave it: that of benchmark.go runs first, that of root.go
  -- last.
  unfoldable pub root_command : Result Root
  unfolding mark_flag_required provision_command benchmark_command
  root_command =
      both_marked (mark_flag_required benchmark_command "config")
        (mark_flag_required provision_command "config")

-- What cobra documents: a flag is marked if the command has it; a sub-command that is executed is one of
-- the root command's, and with cobra.ExactValidArgs(1) its argument is one of its ValidArgs.
pub record Documented (cobra : Cobra) : Type 0 where
  pub marks :
      (c : Command) (f : Flag)
      → Memᴰ f c.flags
      → cobra.mark_flag_required_in c f.name ≡ ok (record c { required = f.name ∷ c.required })
  pub validates :
      (root : Root) (arguments : List String) (path name logs_path : String) (json : Bool)
      → cobra.parse root arguments ≡ ok (benchmarking path name logs_path json)
      → (c : Command) × Memᴰ c root.commands
        × (c.run ≡ Body.benchmark_body)
        × (c.exact_valid_args ≡ some 1 → Memᴰ name c.valid_args)
