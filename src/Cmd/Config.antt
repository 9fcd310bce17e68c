-- ===== src/Cmd/Config.antt =====
-- cmd/utils.go, and the libraries behind the sub-commands.
use cbtools_autobench.Base.{String, Bool}
use cbtools_autobench.Result.{Error, Result}
use cbtools_autobench.Value.Blueprint.{AutobenchConfig}
use cbtools_autobench.Effect.Process.{open_file, Exec, call, lift, wrapped, ◌>>=◌}
use cbtools_autobench.Value.Json.{Json}

-- The decoding of YAML, os.IsNotExist, IsDir of what os.Stat tells, and the text of a JSON tree.
pub record Files : Type 0 where
  pub decode_config : String → Result AutobenchConfig
  pub is_not_exist : Error → Bool
  pub is_dir : String → Bool
  pub marshal : Json → Result String

-- readConfig
unfoldable pub read_config : {W : Type 0} → Files → String → Exec W AutobenchConfig
read_config files path = do
  text ← wrapped "failed to open config file" (call (open_file path))
  wrapped "failed to decode config file" (lift (files.decode_config text))
