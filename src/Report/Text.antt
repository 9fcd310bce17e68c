-- ===== src/Report/Text.antt =====
-- report/report.go and the String methods of the parts of a report. The result of a run is there, and so
-- are the blueprints; the statistics and the logs may be nil.
use cbtools_autobench.Base.{
  ℕ, ◌+◌, String, ◌<>◌, List, [], ◌∷◌, ◌++◌, map, Option, none, some, trim_space,
}
use cbtools_autobench.Result.{Result, ok, err, panic, fatal}
use cbtools_autobench.Value.Format.{itoa}
use cbtools_autobench.Value.Formats.{Formats}
use cbtools_autobench.Value.Blueprint.{
  Blueprint, ClusterBlueprint, BackupClientBlueprint, CbmConfig,
}
use cbtools_autobench.Value.Benchmark.{BenchmarkResults}
use cbtools_autobench.Value.Show.{cluster_string, stats_string, client_string, cbm_string}
use cbtools_autobench.Value.Stats.{Stats}
use cbtools_autobench.Value.Table.{Row, table}
use cbtools_autobench.Nodes.Node.{base}
use cbtools_autobench.Report.Parts.{
  Overview, RundownResult, Logs, new_overview, new_rundown, new_logs,
}

unfoldable pub overview_rows : Overview → List Row
overview_rows o =
    ("| Avg Duration" ∷ " Avg Size (ADS)" ∷ " Avg Size (GDS)" ∷ " Avg Transfer Rate (ADS)"
      ∷ " Avg Transfer Rate (GDS)" ∷ [])
    ∷ (("| " <> o.avg_duration)
        ∷ (" " <> o.avg_ads)
        ∷ (" " <> o.avg_gds)
        ∷ (" " <> (o.avg_transfer_rate_ads <> "/s"))
        ∷ (" " <> (o.avg_transfer_rate_gds <> "/s"))
        ∷ [])
    ∷ []

-- Overview.String
unfoldable pub overview_string : Overview → String
unfolding table overview_rows
overview_string o = trim_space ("| Overview\n| --------\n" <> table (overview_rows o))

-- The rows of the results, from the given index on.
unfoldable pub result_rows : ℕ → List RundownResult → List Row
result_rows i [] = []
result_rows i (r ∷ rs) =
    (("| " <> itoa (i + 1))
      ∷ (" " <> r.duration)
      ∷ (" " <> r.ain)
      ∷ (" " <> r.ads)
      ∷ (" " <> r.gds)
      ∷ (" " <> (r.avg_transfer_rate_ads <> "/s"))
      ∷ (" " <> (r.avg_transfer_rate_gds <> "/s"))
      ∷ [])
    ∷ result_rows (i + 1) rs

unfoldable pub rundown_rows : List RundownResult → List Row
unfolding result_rows
rundown_rows rs =
    ("| Iteration" ∷ " Duration" ∷ " Items (AIN)" ∷ " Size (ADS)" ∷ " Size (GDS)"
      ∷ " Transfer Rate (ADS)" ∷ " Transfer Rate (GDS)" ∷ [])
    ∷ result_rows 0 rs

-- Rundown.String
unfoldable pub rundown_string : List RundownResult → String
unfolding table rundown_rows
rundown_string rs = trim_space ("| Rundown\n| -------\n" <> table (rundown_rows rs))

unfoldable pub logs_rows : Logs → List Row
unfolding base
logs_rows l =
    ("| Path" ∷ [])
    ∷ (map (λ path. ("| " <> base path) ∷ []) l.cluster ++ (("| " <> base l.backup) ∷ []) ∷ [])

-- Logs.String
unfoldable pub logs_string : Logs → String
unfolding table logs_rows
logs_string l = trim_space ("| Logs\n| ----\n" <> table (logs_rows l))

pub record Report : Type 0 where
  pub cluster : ClusterBlueprint
  pub backup_client : BackupClientBlueprint
  pub cbm : CbmConfig
  pub stats : Option Stats
  pub overview : Overview
  pub rundown : List RundownResult
  pub logs : Option Logs

-- Options of report/options.go
pub record Options : Type 0 where
  pub blueprint : Blueprint
  pub stats : Option Stats
  pub cbm_config : CbmConfig
  pub results : BenchmarkResults
  pub cluster_logs : List String
  pub backup_logs : String

-- `fmt.Fprintf(buffer, "%s\n\n", part)`, if the part is not nil
abbrev part_or_nothing : {A : Type 0} → (A → String) → String → Option A → String
part_or_nothing show end none = ""
part_or_nothing show end (some a) = show a <> end

module _ (format : Formats) where
  abbrev with_overview : Options → Result Overview → Result Report
  with_overview options (ok overview) = ok (record {
    cluster = options.blueprint.cluster;
    backup_client = options.blueprint.backup_client;
    cbm = options.cbm_config;
    stats = options.stats;
    overview = overview;
    rundown = new_rundown format options.blueprint.cluster.bucket.dataset options.results;
    logs = new_logs options.cluster_logs options.backup_logs;
  })
  with_overview options (err e) = err e
  with_overview options (panic s) = panic s
  with_overview options (fatal s) = fatal s

  -- NewReport
  unfoldable pub new_report : Options → Result Report
  unfolding new_overview new_rundown new_logs
  new_report options =
      with_overview options
        (new_overview format options.blueprint.cluster.bucket.dataset options.results)

  -- Report.String
  unfoldable pub report_string : Report → String
  unfolding cluster_string stats_string client_string cbm_string overview_string rundown_string
      logs_string
  report_string r = trim_space (
      (cluster_string format r.cluster <> "\n\n")
      <> (part_or_nothing (stats_string format) "\n\n" r.stats
          <> ((client_string r.backup_client <> "\n\n")
              <> ((cbm_string r.cbm <> "\n\n")
                  <> ((overview_string r.overview <> "\n\n")
                      <> ((rundown_string r.rundown <> "\n\n")
                          <> part_or_nothing logs_string "\n" r.logs))))))
