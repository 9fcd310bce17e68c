-- ===== src/Report/Json.antt =====
-- The JSON form of a report, by the tags of its structs.
use cbtools_autobench.Base.{[], ◌∷◌, map, some}
use cbtools_autobench.Value.Formats.{Formats}
use cbtools_autobench.Value.Json.{
  Json, text, array, object, if_text, if_items, items_of, if_there, fields_of,
}
use cbtools_autobench.Value.Marshal.{cluster_json, client_json, cbm_json, stats_json}
use cbtools_autobench.Report.Parts.{Overview, RundownResult, Logs}
use cbtools_autobench.Report.Text.{Report}

unfoldable pub overview_json : Overview → Json
unfolding fields_of
overview_json o = object (
    fields_of (
      if_text "avg_duration" o.avg_duration
      ∷ if_text "avg_ads" o.avg_ads
      ∷ if_text "avg_gds" o.avg_gds
      ∷ if_text "avg_transfer_rate_ads" o.avg_transfer_rate_ads
      ∷ if_text "avg_transfer_rate_gds" o.avg_transfer_rate_gds
      ∷ []))

unfoldable pub result_json : RundownResult → Json
unfolding fields_of
result_json r = object (
    fields_of (
      if_text "duration" r.duration
      ∷ if_text "ain" r.ain
      ∷ if_text "ads" r.ads
      ∷ if_text "gds" r.gds
      ∷ if_text "avg_transfer_rate_ads" r.avg_transfer_rate_ads
      ∷ if_text "avg_transfer_rate_gds" r.avg_transfer_rate_gds
      ∷ []))

-- Logs has no tags.
unfoldable pub logs_json : Logs → Json
unfolding fields_of
logs_json l = object (
    fields_of (
      ("Cluster", some (array (items_of (map text l.cluster))))
      ∷ ("Backup", some (text l.backup))
      ∷ []))

unfoldable pub report_json : Formats → Report → Json
unfolding cluster_json client_json cbm_json stats_json overview_json result_json logs_json fields_of
report_json format r = object (
    fields_of (
      ("cluster", some (cluster_json r.cluster))
      ∷ ("backup_client", some (client_json r.backup_client))
      ∷ ("cbbackupmgr", some (cbm_json r.cbm))
      ∷ if_there "bucket_stats" (stats_json format) r.stats
      ∷ ("overview", some (overview_json r.overview))
      ∷ if_items "rundown" (map result_json r.rundown)
      ∷ if_there "logs" logs_json r.logs
      ∷ []))
