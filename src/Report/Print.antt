-- ===== src/Report/Print.antt =====
-- Report.Print of report/report.go.
use cbtools_autobench.Base.{String, ◌<>◌, Bool, true, false}
use cbtools_autobench.Result.{Result, ok, err, panic, fatal}
use cbtools_autobench.Value.Formats.{Formats}
use cbtools_autobench.Value.Json.{Json}
use cbtools_autobench.Report.Text.{Report, report_string}
use cbtools_autobench.Report.Json.{report_json}

module _ (format : Formats) where
  -- What Print writes, where the given function turns a JSON tree into text.
  unfoldable pub printed : (Json → Result String) → Bool → Report → Result String
  unfolding report_string report_json
  printed marshal false r = ok (report_string format r <> "\n")
  printed marshal true r = elim (marshal (report_json format r)) [
    | ok json ↦ ok (json <> "\n")
    | err e ↦ err e
    | panic s ↦ panic s
    | fatal s ↦ fatal s
  ]
