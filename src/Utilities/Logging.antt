-- ===== src/Utilities/Logging.antt =====
-- utilities/logging.go: the line that the handler writes for an entry.
use cbtools_autobench.Base.{String, ◌<>◌, ◌==◌, ◌||◌, if◌then◌else◌}
use cbtools_autobench.Result.{Result, ok, err, panic, fatal, wrapping}

-- The levels of github.com/apex/log that the handler knows.
pub data Level : Type 0 where
  debug_level info_level warn_level error_level fatal_level : Level

pub levels : Level → String
levels debug_level = "DEBU"
levels info_level = "INFO"
levels warn_level = "WARN"
levels error_level = "ERRO"
levels fatal_level = "FATA"

-- The line, where the fields are given as the text of their JSON form.
unfoldable pub log_line : String → Level → String → String → String
unfolding levels
log_line timestamp level text fields =
    let entry = timestamp <> (" " <> (levels level <> (" " <> text))) in
    if fields == "" || fields == "{}" then entry <> "\n" else entry <> (" | " <> (fields <> "\n"))

abbrev with_line : String → Level → String → Result String → Result String
with_line timestamp level text (ok fields) = ok (log_line timestamp level text fields)
with_line timestamp level text (err e) = err e
with_line timestamp level text (panic s) = panic s
with_line timestamp level text (fatal s) = fatal s

-- HandleLog: what is written, where json.Marshal gives the fields.
unfoldable pub handle_log : String → Level → String → Result String → Result String
unfolding log_line
handle_log timestamp level text fields =
    with_line timestamp level text (wrapping "failed to marshal fields" fields)
