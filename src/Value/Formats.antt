-- ===== src/Value/Formats.antt =====
-- The libraries that format a number for a report: tools-common's format.Duration and format.Bytes, and
-- `%d` of x/text's message printer for English.
use cbtools_autobench.Base.{ℕ, String}

pub record Formats : Type 0 where
  -- the word of an `int64` in two's complement
  pub duration : ℕ → String
  pub bytes : ℕ → String
  pub english : ℕ → String
