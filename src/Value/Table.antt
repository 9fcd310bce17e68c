-- ===== src/Value/Table.antt =====
-- Go's text/tabwriter, as the reports use it: minimal width 4, padding 1, blanks, and the flag Debug,
-- which ends a column with a bar. A row is the list of its cells, each of which the source ends with a
-- tab; the rows of a table have the same number of cells, and a cell holds neither a tab nor the end of
-- a line.
pub mod Laws
use Prim.Native.String.{count}
use cbtools_autobench.Base.{ℕ, zero, suc, ◌+◌, ◌-◌, max, String, ◌<>◌, List, [], ◌∷◌, map}

abbrev pub Row : Type 0
Row = List String

abbrev pub cell_width : String → ℕ
cell_width c = max 4 (count c + 1)

-- The wider of two columns, for each column.
abbrev pub widest : List ℕ → List ℕ → List ℕ
widest [] ws = ws
widest (v ∷ vs) [] = v ∷ vs
widest (v ∷ vs) (w ∷ ws) = max v w ∷ widest vs ws

unfoldable pub widths : List Row → List ℕ
widths [] = []
widths (r ∷ rows) = widest (map cell_width r) (widths rows)

pub blanks : ℕ → String
blanks zero = ""
blanks (suc n) = String.◌∷◌ " " (blanks n)

unfoldable pub line : List ℕ → Row → String
unfolding blanks
line ws [] = ""
line [] (c ∷ cs) = c <> String.◌∷◌ "|" (line [] cs)
line (w ∷ ws) (c ∷ cs) = c <> (blanks (w - count c) <> String.◌∷◌ "|" (line ws cs))

abbrev pub lines : List ℕ → List Row → String
lines ws [] = ""
lines ws (r ∷ rows) = line ws r <> String.◌∷◌ "\n" (lines ws rows)

-- What Flush writes.
unfoldable pub table : List Row → String
unfolding line widths
table rows = lines (widths rows) rows
