-- ===== src/Value/Table/Laws.antt =====
-- The lengths of the lines of a table.
use Prim.Native.String.{count}
use text.Mathlib.TextLemmas
use text.Mathlib.TextLemmas.{length-cons}
use cbtools_autobench.Base.{
  ◌≡◌, refl, ap, ℕ, zero, suc, ◌+◌, ◌-◌, ◌≤◌, String, ◌<>◌, List, [], ◌∷◌, map, length, length-map,
  sym, ◌∙◌, All, arith,
}
use cbtools_autobench.Value.Table.{Row, cell_width, widest, widths, blanks, line}

length-append : (s t : String) → count (s <> t) ≡ count s + count t
length-append s t = TextLemmas.length-append s t

-- A row has a cell for each column, and each cell fits into its column.
abbrev Fits : Row → List ℕ → Type 0
Fits [] [] = Unit
Fits [] (w ∷ ws) = ⊥
Fits (c ∷ cs) [] = ⊥
Fits (c ∷ cs) (w ∷ ws) = (cell_width c ≤ w) × Fits cs ws

-- The length of a line: the columns, each with its bar.
abbrev pub total : List ℕ → ℕ
total [] = 0
total (w ∷ ws) = w + 1 + total ws

count-blanks : (n : ℕ) → count (blanks n) ≡ n
unfolding blanks
count-blanks zero = refl
count-blanks (suc n) = omega (arith, count-blanks n, length-cons " " (blanks n))

count-line : (ws : List ℕ) (r : Row) → Fits r ws → count (line ws r) ≡ total ws
unfolding line
count-line [] [] h = refl
count-line [] (c ∷ cs) h = absurd h
count-line (w ∷ ws) [] h = absurd h
count-line (w ∷ ws) (c ∷ cs) (fits, h) =
    let rest = String.◌∷◌ "|" (line ws cs) in
    omega (
      arith,
      length-append c (blanks (w - count c) <> rest),
      length-append (blanks (w - count c)) rest,
      length-cons "|" (line ws cs),
      count-blanks (w - count c),
      count-line ws cs h,
    )

Fits-own : (r : Row) → Fits r (map cell_width r)
Fits-own [] = tt
Fits-own (c ∷ cs) = (omega arith, Fits-own cs)

widest-nil : (vs : List ℕ) → widest vs [] ≡ vs
widest-nil [] = refl
widest-nil (v ∷ vs) = refl

length-widest : (vs ws : List ℕ) → length vs ≡ length ws → length (widest vs ws) ≡ length ws
length-widest [] ws h = refl
length-widest (v ∷ vs) [] h = omega arith
length-widest (v ∷ vs) (w ∷ ws) h = ap suc (length-widest vs ws (omega arith))

Fits-left : (r : Row) (vs ws : List ℕ) → length vs ≡ length ws → Fits r vs → Fits r (widest vs ws)
Fits-left [] [] [] e h = tt
Fits-left [] [] (w ∷ ws) e h = omega arith
Fits-left [] (v ∷ vs) ws e h = absurd h
Fits-left (c ∷ cs) [] ws e h = absurd h
Fits-left (c ∷ cs) (v ∷ vs) [] e h = h
Fits-left (c ∷ cs) (v ∷ vs) (w ∷ ws) e (k, h) = (omega arith, Fits-left cs vs ws (omega arith) h)

Fits-right : (r : Row) (vs ws : List ℕ) → length vs ≡ length ws → Fits r ws → Fits r (widest vs ws)
Fits-right [] [] [] e h = tt
Fits-right [] vs (w ∷ ws) e h = absurd h
Fits-right [] (v ∷ vs) [] e h = omega arith
Fits-right (c ∷ cs) vs [] e h = absurd h
Fits-right (c ∷ cs) [] (w ∷ ws) e h = h
Fits-right (c ∷ cs) (v ∷ vs) (w ∷ ws) e (k, h) = (omega arith, Fits-right cs vs ws (omega arith) h)

-- All rows have so many cells.
abbrev pub Uniform : ℕ → List Row → Type 0
Uniform k rows = All (λ r. length r ≡ k) rows

All-Fits-right :
    (rows : List Row) (vs ws : List ℕ)
    → length vs ≡ length ws
    → All (λ r. Fits r ws) rows
    → All (λ r. Fits r (widest vs ws)) rows
All-Fits-right [] vs ws e h = tt
All-Fits-right (r ∷ rows) vs ws e (h, k) = (Fits-right r vs ws e h, All-Fits-right rows vs ws e k)

widths-Fits :
    (k : ℕ) (r : Row) (rows : List Row)
    → Uniform k (r ∷ rows)
    → (length (widths (r ∷ rows)) ≡ k) × All (λ r'. Fits r' (widths (r ∷ rows))) (r ∷ rows)
unfolding widths
widths-Fits k r [] (e, _) = rw widest-nil ((length-map cell_width r ∙ e), (Fits-own r, tt))
widths-Fits k r (s ∷ rows) (e, h) =
    let (l, fits) = widths-Fits k s rows h in
    let same : length (map cell_width r) ≡ length (widths (s ∷ rows)) =
      length-map cell_width r ∙ e ∙ sym l in
    (
      length-widest (map cell_width r) (widths (s ∷ rows)) same ∙ l,
      (
        Fits-left r (map cell_width r) (widths (s ∷ rows)) same (Fits-own r),
        All-Fits-right (s ∷ rows) (map cell_width r) (widths (s ∷ rows)) same fits,
      ),
    )

-- The lines of the table are as long as its columns, with a bar behind each.
abbrev pub IsAligned : List Row → Type 0
IsAligned rows = All (λ r. count (line (widths rows) r) ≡ total (widths rows)) rows

All-count-line :
    (ws : List ℕ) (rows : List Row)
    → All (λ r. Fits r ws) rows
    → All (λ r. count (line ws r) ≡ total ws) rows
All-count-line ws [] h = tt
All-count-line ws (r ∷ rows) (h, k) = (count-line ws r h, All-count-line ws rows k)

pub Uniform-IsAligned : (k : ℕ) (rows : List Row) → Uniform k rows → IsAligned rows
Uniform-IsAligned k [] h = tt
Uniform-IsAligned k (r ∷ rows) h = All-count-line _ (r ∷ rows) (widths-Fits k r rows h).1
