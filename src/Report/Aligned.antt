-- ===== src/Report/Aligned.antt =====
-- The tables of a report.
use cbtools_autobench.Base.{◌≡◌, refl, ℕ, ◌+◌, ◌<>◌, List, [], ◌∷◌, ◌++◌, map, length}
use cbtools_autobench.Value.Formats.{Formats}
use cbtools_autobench.Value.Blueprint.{NodeBlueprint, ClusterBlueprint}
use cbtools_autobench.Value.Show.{
  environment_rows, cbm_rows, bucket_rows, client_rows, node_rows, cluster_rows, data_rows,
  stats_rows,
}
use cbtools_autobench.Value.Stats.{Stats}
use cbtools_autobench.Value.Table.{Row}
use cbtools_autobench.Value.Table.Laws.{Uniform, IsAligned, Uniform-IsAligned}
use cbtools_autobench.Nodes.Node.{base}
use cbtools_autobench.Report.Parts.{RundownResult, Logs}
use cbtools_autobench.Report.Text.{Report, overview_rows, result_rows, rundown_rows, logs_rows}

Uniform-map :
    {A : Type 0} (k : ℕ) (f : A → Row) (xs : List A)
    → ((a : A) → length (f a) ≡ k)
    → Uniform k (map f xs)
Uniform-map k f [] h = tt
Uniform-map k f (x ∷ xs) h = (h x, Uniform-map k f xs h)

Uniform-append : (k : ℕ) (rs ss : List Row) → Uniform k rs → Uniform k ss → Uniform k (rs ++ ss)
Uniform-append k [] ss h j = j
Uniform-append k (r ∷ rs) ss (e, h) j = (e, Uniform-append k rs ss h j)

node_rows-Uniform :
    (c : ClusterBlueprint) (i : ℕ) (ns : List NodeBlueprint) → Uniform 4 (node_rows c i ns)
unfolding node_rows
node_rows-Uniform c i [] = tt
node_rows-Uniform c i (n ∷ ns) = (refl, node_rows-Uniform c (i + 1) ns)

result_rows-Uniform : (i : ℕ) (rs : List RundownResult) → Uniform 7 (result_rows i rs)
unfolding result_rows
result_rows-Uniform i [] = tt
result_rows-Uniform i (r ∷ rs) = (refl, result_rows-Uniform (i + 1) rs)

logs_rows-IsAligned : (l : Logs) → IsAligned (logs_rows l)
unfolding logs_rows
logs_rows-IsAligned l =
    Uniform-IsAligned 1 (("| Path" ∷ []) ∷ (map _ l.cluster ++ (("| " <> base l.backup) ∷ []) ∷ []))
      (refl, Uniform-append 1 _ _ (Uniform-map 1 _ l.cluster (λ a. refl)) (refl, tt))

-- The tables of a report, and of the parts that it may have.
pub record IsTidy (format : Formats) (r : Report) : Type 0 where
  pub cluster : IsAligned (cluster_rows r.cluster)
  pub bucket : IsAligned (bucket_rows r.cluster.bucket)
  pub dataset : IsAligned (data_rows format r.cluster.bucket.dataset)
  pub stats : (s : Stats) → IsAligned (stats_rows format s)
  pub backup_client : IsAligned (client_rows r.backup_client)
  pub cbm : IsAligned (cbm_rows r.cbm)
  pub environment : IsAligned (environment_rows r.cbm.env_vars)
  pub overview : IsAligned (overview_rows r.overview)
  pub rundown : IsAligned (rundown_rows r.rundown)
  pub logs : (l : Logs) → IsAligned (logs_rows l)

-- Whatever the report holds, as long as no cell holds a tab or the end of a line, in each of its tables
-- all lines have the same length: each is as long as the widths of the table's columns, with a bar for
-- each column.
pub report-IsTidy : (format : Formats) (r : Report) → IsTidy format r
unfolding cluster_rows bucket_rows data_rows stats_rows client_rows cbm_rows environment_rows
    overview_rows rundown_rows
report-IsTidy format r = record {
  cluster =
      Uniform-IsAligned 4 (cluster_rows r.cluster)
        (refl, node_rows-Uniform r.cluster 0 r.cluster.nodes);
  bucket = Uniform-IsAligned 7 (bucket_rows r.cluster.bucket) (refl, (refl, tt));
  dataset = Uniform-IsAligned 6 (data_rows format r.cluster.bucket.dataset) (refl, (refl, tt));
  stats = λ s. Uniform-IsAligned 4 (stats_rows format s) (refl, (refl, tt));
  backup_client = Uniform-IsAligned 2 (client_rows r.backup_client) (refl, (refl, tt));
  cbm = Uniform-IsAligned 7 (cbm_rows r.cbm) (refl, (refl, tt));
  environment =
      Uniform-IsAligned 2 (environment_rows r.cbm.env_vars)
        (refl, Uniform-map 2 _ r.cbm.env_vars (λ a. refl));
  overview = Uniform-IsAligned 5 (overview_rows r.overview) (refl, (refl, tt));
  rundown = Uniform-IsAligned 7 (rundown_rows r.rundown) (refl, result_rows-Uniform 0 r.rundown);
  logs = logs_rows-IsAligned;
}
