-- ===== src/Cmd/Benchmark/Destination.antt =====
-- Where collectLogs of cmd/benchmark.go puts the logs.
use cbtools_autobench.Base.{
  ◌≡◌, ◌≢◌, ◌⊎◌, refl, String, ◌==◌, Bool, true, false, Bool-cases, inl, inr, List, [], ◌∷◌, eq_iff,
  arith,
}
use cbtools_autobench.Result.{Result, ok, err, panic, fatal, Succeeds}
use cbtools_autobench.Value.Blueprint.{BenchmarkConfig}
use cbtools_autobench.Value.Formats.{Formats}
use cbtools_autobench.Effect.Process.{
  Reply, answer, failure, stat, make_directory, replied, of_reply, Trace, Task, ◌>>=◌, caught, call,
  wrapped, lift, continue, pure,
}
use cbtools_autobench.Effect.Runs.{Pooling, Ensures, Ensures-always, Ensures-mono}
use cbtools_autobench.Nodes.Library.{Library}
use cbtools_autobench.Nodes.Cluster.{Cluster, Main}
use cbtools_autobench.Nodes.BackupClient.{BackupClient}
use cbtools_autobench.Cmd.Config.{Files}
use cbtools_autobench.Cmd.Benchmark.{check_path, collect_logs}

abbrev pub Logs : Type 0
Logs = List String × String

-- The directory is created next, and nothing else is done if that fails.
abbrev pub Created : String → Trace → Result Logs → Type 0
Created path [] r = ⊥
Created path (replied (make_directory p) (answer s) ∷ rest) r = p ≡ path
Created path (replied (make_directory p) (failure e) ∷ rest) r =
    (p ≡ path) × (rest ≡ []) × (¬ Succeeds r)
Created path (_ ∷ rest) r = ⊥

-- Whether the logs may be put there: into a directory, or where nothing is.
abbrev pub usable : Files → Reply → Bool
usable files (answer info) = files.is_dir info
usable files (failure e) = files.is_not_exist e

-- What follows the look at the path.
abbrev pub Next : String → Bool → Trace → Result Logs → Type 0
Next path true rest r = Created path rest r
Next path false rest r = (rest ≡ []) × (¬ Succeeds r)

-- The path is looked at first.
abbrev pub Looked : Files → String → Trace → Result Logs → Type 0
Looked files path [] r = ⊥
Looked files path (replied (stat p) y ∷ rest) r = (p ≡ path) × Next path (usable files y) rest r
Looked files path (_ ∷ rest) r = ⊥

module _ (Pooled : Pooling (Task Unit)) (path : String) where
  created :
      (m : Main Logs)
      → Ensures Pooled
          (wrapped "failed to create logs output directory" (call (make_directory path)) >>= λ _. m)
          (Created path)
  unfolding ◌>>=◌ call wrapped continue Ensures
  created m (answer s) = Ensures-always Pooled m _ (λ tr r. refl)
  created m (failure e) = (refl, refl, λ s. s)

  -- the directory may be used
  goes_on :
      (r : Result (Unit {0})) (m : Main Logs)
      → Succeeds r
      → Ensures Pooled m (Created path)
      → Ensures Pooled (lift r >>= λ _. m) (Created path)
  unfolding ◌>>=◌ continue Ensures
  goes_on (ok a) m s h = h
  goes_on (err e) m s h = absurd s
  goes_on (panic e) m s h = absurd s
  goes_on (fatal e) m s h = absurd s

  -- it may not
  stops :
      (r : Result (Unit {0})) (m : Main Logs)
      → ¬ Succeeds r
      → Ensures Pooled (lift r >>= λ _. m) (Next path false)
  unfolding ◌>>=◌ continue Ensures
  stops (ok a) m n = absurd (n tt)
  stops (err e) m n = (refl, λ s. s)
  stops (panic e) m n = (refl, λ s. s)
  stops (fatal e) m n = (refl, λ s. s)

  checked :
      (files : Files) (y : Reply) (m : Main Logs)
      → Ensures Pooled m (Created path)
      → Ensures Pooled
          (lift (check_path files (of_reply y)) >>= λ _. m)
          (Next path (usable files y))
  unfolding check_path
  checked files (answer info) m h = elim (Bool-cases (files.is_dir info)) [
    | inl e ↦ rw e (goes_on (ok tt) m tt h)
    | inr e ↦ rw e (stops (err _) m (λ s. s))
  ]
  checked files (failure f) m h = elim (Bool-cases (files.is_not_exist f)) [
    | inl e ↦ rw e (goes_on (ok tt) m tt h)
    | inr e ↦ rw e (stops (err _) m (λ s. s))
  ]

  after_look :
      (files : Files) (y : Reply) (tr : Trace) (r : Result Logs)
      → Next path (usable files y) tr r
      → Looked files path (replied (stat path) y ∷ tr) r
  after_look files y tr r n = (refl, n)

  looked :
      (files : Files) (m : Main Logs)
      → Ensures Pooled m (Created path)
      → Ensures Pooled
          (caught (call (stat path)) >>= λ info. lift (check_path files info) >>= λ _. m)
          (Looked files path)
  unfolding ◌>>=◌ caught call continue Ensures
  looked files m h (answer s) =
      Ensures-mono Pooled _ _ _ (after_look files (answer s)) (checked files (answer s) m h)
  looked files m h (failure e) =
      Ensures-mono Pooled _ _ _ (after_look files (failure e)) (checked files (failure e) m h)

-- What collectLogs does, with a path and without.
abbrev pub Collected : Files → String → Trace → Result Logs → Type 0
Collected files path tr r =
    ((path ≡ "") × (tr ≡ []) × (r ≡ ok ([], ""))) ⊎ ((path ≢ "") × Looked files path tr r)

module _ (Pooled : Pooling (Task Unit)) (files : Files) (path : String) where
  nothing_done : path ≡ "" → Ensures Pooled (pure ([], "")) (Collected files path)
  unfolding Ensures
  nothing_done e = inl (e, refl, refl)

  with_path :
      path ≢ ""
      → (tr : Trace) (r : Result Logs) → Looked files path tr r
      → Collected files path tr r
  with_path n tr r h = inr (n, h)

module _ (format : Formats) (files : Files) (library : Library) (Pooled : Pooling (Task Unit)) where
  -- Without a path, collectLogs does nothing at all. With one, it looks at the path before anything else;
  -- if there is something there that is no directory, or the look fails for another reason than that
  -- nothing is there, it fails and does nothing more. Otherwise the next thing it does is to create the
  -- directory, and if that fails, it fails and does nothing more either.
  pub collect_logs-Collected :
      (c : Cluster) (b : BackupClient) (config : BenchmarkConfig) (path : String)
      → Ensures Pooled (collect_logs format files library c b config path) (Collected files path)
  unfolding collect_logs
  collect_logs-Collected c b config path = elim (Bool-cases (path == "")) [
    | inl e ↦ rw e (nothing_done Pooled files path ((eq_iff path "").0 e))
    | inr e ↦ rw e (
        Ensures-mono Pooled _ _ _ (with_path Pooled files path (ground (arith, eq_iff path "")))
          (looked Pooled path files _ (created Pooled path _)))
  ]
