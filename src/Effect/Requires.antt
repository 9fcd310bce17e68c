-- ===== src/Effect/Requires.antt =====
-- What must hold for a procedure to return nil, on every run.
use cbtools_autobench.Base.{ℕ, String, List, [], ◌∷◌, map, All}
use cbtools_autobench.Result.{ended-fails, Result, ok, err, panic, fatal, wrapping, Succeeds}
use cbtools_autobench.Effect.Process.{Trace, done, pool, Exec, on_ok, ◌>>=◌, wrapped}
use cbtools_autobench.Effect.Runs.{
  Pooling, Runs, Ensures, Ensures-Runs, Ensures-always, Ensures-mono, Ensures-continue, Shuffled,
  idle, finished, reported, hidden, dropped, Pool,
}

module _ {W : Type 0} (Pooled : Pooling W) {A : Type 0} where
  -- No run of `m` succeeds unless `P` holds.
  pub record Requires (m : Exec W A) (P : Type 0) : Type 0 where
    pub runs : Ensures Pooled m (λ tr r. Succeeds r → P)

  pub Requires-stop : (r : Result A) {P : Type 0} → ¬ Succeeds r → Requires (done r) P
  unfolding Ensures
  Requires-stop r h = record { runs = λ s. absurd (h s) }

  pub Requires-given : (m : Exec W A) {P : Type 0} → P → Requires m P
  Requires-given m p = record { runs = Ensures-always Pooled m _ (λ tr r s. p) }

  kept_by_wrapping :
      (context : String) {P : Type 0} (r : Result A)
      → (Succeeds r → P)
      → Succeeds (wrapping context r)
      → P
  kept_by_wrapping context (ok a) f s = f s
  kept_by_wrapping context (err e) f s = absurd s
  kept_by_wrapping context (panic e) f s = absurd s
  kept_by_wrapping context (fatal e) f s = absurd s

  pub Requires-wrapped :
      {P : Type 0} (context : String) (m : Exec W A) → Requires m P → Requires (wrapped context m) P
  unfolding wrapped Ensures
  Requires-wrapped context m h = record {
    runs =
        Ensures-continue Pooled m _ _
          (Ensures-mono Pooled m _ _ (λ tr r. kept_by_wrapping context r) h.runs);
  }

module _ {W : Type 0} (Pooled : Pooling W) {A B : Type 0} {P : Type 0} where
  -- What the first part requires, the whole requires.
  pub Requires-first :
      (m : Exec W A) (f : A → Exec W B) → Requires Pooled m P → Requires Pooled (m >>= f) P
  unfolding ◌>>=◌ Ensures
  Requires-first m f h = record {
    runs = Ensures-continue Pooled m (on_ok f) _ (Ensures-mono Pooled m _ _ goes h.runs);
  }
    where
      goes :
          (tr : Trace) (r : Result A)
          → (Succeeds r → P)
          → Ensures Pooled (on_ok f r) (λ tr' s. Succeeds s → P)
      goes tr (ok a) h = Ensures-always Pooled (f a) _ (λ tr' s _. h tt)
      goes tr (err e) h = λ s. absurd s
      goes tr (panic e) h = λ s. absurd s
      goes tr (fatal e) h = λ s. absurd s

  -- What the rest requires, whatever it is given, the whole requires.
  pub Requires-rest :
      (m : Exec W A) (f : A → Exec W B)
      → ((a : A) → Requires Pooled (f a) P)
      → Requires Pooled (m >>= f) P
  unfolding ◌>>=◌ Ensures
  Requires-rest m f h = record {
    runs = Ensures-continue Pooled m (on_ok f) _ (Ensures-always Pooled m _ goes);
  }
    where
      goes : (tr : Trace) (r : Result A) → Ensures Pooled (on_ok f r) (λ tr' s. Succeeds s → P)
      goes tr (ok a) = (h a).runs
      goes tr (err e) = λ s. absurd s
      goes tr (panic e) = λ s. absurd s
      goes tr (fatal e) = λ s. absurd s

-- A pool succeeds only if each of its workers does.
module _ {V X : Type 0} {Below : Pooling V} (f : X → Exec V Unit) (P : X → Type 0)
    (need : (x : X) → Requires Below (f x) (P x)) where
  All-Shuffled :
      (xs : List X) {tr : Trace} {r : Result Unit}
      → Shuffled (Runs Below) (map f xs) tr r
      → Succeeds r
      → All P xs
  All-Shuffled [] idle s = tt
  All-Shuffled (x ∷ xs) (finished runs rest m) s =
      (Ensures-Runs Below (λ tr r. Succeeds r → P x) (need x).runs runs tt, All-Shuffled xs rest s)
  All-Shuffled (x ∷ xs) (reported {r} runs n rest m) s = absurd (ended-fails r n s)
  All-Shuffled (x ∷ xs) (hidden runs rest n m) s = absurd (n s)
  All-Shuffled (x ∷ xs) (dropped rest n) s = absurd (n s)

  pub Requires-pool :
      (R : Pool (Exec V Unit) (Runs Below)) (n : ℕ) (xs : List X)
      → Requires R.pooled (pool n (map f xs) (λ r. done r)) (All P xs)
  unfolding Ensures
  Requires-pool R n xs = record { runs = λ front r pooled. All-Shuffled xs (R.documented pooled) }
