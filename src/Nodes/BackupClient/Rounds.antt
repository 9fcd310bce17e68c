-- ===== src/Nodes/BackupClient/Rounds.antt =====
-- The remote commands of a whole run of BenchmarkBackup or BenchmarkRestore of nodes/backup_client.go.
use cbtools_autobench.Base.{
  ◌≡◌, ℕ, zero, suc, ◌+◌, ◌≤◌, Bool, true, false, List, [], ◌∷◌, ◌++◌, length, length-append, arith,
}
use cbtools_autobench.Result.{Result, ok, err, panic, fatal, Succeeds}
use cbtools_autobench.Value.Benchmark.{BenchmarkResult, BenchmarkResults}
use cbtools_autobench.Effect.Process.{Trace, Task, ◌>>=◌, pure, answered, interrupted}
use cbtools_autobench.Effect.Runs.{Pooling, Ensures, Ensures-mono}
use cbtools_autobench.Effect.Plan.{
  commands, commands-append, Action, Plan, nothing, both, Meets, Begins, first, second,
}
use cbtools_autobench.Effect.After.{Ensures-after}
use cbtools_autobench.Effect.Follows.{Follows}
use cbtools_autobench.Nodes.Cluster.{Main}
use cbtools_autobench.Nodes.BackupClient.{iterate}

-- A plan so many times, one after the other.
unfoldable pub times : ℕ → Plan → Plan
times zero p = nothing
times (suc n) p = both p (times n p)

-- Some results have been added to the given ones, each by a round of the plan.
record Added (round : Plan) (left : ℕ) (before results : BenchmarkResults) (xs : List Action)
    : Type 0 where
  rounds : ℕ
  at_most : rounds ≤ left
  counted : length results ≡ length before + rounds
  met : Meets (times rounds round) xs

abbrev WhenAdded : Plan → ℕ → BenchmarkResults → Trace → Result BenchmarkResults → Type 0
WhenAdded round left before tr (ok results) = Added round left before results (commands tr)
WhenAdded round left before tr (err e) = Begins (times left round) (commands tr)
WhenAdded round left before tr (panic s) = Begins (times left round) (commands tr)
WhenAdded round left before tr (fatal s) = Begins (times left round) (commands tr)

Added-one :
    (round : Plan) (left : ℕ) (before results : BenchmarkResults) (result : BenchmarkResult)
    (xs ys : List Action)
    → Meets round xs
    → Added round left (before ++ result ∷ []) results ys
    → Added round (suc left) before results (xs ++ ys)
unfolding times
Added-one round left before results result xs ys h a = record {
  rounds = suc a.rounds;
  at_most = let e = a.at_most in omega arith;
  counted = let e = a.counted in let l = length-append before (result ∷ []) in omega arith;
  met = Meets.both h a.met;
}

WhenAdded-failed :
    (round : Plan) (left : ℕ) (before : BenchmarkResults) (tr : Trace) (r : Result BenchmarkResults)
    → ¬ Succeeds r
    → Begins (times left round) (commands tr)
    → WhenAdded round left before tr r
WhenAdded-failed round left before tr (ok results) h k = absurd (h tt)
WhenAdded-failed round left before tr (err e) h k = k
WhenAdded-failed round left before tr (panic e) h k = k
WhenAdded-failed round left before tr (fatal e) h k = k

-- A round, and then the others.
one_more :
    (round : Plan) (left : ℕ) (before : BenchmarkResults) (result : BenchmarkResult)
    (tr tr' : Trace) (r : Result BenchmarkResults)
    → Meets round (commands tr)
    → WhenAdded round left (before ++ result ∷ []) tr' r
    → WhenAdded round (suc left) before (tr ++ tr') r
unfolding times
one_more round left before result tr tr' (ok results) h k =
    rw commands-append (Added-one round left before results result _ _ h k)
one_more round left before result tr tr' (err e) h k = rw commands-append (second h k)
one_more round left before result tr tr' (panic e) h k = rw commands-append (second h k)
one_more round left before result tr tr' (fatal e) h k = rw commands-append (second h k)

none_left : (round : Plan) → Meets (times 0 round) []
unfolding times
none_left round = Meets.nothing

module _ (Pooled : Pooling (Task Unit)) (round : Plan) (benchmark : Main BenchmarkResult)
    (obey : Follows Pooled round benchmark) where
  interrupted_or_not :
      (left : ℕ) (before : BenchmarkResults) (result : BenchmarkResult) (tr : Trace)
      → Meets round (commands tr)
      → Ensures Pooled
          (iterate left benchmark (before ++ result ∷ []))
          (WhenAdded round left (before ++ result ∷ []))
      → (stop : Bool)
      → Ensures Pooled
          (elim stop [
            | true ↦ pure (before ++ result ∷ [])
            | false ↦ iterate left benchmark (before ++ result ∷ [])
          ])
          (λ tr' r. WhenAdded round (suc left) before (tr ++ answered interrupted stop ∷ tr') r)
  unfolding Ensures commands
  interrupted_or_not left before result tr h rest true =
      one_more round left before result tr (answered interrupted true ∷ []) (ok _) h
        (record { rounds = 0; at_most = omega arith; counted = omega arith; met = none_left round })
  interrupted_or_not left before result tr h rest false =
      Ensures-mono Pooled (iterate left benchmark (before ++ result ∷ [])) _ _
        (λ tr' r k.
          one_more round left before result tr (answered interrupted false ∷ tr') r h
            (unanswered tr' r k))
        rest
    where
      unanswered :
          (tr' : Trace) (r : Result BenchmarkResults)
          → WhenAdded round left (before ++ result ∷ []) tr' r
          → WhenAdded round left (before ++ result ∷ []) (answered interrupted false ∷ tr') r
      unanswered tr' (ok results) k = k
      unanswered tr' (err e) k = k
      unanswered tr' (panic e) k = k
      unanswered tr' (fatal e) k = k

  iterate-WhenAdded :
      (left : ℕ) (before : BenchmarkResults)
      → Ensures Pooled (iterate left benchmark before) (WhenAdded round left before)
  unfolding iterate Ensures commands times
  iterate-WhenAdded zero before = record {
    rounds = 0;
    at_most = omega arith;
    counted = omega arith;
    met = Meets.nothing;
  }
  iterate-WhenAdded (suc left) before =
      Ensures-after Pooled round _ benchmark _ obey
        (λ tr r n h. WhenAdded-failed round (suc left) before tr r n (first h))
        (λ tr result h stop.
          interrupted_or_not left before result tr h
            (iterate-WhenAdded left (before ++ result ∷ [])) stop)

-- A run that returns results has carried out one round for each, after some first steps; one that fails
-- has stopped in the first steps or within the rounds.
abbrev pub Rounds : (Plan → Plan) → Plan → ℕ → Trace → Result BenchmarkResults → Type 0
Rounds start round most tr (ok results) =
    (length results ≤ most) × Meets (start (times (length results) round)) (commands tr)
Rounds start round most tr (err e) = Begins (start (times most round)) (commands tr)
Rounds start round most tr (panic s) = Begins (start (times most round)) (commands tr)
Rounds start round most tr (fatal s) = Begins (start (times most round)) (commands tr)

Rounds-first :
    (p : Plan) (start : Plan → Plan) (round : Plan) (most : ℕ) (tr : Trace)
    (r : Result BenchmarkResults)
    → ¬ Succeeds r
    → Begins p (commands tr)
    → Rounds (λ rest. both p (start rest)) round most tr r
Rounds-first p start round most tr (ok results) n h = absurd (n tt)
Rounds-first p start round most tr (err e) n h = first h
Rounds-first p start round most tr (panic e) n h = first h
Rounds-first p start round most tr (fatal e) n h = first h

Rounds-second :
    (p : Plan) (start : Plan → Plan) (round : Plan) (most : ℕ) (tr tr' : Trace)
    (r : Result BenchmarkResults)
    → Meets p (commands tr)
    → Rounds start round most tr' r
    → Rounds (λ rest. both p (start rest)) round most (tr ++ tr') r
Rounds-second p start round most tr tr' (ok results) h k =
    (k.0, rw commands-append (Meets.both h k.1))
Rounds-second p start round most tr tr' (err e) h k = rw commands-append (second h k)
Rounds-second p start round most tr tr' (panic e) h k = rw commands-append (second h k)
Rounds-second p start round most tr tr' (fatal e) h k = rw commands-append (second h k)

module _ (Pooled : Pooling (Task Unit)) {A : Type 0} where
  pub Rounds-bind :
      (p : Plan) (start : Plan → Plan) (round : Plan) (most : ℕ) (m : Main A)
      (f : A → Main BenchmarkResults)
      → Follows Pooled p m
      → ((a : A) → Ensures Pooled (f a) (Rounds start round most))
      → Ensures Pooled (m >>= f) (Rounds (λ rest. both p (start rest)) round most)
  Rounds-bind p start round most m f hm hf =
      Ensures-after Pooled p _ m f hm (Rounds-first p start round most) (λ tr a h.
        Ensures-mono Pooled (f a) _ _ (λ tr' r. Rounds-second p start round most tr tr' r h) (hf a))

Added-Rounds :
    (round : Plan) (most : ℕ) (tr : Trace) (r : Result BenchmarkResults)
    → WhenAdded round most [] tr r
    → Rounds (λ rest. rest) round most tr r
Added-Rounds round most tr (ok results) h =
    let all : length results ≡ h.rounds = let e = h.counted in omega arith in
    rw all (h.at_most, h.met)
Added-Rounds round most tr (err e) h = h
Added-Rounds round most tr (panic e) h = h
Added-Rounds round most tr (fatal e) h = h

module _ (Pooled : Pooling (Task Unit)) where
  pub iterate-Rounds :
      (round : Plan) (n : ℕ) (benchmark : Main BenchmarkResult)
      → Follows Pooled round benchmark
      → Ensures Pooled (iterate n benchmark []) (Rounds (λ rest. rest) round n)
  iterate-Rounds round n benchmark h =
      Ensures-mono Pooled _ _ _ (Added-Rounds round n)
        (iterate-WhenAdded Pooled round benchmark h n [])
