-- ===== src/Nodes/Cluster/Poll/Runs.antt =====
-- What poll of nodes/cluster.go does, given how often the ticker's case is taken.
use mathlib.Core.List.{append-nil}
use cbtools_autobench.Base.{◌≡◌, refl, ℕ, zero, suc, Bool, true, false, [], ◌∷◌, ◌++◌}
use cbtools_autobench.Result.{Result, ok, err, panic, fatal, Succeeds}
use cbtools_autobench.Effect.Process.{ticks, read, Trace, Exec, pure, on_ok, ◌>>=◌}
use cbtools_autobench.Effect.Runs.{Pooling, Ensures, Ensures-mono, Ensures-continue}
use cbtools_autobench.Effect.Plan.{nothing, commands}
use cbtools_autobench.Effect.Follows.{Follows, Follows-pure, Follows-silent}
use cbtools_autobench.Nodes.Cluster.Poll.{poll_loop, poll}

-- So many ticks come before the deadline, and `Look` says what a call of the function may do: the
-- function is called at each tick until it reports readiness or fails, and the timeout is reached if it
-- did neither at any of them.
pub data Polls (Look : Trace → Result Bool → Type 0) : ℕ → Trace → Result Bool → Type 0 where
  given_up : Polls Look 0 [] (ok true)
  found : {n : ℕ} {tr : Trace} → Look tr (ok true) → Polls Look (suc n) tr (ok false)
  failed :
      {n : ℕ} {tr : Trace} {r : Result Bool} → Look tr r → ¬ Succeeds r → Polls Look (suc n) tr r
  again :
      {n : ℕ} {tr tr' : Trace} {r : Result Bool}
      → Look tr (ok false)
      → Polls Look n tr' r
      → Polls Look (suc n) (tr ++ tr') r

-- The same, after the reading.
pub record Polled (Look : Trace → Result Bool → Type 0) (timeout : ℕ) (tr : Trace) (r : Result Bool)
    : Type 0 where
  pub taken : ℕ
  pub rest : Trace
  pub whole_trace : tr ≡ read (ticks 15 timeout) taken ∷ rest
  pub polls : Polls Look taken rest r

module _ {W : Type 0} (Pooled : Pooling W) where
  module _ (Look : Trace → Result Bool → Type 0) where
    after_look :
        (n : ℕ) (rest : Exec W Bool) (tr : Trace) (r : Result Bool)
        → Ensures Pooled rest (Polls Look n)
        → Look tr r
        → Ensures Pooled
            (on_ok (λ ready. elim ready [ true ↦ pure false | false ↦ rest ]) r)
            (λ tr' s. Polls Look (suc n) (tr ++ tr') s)
    unfolding Ensures
    after_look n rest tr (ok true) h look = rw append-nil (found look)
    after_look n rest tr (ok false) h look =
        Ensures-mono Pooled rest _ _ (λ tr' s polls. again look polls) h
    after_look n rest tr (err e) h look = rw append-nil (failed look (λ x. x))
    after_look n rest tr (panic s) h look = rw append-nil (failed look (λ x. x))
    after_look n rest tr (fatal s) h look = rw append-nil (failed look (λ x. x))

    loop-Polls :
        (n : ℕ) (ready : Exec W Bool)
        → Ensures Pooled ready Look
        → Ensures Pooled (poll_loop n ready) (Polls Look n)
    unfolding poll_loop Ensures ◌>>=◌
    loop-Polls zero ready h = given_up
    loop-Polls (suc n) ready h = Ensures-continue Pooled ready _ _ (
        Ensures-mono Pooled ready _ _
          (λ tr r. after_look n (poll_loop n ready) tr r (loop-Polls n ready h)) h)

    -- On every run, `select` takes the case of the ticker some number of times before that of the
    -- deadline, and `poll` calls a function whose every call does what `Look` says once for each of these,
    -- in order, until a call reports readiness, and then no timeout is reported, or fails, and then poll
    -- fails with the same error. A timeout is reported exactly when all those calls reported that it is
    -- not ready.
    pub poll-Polled :
        (ready : Exec W Bool) (timeout : ℕ)
        → Ensures Pooled ready Look
        → Ensures Pooled (poll ready timeout) (Polled Look timeout)
    unfolding poll Ensures
    poll-Polled ready timeout h = λ n.
        Ensures-mono Pooled (poll_loop n ready) _ _
          (λ tr r polls. record { taken = n; rest = tr; whole_trace = refl; polls = polls })
          (loop-Polls n ready h)

  found_or_not :
      (found : Bool) {rest : Exec W Bool}
      → Follows Pooled nothing rest
      → Follows Pooled nothing (elim found [ true ↦ pure false | false ↦ rest ])
  found_or_not true h = Follows-pure Pooled false
  found_or_not false h = h

  poll_loop-Follows :
      (n : ℕ) (ready : Exec W Bool)
      → Follows Pooled nothing ready
      → Follows Pooled nothing (poll_loop n ready)
  unfolding poll_loop
  poll_loop-Follows zero ready h = Follows-pure Pooled true
  poll_loop-Follows (suc n) ready h =
      Follows-silent Pooled nothing ready _ h
        (λ found. found_or_not found (poll_loop-Follows n ready h))

  -- Polling a function that gives no remote command gives none.
  pub poll-Follows :
      (ready : Exec W Bool) (timeout : ℕ)
      → Follows Pooled nothing ready
      → Follows Pooled nothing (poll ready timeout)
  unfolding poll Ensures commands
  poll-Follows ready timeout h = record { runs = λ n. (poll_loop-Follows n ready h).runs }
