-- ===== src/Effect/Runs.antt =====
-- Runs of processes, the worker pool, and a calculus of what every run ensures.
use mathlib.Core.List.{append_assoc, Memᴰ}
use mathlib.Core.Path.{subst}
use cbtools_autobench.Base.{ℕ, Bool, List, [], ◌∷◌, ◌++◌}
use cbtools_autobench.Result.{Result, ok, ended, Succeeds}
use cbtools_autobench.Effect.Process.{
  Request, Reply, Question, Gauge, replied, answered, read, Trace, Process, done, request, ask,
  measure, pool, continue,
}

-- `xs` and `ys` interleaved.
pub data Merge {A : Type 0} : List A → List A → List A → Type 0 where
  end : Merge [] [] []
  left : {xs ys zs : List A} (x : A) → Merge xs ys zs → Merge (x ∷ xs) ys (x ∷ zs)
  right : {xs ys zs : List A} (y : A) → Merge xs ys zs → Merge xs (y ∷ ys) (y ∷ zs)

-- What happens in one part happens in the whole.
pub member_left : {A : Type 0} {e : A} {xs ys zs : List A} → Merge xs ys zs → Memᴰ e xs → Memᴰ e zs
member_left end m = m
member_left (left x rest) (Memᴰ.head p) = Memᴰ.head p
member_left (left x rest) (Memᴰ.tail m) = Memᴰ.tail (member_left rest m)
member_left (right y rest) m = Memᴰ.tail (member_left rest m)

pub member_right : {A : Type 0} {e : A} {xs ys zs : List A} → Merge xs ys zs → Memᴰ e ys → Memᴰ e zs
member_right end m = m
member_right (left x rest) m = Memᴰ.tail (member_right rest m)
member_right (right y rest) (Memᴰ.head p) = Memᴰ.head p
member_right (right y rest) (Memᴰ.tail m) = Memᴰ.tail (member_right rest m)

-- What a pool may do: the workers, how their events are ordered, and the result of `Stop`.
abbrev pub Pooling : Type 0 → Type 1
Pooling W = ℕ → List W → Trace → Result (Unit {0}) → Type 0

module _ {W : Type 0} (Pooled : Pooling W) {A : Type 0} where
  pub data Runs : Process W A → Trace → A → Type 0 where
    ends : (a : A) → Runs (done a) [] a
    replies :
        {r : Request} {k : Reply → Process W A} {tr : Trace} {a : A} (y : Reply)
        → Runs (k y) tr a
        → Runs (request r k) (replied r y ∷ tr) a
    answers :
        {q : Question} {k : Bool → Process W A} {tr : Trace} {a : A} (b : Bool)
        → Runs (k b) tr a
        → Runs (ask q k) (answered q b ∷ tr) a
    reads :
        {g : Gauge} {k : ℕ → Process W A} {tr : Trace} {a : A} (n : ℕ)
        → Runs (k n) tr a
        → Runs (measure g k) (read g n ∷ tr) a
    pools :
        {n : ℕ} {ws : List W} {k : Result (Unit {0}) → Process W A} {front tr : Trace} {a : A}
        (r : Result (Unit {0}))
        → Pooled n ws front r
        → Runs (k r) tr a
        → Runs (pool n ws k) (front ++ tr) a

  -- Every run of the process, whatever the environment answers, has a trace and a result with `Q`.
  unfoldable pub Ensures : Process W A → (Trace → A → Type 0) → Type 0
  Ensures (done a) Q = Q [] a
  Ensures (request r k) Q = (y : Reply) → Ensures (k y) (λ tr a. Q (replied r y ∷ tr) a)
  Ensures (ask q k) Q = (b : Bool) → Ensures (k b) (λ tr a. Q (answered q b ∷ tr) a)
  Ensures (measure g k) Q = (t : ℕ) → Ensures (k t) (λ tr a. Q (read g t ∷ tr) a)
  Ensures (pool n ws k) Q =
      (front : Trace) (r : Result (Unit {0}))
      → Pooled n ws front r
      → Ensures (k r) (λ tr a. Q (front ++ tr) a)

  pub Ensures-Runs :
      {p : Process W A} {tr : Trace} {a : A} (Q : Trace → A → Type 0)
      → Ensures p Q
      → Runs p tr a
      → Q tr a
  unfolding Ensures
  Ensures-Runs Q h (Runs.ends a) = h
  Ensures-Runs Q h (Runs.replies {r} y runs) =
      Ensures-Runs (λ tr a. Q (replied r y ∷ tr) a) (h y) runs
  Ensures-Runs Q h (Runs.answers {q} b runs) =
      Ensures-Runs (λ tr a. Q (answered q b ∷ tr) a) (h b) runs
  Ensures-Runs Q h (Runs.reads {g} n runs) = Ensures-Runs (λ tr a. Q (read g n ∷ tr) a) (h n) runs
  Ensures-Runs Q h (Runs.pools {front} r pooled runs) =
      Ensures-Runs (λ tr a. Q (front ++ tr) a) (h front r pooled) runs

  -- What holds of everything holds of each run.
  pub Ensures-always :
      (p : Process W A) (Q : Trace → A → Type 0) → ((tr : Trace) (a : A) → Q tr a) → Ensures p Q
  unfolding Ensures
  Ensures-always (done a) Q h = h [] a
  Ensures-always (request r k) Q h = λ y. Ensures-always (k y) _ (λ tr a. h (replied r y ∷ tr) a)
  Ensures-always (ask q k) Q h = λ b. Ensures-always (k b) _ (λ tr a. h (answered q b ∷ tr) a)
  Ensures-always (measure g k) Q h = λ t. Ensures-always (k t) _ (λ tr a. h (read g t ∷ tr) a)
  Ensures-always (pool n ws k) Q h =
      λ front r pooled. Ensures-always (k r) _ (λ tr a. h (front ++ tr) a)

  pub Ensures-mono :
      (p : Process W A) (Q R : Trace → A → Type 0)
      → ((tr : Trace) (a : A) → Q tr a → R tr a)
      → Ensures p Q
      → Ensures p R
  unfolding Ensures
  Ensures-mono (done a) Q R imp h = imp [] a h
  Ensures-mono (request r k) Q R imp h =
      λ y. Ensures-mono (k y) _ _ (λ tr a. imp (replied r y ∷ tr) a) (h y)
  Ensures-mono (ask q k) Q R imp h =
      λ b. Ensures-mono (k b) _ _ (λ tr a. imp (answered q b ∷ tr) a) (h b)
  Ensures-mono (measure g k) Q R imp h =
      λ t. Ensures-mono (k t) _ _ (λ tr a. imp (read g t ∷ tr) a) (h t)
  Ensures-mono (pool n ws k) Q R imp h =
      λ front r pooled. Ensures-mono (k r) _ _ (λ tr a. imp (front ++ tr) a) (h front r pooled)

module _ {W : Type 0} (Pooled : Pooling W) {A : Type 0} where
  pub Ensures-both :
      (p : Process W A) (Q R : Trace → A → Type 0)
      → Ensures Pooled p Q
      → Ensures Pooled p R
      → Ensures Pooled p (λ tr a. Q tr a × R tr a)
  unfolding Ensures
  Ensures-both (done a) Q R h k = (h, k)
  Ensures-both (request r f) Q R h k = λ y. Ensures-both (f y) _ _ (h y) (k y)
  Ensures-both (ask q f) Q R h k = λ b. Ensures-both (f b) _ _ (h b) (k b)
  Ensures-both (measure g f) Q R h k = λ t. Ensures-both (f t) _ _ (h t) (k t)
  Ensures-both (pool n ws f) Q R h k =
      λ front r pooled. Ensures-both (f r) _ _ (h front r pooled) (k front r pooled)

module _ {W : Type 0} (Pooled : Pooling W) {A B : Type 0} where
  pub Ensures-continue :
      (p : Process W A) (f : A → Process W B) (Q : Trace → B → Type 0)
      → Ensures Pooled p (λ tr a. Ensures Pooled (f a) (λ tr' b. Q (tr ++ tr') b))
      → Ensures Pooled (continue p f) Q
  unfolding Ensures continue
  Ensures-continue (done a) f Q h = h
  Ensures-continue (request r k) f Q h =
      λ y. Ensures-continue (k y) f (λ tr b. Q (replied r y ∷ tr) b) (h y)
  Ensures-continue (ask q k) f Q h =
      λ b. Ensures-continue (k b) f (λ tr b'. Q (answered q b ∷ tr) b') (h b)
  Ensures-continue (measure g k) f Q h =
      λ t. Ensures-continue (k t) f (λ tr b. Q (read g t ∷ tr) b) (h t)
  Ensures-continue (pool n ws k) f Q h = λ front r pooled.
      Ensures-continue (k r) f (λ tr b. Q (front ++ tr) b)
        (Ensures-mono Pooled (k r) _ _
          (λ tr a.
            Ensures-mono Pooled (f a) _ _
              (λ tr' b. subst (λ (t : Trace). Q t b) (append_assoc front tr tr')))
          (h front r pooled))

-- What the documentation of a worker pool promises: each worker that is queued runs to its end, also
-- once another has failed; once a worker has failed, others may no longer be queued; `Stop` returns nil
-- exactly if all workers have run and none has failed, and else the error of a worker that has. Their
-- events interleave in any way. A worker that panics ends the process.
module _ {W : Type 0} (RunsWorker : W → Trace → Result (Unit {0}) → Type 0) where
  -- Each worker has run, with any result, or has not been queued.
  pub data Partly : List W → Trace → Type 0 where
    none : Partly [] []
    queued :
        {w : W} {ws : List W} {xs ys zs : Trace} {r : Result (Unit {0})}
        → RunsWorker w xs r
        → Partly ws ys
        → Merge xs ys zs
        → Partly (w ∷ ws) zs
    unqueued : {w : W} {ws : List W} {ys : Trace} → Partly ws ys → Partly (w ∷ ws) ys

  pub data Shuffled : List W → Trace → Result (Unit {0}) → Type 0 where
    idle : Shuffled [] [] (ok tt)
    finished :
        {w : W} {ws : List W} {xs ys zs : Trace} {r : Result (Unit {0})}
        → RunsWorker w xs (ok tt)
        → Shuffled ws ys r
        → Merge xs ys zs
        → Shuffled (w ∷ ws) zs r
    -- `Stop` returns the error of this worker.
    reported :
        {w : W} {ws : List W} {xs ys zs : Trace} {r : Result (Unit {0})}
        → RunsWorker w xs r
        → ¬ Succeeds r
        → Partly ws ys
        → Merge xs ys zs
        → Shuffled (w ∷ ws) zs (ended r)
    -- `Stop` returns the error of a later one.
    hidden :
        {w : W} {ws : List W} {xs ys zs : Trace} {r s : Result (Unit {0})}
        → RunsWorker w xs r
        → Shuffled ws ys s
        → ¬ Succeeds s
        → Merge xs ys zs
        → Shuffled (w ∷ ws) zs s
    dropped :
        {w : W} {ws : List W} {ys : Trace} {s : Result (Unit {0})}
        → Shuffled ws ys s
        → ¬ Succeeds s
        → Shuffled (w ∷ ws) ys s

  pub Shuffled-Partly :
      {ws : List W} {tr : Trace} {r : Result (Unit {0})} → Shuffled ws tr r → Partly ws tr
  Shuffled-Partly idle = none
  Shuffled-Partly (finished runs rest m) = queued runs (Shuffled-Partly rest) m
  Shuffled-Partly (reported runs n rest m) = queued runs rest m
  Shuffled-Partly (hidden runs rest n m) = queued runs (Shuffled-Partly rest) m
  Shuffled-Partly (dropped rest n) = unqueued (Shuffled-Partly rest)

-- A pool of github.com/couchbase/tools-common/sync/hofp. It may do less than is documented, as with
-- fewer workers than tasks.
pub record Pool (W : Type 0) (RunsWorker : W → Trace → Result (Unit {0}) → Type 0) : Type 1 where
  pub pooled : Pooling W
  pub documented :
      {n : ℕ} {ws : List W} {tr : Trace} {r : Result (Unit {0})}
      → pooled n ws tr r
      → Shuffled RunsWorker ws tr r
