-- ===== src/Effect/Session.antt =====
-- The code of a sub-command. It runs the code of the main goroutine, and starts pools of two more
-- kinds: of workers that each write a value into their slot of a slice, and of workers that have pools
-- of their own.
pub mod Any
pub mod Closing
pub mod Blame
pub mod Last
pub mod Plans
pub mod Simulate
pub mod Slots
pub mod Values
pub mod Within
use mathlib.Core.Path.{subst}
use mathlib.Core.List.{append_assoc}
use mathlib.Core.List.{Permᴰ}
use cbtools_autobench.Effect.Session.Slots.{Write, write_all, empty_slots}
use cbtools_autobench.Base.{ℕ, String, ◌≡◌, Option, List, [], ◌∷◌, ◌++◌}
use cbtools_autobench.Result.{Result, ok, err, panic, fatal, wrapping, Succeeds}
use cbtools_autobench.Effect.Process.{Trace, Process, Exec, Task}
use cbtools_autobench.Effect.Runs.{Merge, Pooling, Runs, Ensures, Ensures-mono, Shuffled, Pool}

-- The code of the main goroutine, which starts pools of tasks.
abbrev pub Routine : Type 0 → Type 0
Routine A = Exec (Task Unit) A

pub data Session (A : Type 0) : Type 1 where
  finish : A → Session A
  routine : {X : Type 0} → Process (Task Unit) X → (X → Session A) → Session A
  -- a pool whose workers each write one slot of a new slice of that length, which is read once the pool
  -- has stopped
  gather :
      {X : Type 0} → ℕ → List (Task (Write X)) → (Result (List (Option X)) → Session A) → Session A
  -- a pool of routines
  beside : ℕ → List (Routine Unit) → (Result (Unit {0}) → Session A) → Session A

-- Code that may fail.
abbrev pub Script : Type 0 → Type 1
Script A = Session (Result A)

module _ {A B : Type 0} where
  unfoldable pub and_then : Session A → (A → Session B) → Session B
  and_then (Session.finish a) f = f a
  and_then (Session.routine p k) f = Session.routine p (λ x. and_then (k x) f)
  and_then (Session.gather n ws k) f = Session.gather n ws (λ r. and_then (k r) f)
  and_then (Session.beside n ws k) f = Session.beside n ws (λ r. and_then (k r) f)

  abbrev pub if_ok : (A → Script B) → Result A → Script B
  if_ok f (ok a) = f a
  if_ok f (err e) = Session.finish (err e)
  if_ok f (panic s) = Session.finish (panic s)
  if_ok f (fatal s) = Session.finish (fatal s)

module _ {A B : Type 0} where
  infixl 5 ◌>>=◌ ◌>>◌
  unfoldable pub ◌>>=◌ : Script A → (A → Script B) → Script B
  unfolding and_then
  m >>= f = and_then m (if_ok f)

  abbrev pub ◌>>◌ : Script A → Script B → Script B
  m >> n = m >>= λ _. n

module _ {A : Type 0} where
  abbrev pub run : Routine A → Script A
  run m = Session.routine m (λ r. Session.finish r)

  abbrev pub returning : Result A → Script A
  returning r = Session.finish r

  unfoldable pub in_context : String → Script A → Script A
  unfolding and_then
  in_context context m = and_then m (λ r. Session.finish (wrapping context r))

  -- `defer close()`: its result is dropped. It is called if the main goroutine panics, not if
  -- the process is ended by `log.Fatal` or by a panic of another goroutine.
  abbrev pub closing : Routine Unit → Result A → Script A
  closing close (ok a) = Session.routine close (λ r. Session.finish (ok a))
  closing close (err e) = Session.routine close (λ r. Session.finish (err e))
  closing close (panic s) = Session.routine close (λ r. Session.finish (panic s))
  closing close (fatal s) = Session.finish (fatal s)

  unfoldable pub finally : Routine Unit → Script A → Script A
  unfolding and_then
  finally close m = and_then m (closing close)

-- Each worker has run to its end and has returned its value.
pub data Filled {X : Type 0} (RunsWorker : Task X → Trace → Result X → Type 0)
    : List (Task X) → Trace → List X → Type 0 where
  none : Filled RunsWorker [] [] []
  slot :
      {w : Task X} {ws : List (Task X)} {xs ys zs : Trace} {x : X} {vs : List X}
      → RunsWorker w xs (ok x)
      → Filled RunsWorker ws ys vs
      → Merge xs ys zs
      → Filled RunsWorker (w ∷ ws) zs (x ∷ vs)

-- What a pool promises whose workers write slots: if Stop returns nil, each worker has run to its end,
-- and their writes have been made, each once, in any order.
pub record Written {X : Type 0} (RunsWorker : Task (Write X) → Trace → Result (Write X) → Type 0)
    (n : ℕ) (ws : List (Task (Write X))) (tr : Trace) (slots : List (Option X)) : Type 0 where
  pub writes : List (Write X)
  pub filled : Filled RunsWorker ws tr writes
  pub order : List (Write X)
  pub reordered : Permᴰ writes order
  pub written : slots ≡ write_all order (empty_slots n)

-- How the pools of a session behave.
pub record Pools (Below : Pooling ⊥) : Type 1 where
  pub tasks : Pool (Task Unit) (Runs Below)
  pub routines : Pool (Routine Unit) (Runs tasks.pooled)
  pub slices : {X : Type 0} → ℕ → List (Task (Write X)) → Trace → Result (List (Option X)) → Type 0
  pub filled :
      {X : Type 0} {n : ℕ} {ws : List (Task (Write X))} {tr : Trace} {slots : List (Option X)}
      → slices n ws tr (ok slots)
      → Written (Runs Below) n ws tr slots

module _ {Below : Pooling ⊥} (P : Pools Below) {A : Type 0} where
  -- Every run of the session, whatever the environment answers, has a trace and a result with `Q`.
  unfoldable pub Always : Session A → (Trace → A → Type 0) → Type 0
  Always (Session.finish a) Q = Q [] a
  Always (Session.routine p k) Q =
      Ensures P.tasks.pooled p (λ tr x. Always (k x) (λ tr' a. Q (tr ++ tr') a))
  Always (Session.gather {X} n ws k) Q =
      (front : Trace) (r : Result (List (Option X)))
      → P.slices n ws front r
      → Always (k r) (λ tr a. Q (front ++ tr) a)
  Always (Session.beside n ws k) Q =
      (front : Trace) (r : Result (Unit {0}))
      → P.routines.pooled n ws front r
      → Always (k r) (λ tr a. Q (front ++ tr) a)

  pub Always-mono :
      (s : Session A) (Q R : Trace → A → Type 0)
      → ((tr : Trace) (a : A) → Q tr a → R tr a)
      → Always s Q
      → Always s R
  unfolding Always
  Always-mono (Session.finish a) Q R imp h = imp [] a h
  Always-mono (Session.routine p k) Q R imp h =
      Ensures-mono P.tasks.pooled p _ _ (λ tr x. Always-mono (k x) _ _ (λ tr' a. imp (tr ++ tr') a))
        h
  Always-mono (Session.gather n ws k) Q R imp h =
      λ front r slices. Always-mono (k r) _ _ (λ tr a. imp (front ++ tr) a) (h front r slices)
  Always-mono (Session.beside n ws k) Q R imp h =
      λ front r pooled. Always-mono (k r) _ _ (λ tr a. imp (front ++ tr) a) (h front r pooled)

module _ {Below : Pooling ⊥} (P : Pools Below) {A B : Type 0} where
  -- the trace of the rest comes behind a front
  regroup :
      (f : A → Session B) (Q : Trace → B → Type 0) (front tr : Trace) (a : A)
      → Always P (f a) (λ tr' b. Q ((front ++ tr) ++ tr') b)
      → Always P (f a) (λ tr' b. Q (front ++ (tr ++ tr')) b)
  regroup f Q front tr a =
      Always-mono P (f a) _ _ (λ tr' b. subst (λ (t : Trace). Q t b) (append_assoc front tr tr'))

  pub Always-and_then :
      (s : Session A) (f : A → Session B) (Q : Trace → B → Type 0)
      → Always P s (λ tr a. Always P (f a) (λ tr' b. Q (tr ++ tr') b))
      → Always P (and_then s f) Q
  unfolding Always and_then
  Always-and_then (Session.finish a) f Q h = h
  Always-and_then (Session.routine p k) f Q h =
      Ensures-mono P.tasks.pooled p _ _
        (λ front x g.
          Always-and_then (k x) f (λ tr b. Q (front ++ tr) b)
            (Always-mono P (k x) _ _ (regroup f Q front) g))
        h
  Always-and_then (Session.gather n ws k) f Q h = λ front r slices.
      Always-and_then (k r) f (λ tr b. Q (front ++ tr) b)
        (Always-mono P (k r) _ _ (regroup f Q front) (h front r slices))
  Always-and_then (Session.beside n ws k) f Q h = λ front r pooled.
      Always-and_then (k r) f (λ tr b. Q (front ++ tr) b)
        (Always-mono P (k r) _ _ (regroup f Q front) (h front r pooled))
