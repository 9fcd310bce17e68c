-- ===== src/Effect/Session/Values.antt =====
-- What is true of the value that a session returns, on every run that succeeds.
use mathlib.Core.Path.{subst}
use cbtools_autobench.Base.{
  enumerate, ℕ, String, ◌≡◌, refl, sym, length, Option, List, [], ◌∷◌, ◌++◌, map,
}
use cbtools_autobench.Result.{Result, ok, err, panic, fatal, wrapping}
use cbtools_autobench.Effect.Process.{Trace, Task}
use cbtools_autobench.Effect.Runs.{Pooling, Runs, Ensures-Runs, Ensures-always, Ensures-mono}
use cbtools_autobench.Effect.Yields.{OnOk, Yields}
use cbtools_autobench.Effect.Session.{
  Routine, Session, finish, routine, gather, beside, Script, if_ok, ◌>>=◌, run, returning,
  in_context, closing, finally, Filled, none, slot, Pools, Always, Always-mono, Always-and_then,
}
use cbtools_autobench.Effect.Session.Slots.{Write, WritesAt, Both, all_filled, written-Both}

module _ {Below : Pooling ⊥} (P : Pools Below) {A : Type 0} where
  pub record Returns (Q : A → Type 0) (s : Script A) : Type 0 where
    pub runs : Always P s (λ tr r. OnOk Q r)

  pub Returns-value : (Q : A → Type 0) (a : A) → Q a → Returns Q (returning (ok a))
  unfolding Always
  Returns-value Q a q = record { runs = q }

  pub Returns-lift :
      (Q : A → Type 0) (r : Result A) → ((a : A) → r ≡ ok a → Q a) → Returns Q (returning r)
  unfolding Always
  Returns-lift Q (ok a) h = record { runs = h a refl }
  Returns-lift Q (err e) h = record { runs = tt }
  Returns-lift Q (panic s) h = record { runs = tt }
  Returns-lift Q (fatal s) h = record { runs = tt }

  pub Returns-run : (Q : A → Type 0) (m : Routine A) → Yields P.tasks.pooled Q m → Returns Q (run m)
  unfolding Always
  Returns-run Q m h = record { runs = Ensures-mono P.tasks.pooled m _ _ (λ tr r q. q) h.runs }

  pub Always-anything :
      (s : Session A) (Q : Trace → A → Type 0) → ((tr : Trace) (a : A) → Q tr a) → Always P s Q
  unfolding Always
  Always-anything (finish a) Q h = h [] a
  Always-anything (routine p k) Q h =
      Ensures-always P.tasks.pooled p _ (λ tr x. Always-anything (k x) _ (λ tr' a. h (tr ++ tr') a))
  Always-anything (gather n ws k) Q h =
      λ front r slices. Always-anything (k r) _ (λ tr a. h (front ++ tr) a)
  Always-anything (beside n ws k) Q h =
      λ front r pooled. Always-anything (k r) _ (λ tr a. h (front ++ tr) a)

  OnOk-in_context : (Q : A → Type 0) (s : String) (r : Result A) → OnOk Q r → OnOk Q (wrapping s r)
  OnOk-in_context Q s (ok a) h = h
  OnOk-in_context Q s (err e) h = h
  OnOk-in_context Q s (panic e) h = h
  OnOk-in_context Q s (fatal e) h = h

  pub Returns-in_context :
      (Q : A → Type 0) (context : String) (s : Script A)
      → Returns Q s
      → Returns Q (in_context context s)
  unfolding in_context Always
  Returns-in_context Q context s h = record {
    runs =
        Always-and_then P s _ _ (Always-mono P s _ _ (λ tr r. OnOk-in_context Q context r) h.runs);
  }

module _ {Below : Pooling ⊥} (P : Pools Below) {A B : Type 0} where
  pub Returns-bind :
      (Q : A → Type 0) (R : B → Type 0) (s : Script A) (f : A → Script B)
      → Returns P Q s
      → ((a : A) → Q a → Returns P R (f a))
      → Returns P R (s >>= f)
  unfolding ◌>>=◌ Always
  Returns-bind Q R s f h k = record {
    runs = Always-and_then P s (if_ok f) _ (Always-mono P s _ _ goes h.runs);
  }
    where
      goes : (tr : Trace) (r : Result A) → OnOk Q r → Always P (if_ok f r) (λ tr' b. OnOk R b)
      goes tr (ok a) q = (k a q).runs
      goes tr (err e) q = tt
      goes tr (panic s) q = tt
      goes tr (fatal s) q = tt

  -- A first part of which nothing need be known.
  pub Returns-rest :
      (R : B → Type 0) (s : Script A) (f : A → Script B)
      → ((a : A) → Returns P R (f a))
      → Returns P R (s >>= f)
  Returns-rest R s f k =
      Returns-bind (λ a. Unit) R s f (record { runs = Always-anything P s _ anything }) (λ a q. k a)
    where
      anything : (tr : Trace) (r : Result A) → OnOk (λ a. Unit) r
      anything tr (ok a) = tt
      anything tr (err e) = tt
      anything tr (panic s) = tt
      anything tr (fatal s) = tt

module _ {Below : Pooling ⊥} (P : Pools Below) {A : Type 0} where
  -- Closing at the end leaves the value as it is.
  pub Returns-finally :
      (Q : A → Type 0) (close : Routine Unit) (s : Script A)
      → Returns P Q s
      → Returns P Q (finally close s)
  unfolding finally Always
  Returns-finally Q close s h = record {
    runs = Always-and_then P s _ _ (Always-mono P s _ _ goes h.runs);
  }
    where
      goes : (tr : Trace) (r : Result A) → OnOk Q r → Always P (closing close r) (λ tr' s. OnOk Q s)
      goes tr (ok a) q = Ensures-always P.tasks.pooled close _ (λ tr x. q)
      goes tr (err e) q = Ensures-always P.tasks.pooled close _ (λ tr x. tt)
      goes tr (panic e) q = Ensures-always P.tasks.pooled close _ (λ tr x. tt)
      goes tr (fatal e) q = tt

-- What the workers of a pool write.
module _ {Below : Pooling ⊥} {X Y : Type 0} (f : X → Task Y) (R : X → Y → Type 0)
    (each : (x : X) → Yields Below (R x) (f x)) where
  Filled-Both :
      (xs : List X) {tr : Trace} {ys : List Y} → Filled (Runs Below) (map f xs) tr ys → Both R xs ys
  Filled-Both [] none = tt
  Filled-Both (x ∷ xs) (slot runs rest m) =
      (Ensures-Runs Below (λ tr r. OnOk (R x) r) (each x).runs runs, Filled-Both xs rest)

-- The slice of a pool whose workers are given their places, once all its slots are filled.
module _ {Below : Pooling ⊥} {B Y : Type 0} (f : ℕ × B → Task (Write Y)) (R : B → Y → Type 0)
    (each : (x : ℕ × B) → Yields Below (WritesAt R x) (f x)) where
  abbrev Holds : List B → Result (List (Option Y)) → Type 0
  Holds bs r = OnOk (λ slots. OnOk (Both R bs) (all_filled slots)) r

  pub Returns-gather :
      (P : Pools Below) (bs : List B)
      → Returns P
          (λ slots. OnOk (Both R bs) (all_filled slots))
          (gather (length bs) (map f (enumerate 0 bs)) (λ r. finish r))
  unfolding Always
  Returns-gather P bs = record { runs = goes }
    where
      goes :
          (front : Trace) (r : Result (List (Option Y)))
          → P.slices (length bs) (map f (enumerate 0 bs)) front r
          → Holds bs r
      goes front (ok slots) h =
          let w = P.filled h in
          subst (λ slots. OnOk (Both R bs) (all_filled slots)) (sym w.written)
            (written-Both R bs w.writes w.order
              (Filled-Both f (WritesAt R) each (enumerate 0 bs) w.filled) w.reordered)
      goes front (err e) h = tt
      goes front (panic s) h = tt
      goes front (fatal s) h = tt
