-- ===== src/Effect/Session/Simulate.antt =====
-- The result of a session in a given environment, whose pools run their workers one after the other.
use mathlib.Core.List.Permᴰ
use cbtools_autobench.Base.{ℕ, Bool, refl, Option, List, [], ◌∷◌}
use cbtools_autobench.Effect.Session.Slots.{Write, write_all, empty_slots}
use cbtools_autobench.Effect.Yields.{OnOk}
use cbtools_autobench.Result.{Result, ok, err, panic, fatal}
use cbtools_autobench.Effect.Process.{Request, Reply, Question, Gauge, Task, Trace}
use cbtools_autobench.Effect.Simulate.{
  simulate, simulate-Runs, worker, machine, machine-Runs, first_failure, Merge-append,
  Shuffled-cons, no_pool, any_pool,
}
use cbtools_autobench.Effect.Session.{
  Routine, Session, finish, routine, gather, beside, Filled, slot, none, Always,
}
use cbtools_autobench.Effect.Session.Any.{AnySlices, any_pools}
use cbtools_autobench.Effect.Runs.{Runs, Shuffled, idle, Ensures-Runs}

module _ {X : Type 0} where
  -- the slice with these writes
  abbrev slots_of : ℕ → Result (List (Write X)) → Result (List (Option X))
  slots_of n (ok ws) = ok (write_all ws (empty_slots n))
  slots_of n (err e) = err e
  slots_of n (panic s) = panic s
  slots_of n (fatal s) = fatal s

  -- a value into its slot, in front of the others
  abbrev into_slot : Result X → Result (List X) → Result (List X)
  into_slot (ok x) (ok xs) = ok (x ∷ xs)
  into_slot (ok x) r = r
  into_slot (err e) r = err e
  into_slot (panic s) r = panic s
  into_slot (fatal s) r = fatal s

module _ (reply : Request → Reply) (settle : Question → Bool) (gauge : Gauge → ℕ) where
  unfoldable pub in_slots : {X : Type 0} → List (Task X) → Result (List X)
  unfolding simulate
  in_slots [] = ok []
  in_slots (w ∷ ws) = into_slot (simulate (worker reply settle gauge) w).1 (in_slots ws)

  unfoldable pub each_in_turn : List (Routine Unit) → Result (Unit {0})
  unfolding simulate machine
  each_in_turn [] = ok tt
  each_in_turn (p ∷ ps) =
      first_failure (simulate (machine reply settle gauge) p).1 (each_in_turn ps)

  unfoldable pub session_result : {A : Type 0} → Session A → A
  unfolding simulate machine
  session_result (finish a) = a
  session_result (routine p k) = session_result (k (simulate (machine reply settle gauge) p).1)
  session_result (gather n ws k) = session_result (k (slots_of n (in_slots ws)))
  session_result (beside n ws k) = session_result (k (each_in_turn ws))

-- The workers have returned these values, if all of them succeed.
abbrev FilledOnOk : {X : Type 0} → List (Task X) → Trace → Result (List X) → Type 0
FilledOnOk ws tr r = OnOk (λ vs. Filled (Runs no_pool) ws tr vs) r

into_slot-FilledOnOk :
    {X : Type 0} (w : Task X) (ws : List (Task X)) (xs : Trace) (r : Result X) (s : Result (List X))
    → Runs no_pool w xs r
    → (tr : Trace) × FilledOnOk ws tr s
    → (tr : Trace) × FilledOnOk (w ∷ ws) tr (into_slot r s)
into_slot-FilledOnOk w ws xs (ok x) (ok vs) h (tr, k) = (_, slot h k (Merge-append _ tr))
into_slot-FilledOnOk w ws xs (ok x) (err e) h k = ([], tt)
into_slot-FilledOnOk w ws xs (ok x) (panic e) h k = ([], tt)
into_slot-FilledOnOk w ws xs (ok x) (fatal e) h k = ([], tt)
into_slot-FilledOnOk w ws xs (err e) s h k = ([], tt)
into_slot-FilledOnOk w ws xs (panic e) s h k = ([], tt)
into_slot-FilledOnOk w ws xs (fatal e) s h k = ([], tt)

slots_of-AnySlices :
    {X : Type 0} (n : ℕ) (ws : List (Task (Write X))) (r : Result (List (Write X)))
    → (tr : Trace) × FilledOnOk ws tr r
    → (tr : Trace) × AnySlices n ws tr (slots_of n r)
slots_of-AnySlices n ws (ok vs) (tr, h) =
    (tr, record { writes = vs; filled = h; order = vs; reordered = Permᴰ.refl vs; written = refl })
slots_of-AnySlices n ws (err e) h = ([], tt)
slots_of-AnySlices n ws (panic e) h = ([], tt)
slots_of-AnySlices n ws (fatal e) h = ([], tt)

module _ (reply : Request → Reply) (settle : Question → Bool) (gauge : Gauge → ℕ) where
  in_slots-FilledOnOk :
      {X : Type 0} (ws : List (Task X))
      → (tr : Trace) × FilledOnOk ws tr (in_slots reply settle gauge ws)
  unfolding in_slots
  in_slots-FilledOnOk [] = ([], none)
  in_slots-FilledOnOk (w ∷ ws) =
      into_slot-FilledOnOk w ws _ _ _
        (simulate-Runs (worker reply settle gauge) no_pool (λ n ws. tt) w) (in_slots-FilledOnOk ws)

  each_in_turn-Shuffled :
      (ps : List (Routine Unit))
      → (tr : Trace) × Shuffled (Runs any_pool.pooled) ps tr (each_in_turn reply settle gauge ps)
  unfolding each_in_turn
  each_in_turn-Shuffled [] = ([], idle)
  each_in_turn-Shuffled (p ∷ ps) =
      let rest = each_in_turn-Shuffled ps in
      (
        _,
        Shuffled-cons (Runs any_pool.pooled) p ps _ _ _ _ (machine-Runs reply settle gauge p)
            rest.1,
      )

  -- What is always true is true of the result that is computed.
  pub Always-session_result :
      {A : Type 0} (s : Session A) (Q : Trace → A → Type 0)
      → Always any_pools s Q
      → (tr : Trace) × Q tr (session_result reply settle gauge s)
  unfolding session_result Always
  Always-session_result (finish a) Q h = ([], h)
  Always-session_result (routine p k) Q h =
      let rest =
        Always-session_result (k _) _
          (Ensures-Runs any_pool.pooled _ h (machine-Runs reply settle gauge p)) in
      (_, rest.1)
  Always-session_result (gather n ws k) Q h =
      let slots = slots_of-AnySlices n ws _ (in_slots-FilledOnOk ws) in
      let rest = Always-session_result (k _) _ (h slots.0 _ slots.1) in (_, rest.1)
  Always-session_result (beside n ws k) Q h =
      let turns = each_in_turn-Shuffled ws in
      let rest = Always-session_result (k _) _ (h turns.0 _ turns.1) in (_, rest.1)
