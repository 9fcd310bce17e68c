-- ===== src/Nodes/Cluster/Poll/Select.antt =====
-- The loop of poll of nodes/cluster.go as it runs in time, in milliseconds: a ticker that fires every 15
-- seconds with room for one tick, a deadline, and calls of `pollFunc` that report that it is not ready,
-- each after at most `longest`.
use mathlib.Core.Path.{subst}
use mathlib.Core.WellFounded.{Acc}
use cbtools_autobench.Base.{
  ◌≡◌, refl, ℕ, zero, suc, ◌+◌, ◌*◌, ◌/◌, ◌%◌, ◌-◌, ◌≤◌, ◌<◌, Bool, true, false, arith, ltb,
}

-- At the `select`: the time, whether a tick is in the ticker's channel, and how often `pollFunc` was
-- called. When poll has returned: how often it was called.
pub data Select : Type 0 where
  waiting : ℕ → Bool → ℕ → Select
  returned : ℕ → Select

abbrev pub start : Select
start = waiting 0 false 0

-- Whether the ticker fires after the time `t`, up to `u`.
unfoldable pub fires : ℕ → ℕ → Bool
fires t u = ltb (t / 15_000) (u / 15_000)

-- The `select` blocks, takes the ticker's case, or takes that of the deadline; where both are ready, it
-- takes either.
pub data Step (deadline longest : ℕ) : Select → Select → Type 0 where
  blocks :
      (t n : ℕ)
      → t < deadline
      → Step deadline longest (waiting t false n) (waiting (suc t) (fires t (suc t)) n)
  ticks :
      (t n d : ℕ)
      → d ≤ longest
      → Step deadline longest (waiting t true n) (waiting (t + d) (fires t (t + d)) (suc n))
  times_out :
      (t n : ℕ) (b : Bool) → deadline ≤ t → Step deadline longest (waiting t b n) (returned n)

pub data Steps (deadline longest : ℕ) : Select → Select → Type 0 where
  here : (s : Select) → Steps deadline longest s s
  then :
      {s t u : Select}
      → Steps deadline longest s t
      → Step deadline longest t u
      → Steps deadline longest s u

-- Calls shorter than the period are never late: a tick is taken when it fires.
abbrev InTime : ℕ → Select → Type 0
InTime deadline (waiting t false n) = (n ≡ t / 15_000) × (n * 15_000 ≤ deadline)
InTime deadline (waiting t true n) = (suc n ≡ t / 15_000) × (t % 15_000 ≡ 0) × (t ≤ deadline)
InTime deadline (returned n) = (n * 15_000 ≤ deadline) × (deadline ≤ suc n * 15_000)

Step-InTime :
    (deadline longest : ℕ) (s s' : Select)
    → longest < 15_000
    → Step deadline longest s s'
    → InTime deadline s
    → InTime deadline s'
unfolding fires
Step-InTime deadline longest _ _ short (blocks t n early) h = ground arith
Step-InTime deadline longest _ _ short (ticks t n d quick) h = ground arith
Step-InTime deadline longest _ _ short (times_out t n true late) h = ground arith
Step-InTime deadline longest _ _ short (times_out t n false late) h = ground arith

start-InTime : (deadline : ℕ) → InTime deadline start
start-InTime deadline = ground arith

Steps-InTime :
    (deadline longest : ℕ) (s s' : Select)
    → longest < 15_000
    → Steps deadline longest s s'
    → InTime deadline s
    → InTime deadline s'
Steps-InTime deadline longest _ _ short (here s) h = h
Steps-InTime deadline longest s _ short (then {t} {u} steps step) h =
    Step-InTime deadline longest t u short step (Steps-InTime deadline longest s t short steps h)

-- If each call of `pollFunc` takes less than the 15 seconds between two ticks, and none reports that it
-- is ready, then poll calls it as often as ticks come before the deadline: a tick that comes at the
-- deadline may or may not be taken.
pub polls_on_time :
    (deadline longest n : ℕ)
    → longest < 15_000
    → Steps deadline longest start (returned n)
    → (n * 15_000 ≤ deadline) × (deadline ≤ suc n * 15_000)
polls_on_time deadline longest n short steps =
    Steps-InTime deadline longest _ _ short steps (start-InTime deadline)

-- What is left of the loop: the time to the deadline, and the tick that waits.
abbrev left : ℕ → Select → ℕ
left deadline (waiting t false n) = 1 + 2 * (deadline - t)
left deadline (waiting t true n) = 2 + 2 * (deadline - t)
left deadline (returned n) = 0

Step-left :
    (deadline longest : ℕ) (s s' : Select)
    → longest < 15_000
    → InTime deadline s
    → Step deadline longest s s'
    → left deadline s' < left deadline s
unfolding fires
Step-left deadline longest _ _ short h (blocks t n early) = ground arith
Step-left deadline longest _ _ short h (ticks t n d quick) = ground arith
Step-left deadline longest _ _ short h (times_out t n true late) = ground arith
Step-left deadline longest _ _ short h (times_out t n false late) = ground arith

InTime-Acc :
    (deadline longest bound : ℕ) (s : Select)
    → longest < 15_000
    → InTime deadline s
    → left deadline s < bound
    → Acc (λ s' s. Step deadline longest s s') s
InTime-Acc deadline longest zero s short h below = absurd (omega (arith, below))
InTime-Acc deadline longest (suc bound) s short h below = Acc.intro s (λ s' step.
    InTime-Acc deadline longest bound s' short (Step-InTime deadline longest s s' short step h)
      (omega (arith, below, Step-left deadline longest s s' short h step)))

-- If each call takes less than the 15 seconds, the loop ends, whatever case the `select` takes where
-- two are ready.
pub poll_ends :
    (deadline longest : ℕ) → longest < 15_000 → Acc (λ s' s. Step deadline longest s s') start
poll_ends deadline longest short =
    InTime-Acc deadline longest (2 + 2 * deadline) start short (start-InTime deadline) (omega arith)

fires_not : (t u : ℕ) → t / 15_000 ≡ u / 15_000 → fires t u ≡ false
unfolding fires
fires_not t u h = ground arith

next_tick :
    (n : ℕ)
    → waiting (suc n * 15_000 + 15_000) (fires (suc n * 15_000) (suc n * 15_000 + 15_000)) (suc n)
      ≡ waiting (suc (suc n) * 15_000) true (suc n)
unfolding fires
next_tick n = ground arith

-- Waiting for `k` milliseconds in which no tick comes.
pub blocks_for :
    (deadline longest t n k : ℕ)
    → t / 15_000 ≡ (t + k) / 15_000
    → t + k ≤ deadline
    → Steps deadline longest start (waiting t false n)
    → Steps deadline longest start (waiting (t + k) false n)
blocks_for deadline longest t n zero same before steps =
    subst (λ u. Steps deadline longest start (waiting u false n)) (omega arith) steps
blocks_for deadline longest t n (suc k) same before steps =
    let next : suc (t + k) ≡ t + suc k = omega arith in
    subst (λ u. Steps deadline longest start (waiting u false n)) next
      (subst (λ b. Steps deadline longest start (waiting (suc (t + k)) b n))
        (fires_not (t + k) (suc (t + k)) (omega arith))
        (then (blocks_for deadline longest t n k (omega arith) (omega arith) steps)
          (blocks (t + k) n (omega arith))))

late_calls :
    (deadline longest n : ℕ)
    → 15_000 ≤ longest
    → 15_000 ≤ deadline
    → Steps deadline longest start (waiting (suc n * 15_000) true n)
unfolding fires
late_calls deadline longest zero long late =
    then (blocks_for deadline longest 0 0 14_999 refl (omega arith) (here start))
      (blocks 14_999 0 (omega arith))
late_calls deadline longest (suc n) long late =
    subst (λ s. Steps deadline longest start s) (next_tick n)
      (then (late_calls deadline longest n long late) (ticks (suc n * 15_000) n 15_000 long))

-- Calls that take 15 seconds can go on for ever after the deadline: with a timeout of at least 15
-- seconds, every number of calls that lasts up to it can be made.
pub poll_overruns :
    (deadline longest n : ℕ)
    → 15_000 ≤ longest
    → 15_000 ≤ deadline
    → deadline ≤ suc n * 15_000
    → Steps deadline longest start (returned n)
poll_overruns deadline longest n long late enough =
    then (late_calls deadline longest n long late) (times_out (suc n * 15_000) n true enough)
