-- ===== src/Cmd/Signals/Safety.antt =====
-- What holds of the signal handler of cmd/signal_handling.go at any time.
use mathlib.Core.WellFounded.{Acc}
use cbtools_autobench.Base.{◌≡◌, ◌∙◌, refl, ℕ, zero, suc, ◌≤◌, ◌<◌, ◌↔◌, true, false, arith}
use cbtools_autobench.Cmd.Signals.{
  Handler, listening, received, stopped, closed, warned, cancelled, Signals, arrive, Handles,
  receives, stops, closes, warns, cancels, Reached, start, arrives, handles,
}

-- What is known at each point of the goroutine.
abbrev At : Handler → Signals → Type 0
At listening s = (s.notified ≡ true) × (s.interrupted ≡ false) × ((s.queued ≡ true) ↔ (1 ≤ s.count))
At received s = (s.notified ≡ true) × (s.interrupted ≡ false) × (1 ≤ s.count)
At stopped s = (s.notified ≡ false) × (s.interrupted ≡ false) × (1 ≤ s.count)
At closed s = (s.notified ≡ false) × (s.interrupted ≡ false) × (1 ≤ s.count)
At warned s = (s.notified ≡ false) × (s.interrupted ≡ false) × (1 ≤ s.count)
At cancelled s = (s.notified ≡ false) × (s.interrupted ≡ true) × (1 ≤ s.count)

abbrev Sound : Signals → Type 0
Sound s = At s.handler s × (s.killed ≡ true → 2 ≤ s.count) × (s.notified ≡ true → s.killed ≡ false)

-- The channel is closed.
abbrev pub IsClosed : Handler → Type 0
IsClosed closed = Unit
IsClosed warned = Unit
IsClosed cancelled = Unit
IsClosed _ = ⊥

arrive-Sound : (s : Signals) → s.killed ≡ false → Sound s → Sound (arrive s)
unfolding arrive
arrive-Sound s alive h = ground arith

Handles-Sound : (s s' : Signals) → Handles s s' → Sound s → Sound s'
Handles-Sound s _ (receives _ alive here full) h = ground arith
Handles-Sound s _ (stops _ alive here) h = ground arith
Handles-Sound s _ (closes _ alive here) h = ground arith
Handles-Sound s _ (warns _ alive here) h = ground arith
Handles-Sound s _ (cancels _ alive here) h = ground arith

Reached-Sound : (s : Signals) → Reached s → Sound s
Reached-Sound _ start = ground arith
Reached-Sound _ (arrives s r alive) = arrive-Sound s alive (Reached-Sound s r)
Reached-Sound _ (handles s s' r step) = Handles-Sound s s' step (Reached-Sound s r)

-- At any time, whenever SIGINTs arrive: the context is cancelled only if the process got a SIGINT; a
-- first SIGINT does not end the process, and if one has ended it then there were at least two; and once
-- the channel is closed, the runtime no longer sends to it.
pub signals_safe :
    (s : Signals)
    → Reached s
    → (s.interrupted ≡ true → 1 ≤ s.count)
      × (s.killed ≡ true → 2 ≤ s.count)
      × (IsClosed s.handler → s.notified ≡ false)
signals_safe s r = ground (arith, Reached-Sound s r)

-- What the goroutine has left to do.
abbrev left : Handler → ℕ
left listening = 5
left received = 4
left stopped = 3
left closed = 2
left warned = 1
left cancelled = 0

Handles-left : (s s' : Signals) → Handles s s' → left s'.handler < left s.handler
Handles-left s _ (receives _ alive here full) = ground arith
Handles-left s _ (stops _ alive here) = ground arith
Handles-left s _ (closes _ alive here) = ground arith
Handles-left s _ (warns _ alive here) = ground arith
Handles-left s _ (cancels _ alive here) = ground arith

Handles-Acc : (bound : ℕ) (s : Signals) → left s.handler < bound → Acc (λ s' s. Handles s s') s
Handles-Acc zero s h = absurd (omega (arith, h))
Handles-Acc (suc bound) s h =
    Acc.intro s (λ s' step. Handles-Acc bound s' (omega (arith, h, Handles-left s s' step)))

-- Where the goroutine cannot go on.
stuck :
    (s : Signals)
    → Sound s
    → s.killed ≡ false
    → 1 ≤ s.count
    → ((s' : Signals) → ¬ Handles s s')
    → s.interrupted ≡ true
stuck s h alive got halts = goes s.handler refl
  where
    goes : (at : Handler) → s.handler ≡ at → s.interrupted ≡ true
    goes listening e = absurd (halts _ (receives s alive e (ground (arith, h))))
    goes received e = absurd (halts _ (stops s alive e))
    goes stopped e = absurd (halts _ (closes s alive e))
    goes closed e = absurd (halts _ (warns s alive e))
    goes warned e = absurd (halts _ (cancels s alive e))
    goes cancelled e = ground (arith, h)

-- Statements of the goroutine, one after the other.
pub data Handled : Signals → Signals → Type 0 where
  rests : (s : Signals) → Handled s s
  goes_on : (s s' t : Signals) → Handles s s' → Handled s' t → Handled s t

Handles-alive : (s s' : Signals) → Handles s s' → (s'.killed ≡ s.killed) × (s'.count ≡ s.count)
Handles-alive s _ (receives _ alive here full) = (refl, refl)
Handles-alive s _ (stops _ alive here) = (refl, refl)
Handles-alive s _ (closes _ alive here) = (refl, refl)
Handles-alive s _ (warns _ alive here) = (refl, refl)
Handles-alive s _ (cancels _ alive here) = (refl, refl)

Handled-interrupted :
    (s t : Signals)
    → Handled s t
    → Sound s
    → s.killed ≡ false
    → 1 ≤ s.count
    → ((s' : Signals) → ¬ Handles t s')
    → t.interrupted ≡ true
Handled-interrupted s _ (rests _) h alive got halts = stuck s h alive got halts
Handled-interrupted s t (goes_on _ s' _ step rest) h alive got halts =
    let (k, c) = Handles-alive s s' step in
    Handled-interrupted s' t rest (Handles-Sound s s' step h) (k ∙ alive) (omega (arith, c, got))
      halts

-- From any time after a SIGINT that has not ended the process, and until the next SIGINT, the goroutine
-- comes to an end, whatever it does, and where it has come to its end the context is cancelled.
pub interrupt_cancels :
    (s : Signals)
    → Reached s
    → s.killed ≡ false
    → 1 ≤ s.count
    → Acc (λ s' s. Handles s s') s
      × ((t : Signals) → Handled s t → ((s' : Signals) → ¬ Handles t s') → t.interrupted ≡ true)
interrupt_cancels s r alive got = (
  Handles-Acc 6 s (ground arith),
  λ t run halts. Handled-interrupted s t run (Reached-Sound s r) alive got halts,
)
