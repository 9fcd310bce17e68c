-- ===== src/Cmd/Signals.antt =====
-- signalHandler of cmd/signal_handling.go: the goroutine that cancels the context, the channel of one
-- signal that the runtime fills, and the process that a SIGINT ends where nobody is notified of it.
pub mod Safety
use cbtools_autobench.Base.{◌≡◌, ℕ, suc, Bool, true, false, if◌then◌else◌}

-- How far the goroutine has come.
pub data Handler : Type 0 where
  listening received stopped closed warned cancelled : Handler

pub record Signals : Type 0 where
  pub handler : Handler
  -- a signal is in signalStream
  pub queued : Bool
  -- signal.Notify is in force
  pub notified : Bool
  -- ctx.Err() is not nil
  pub interrupted : Bool
  -- the default action of SIGINT has ended the process
  pub killed : Bool
  -- how often the process got SIGINT
  pub count : ℕ

-- When signalHandler returns.
abbrev pub initial : Signals
initial = record {
  handler = Handler.listening;
  queued = false;
  notified = true;
  interrupted = false;
  killed = false;
  count = 0;
}

-- A SIGINT. The runtime does not wait for room in the channel: it drops a signal that does not fit.
unfoldable pub arrive : Signals → Signals
arrive s =
    if s.notified
    then record s { queued = true; count = suc s.count }
    else record s { killed = true; count = suc s.count }

-- The statements of the goroutine; none runs once the process has ended.
pub data Handles : Signals → Signals → Type 0 where
  receives :
      (s : Signals)
      → s.killed ≡ false
      → s.handler ≡ Handler.listening
      → s.queued ≡ true
      → Handles s (record s { handler = Handler.received; queued = false })
  stops :
      (s : Signals)
      → s.killed ≡ false
      → s.handler ≡ Handler.received
      → Handles s (record s { handler = Handler.stopped; notified = false })
  closes :
      (s : Signals)
      → s.killed ≡ false
      → s.handler ≡ Handler.stopped
      → Handles s (record s { handler = Handler.closed })
  warns :
      (s : Signals)
      → s.killed ≡ false
      → s.handler ≡ Handler.closed
      → Handles s (record s { handler = Handler.warned })
  cancels :
      (s : Signals)
      → s.killed ≡ false
      → s.handler ≡ Handler.warned
      → Handles s (record s { handler = Handler.cancelled; interrupted = true })

-- The goroutine and the signals, in any order.
pub data Reached : Signals → Type 0 where
  start : Reached initial
  arrives : (s : Signals) → Reached s → s.killed ≡ false → Reached (arrive s)
  handles : (s s' : Signals) → Reached s → Handles s s' → Reached s'
