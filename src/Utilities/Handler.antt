-- ===== src/Utilities/Handler.antt =====
-- LoggingHandler of utilities/logging.go with the goroutines that log at the same time. A call of Fprintf
-- writes its line in pieces, between which other goroutines run.
pub mod Order
use cbtools_autobench.Base.{◌≡◌, String, ◌<>◌, Bool, true, false, List, [], ◌∷◌, ◌++◌}
use cbtools_autobench.Utilities.Logging.{Level, log_line}

-- A goroutine in HandleLog: in front of the lock, with its level, message and fields; while it writes,
-- with its line and what is left of it; and behind the unlock.
pub data Goroutine : Type 0 where
  before : Level → String → String → Goroutine
  writing : String → String → Goroutine
  after : String → Goroutine

-- LoggingHandler: whether `mu` is locked, and what `writer` got.
pub record LoggingHandler : Type 0 where
  pub mu : Bool
  pub writer : String
  pub goroutines : List Goroutine

-- One goroutine moves. The time is read behind the lock.
pub data Step : LoggingHandler → LoggingHandler → Type 0 where
  locks :
      (xs ys : List Goroutine) (level : Level) (timestamp text fields line out : String)
      → line ≡ log_line timestamp level text fields
      → Step
          (record { mu = false; writer = out; goroutines = xs ++ before level text fields ∷ ys })
          (record { mu = true; writer = out; goroutines = xs ++ writing line line ∷ ys })
  writes :
      (xs ys : List Goroutine) (line piece rest out : String)
      → Step
          (record { mu = true; writer = out; goroutines = xs ++ writing line (piece <> rest) ∷ ys })
          (record { mu = true; writer = out <> piece; goroutines = xs ++ writing line rest ∷ ys })
  unlocks :
      (xs ys : List Goroutine) (line out : String)
      → Step
          (record { mu = true; writer = out; goroutines = xs ++ writing line "" ∷ ys })
          (record { mu = false; writer = out; goroutines = xs ++ after line ∷ ys })

pub data Steps : LoggingHandler → LoggingHandler → Type 0 where
  here : (h : LoggingHandler) → Steps h h
  then : {h h' h'' : LoggingHandler} → Steps h h' → Step h' h'' → Steps h h''
