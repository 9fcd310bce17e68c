-- ===== src/Result.antt =====
-- Go's errors as values. A function that may fail returns a `Result`; `panic` stands for a run-time
-- panic (an index out of range, a division by zero, a call of `panic`), and `fatal` for what ends the
-- process without the deferred calls of the main goroutine.
use cbtools_autobench.Base.{String}

pub data Error : Type 0 where
  -- errors.New, errors.Errorf, fmt.Errorf, and what a library call returns
  message : String → Error
  -- errors.Wrap and errors.Wrapf of github.com/pkg/errors
  wrap : String → Error → Error
  -- fmt.Errorf("...: %w", err)
  embed : String → Error → Error

-- `log.Fatalf`, and a panic of another goroutine.
pub data Ending : Type 0 where
  exited crashed : String → Ending

pub data Result {ℓ} (A : Type ℓ) : Type ℓ where
  ok : A → Result A
  err : Error → Result A
  panic : String → Result A
  fatal : Ending → Result A

-- `if err != nil { return errors.Wrap(err, context) }`
abbrev pub wrapping {ℓ} : {A : Type ℓ} → String → Result A → Result A
wrapping context (ok a) = ok a
wrapping context (err e) = err (wrap context e)
wrapping context (panic s) = panic s
wrapping context (fatal s) = fatal s

-- `if err != nil { return fmt.Errorf("context: %w", err) }`
abbrev pub embedding {ℓ} : {A : Type ℓ} → String → Result A → Result A
embedding context (ok a) = ok a
embedding context (err e) = err (embed context e)
embedding context (panic s) = panic s
embedding context (fatal s) = fatal s

-- How a goroutine of a pool ends: if it panics, so does the whole process.
abbrev pub ended {ℓ} : {A : Type ℓ} → Result A → Result A
ended (ok a) = ok a
ended (err e) = err e
ended (panic s) = fatal (crashed s)
ended (fatal s) = fatal s

-- The result is `ok`.
abbrev pub Succeeds {ℓ} : {A : Type ℓ} → Result A → Type 0
Succeeds (ok a) = Unit
Succeeds (err e) = ⊥
Succeeds (panic s) = ⊥
Succeeds (fatal s) = ⊥

pub ended-fails {ℓ} : {A : Type ℓ} (r : Result A) → ¬ Succeeds r → ¬ Succeeds (ended r)
ended-fails (ok a) n = n
ended-fails (err e) n = n
ended-fails (panic s) n = n
ended-fails (fatal s) n = n
