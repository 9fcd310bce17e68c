-- ===== src/Effect/Process.antt =====
-- A process is the code up to its next effect, and how it goes on after each reply. The remote
-- machines, the clock and the user are the environment, which answers as it likes.
use cbtools_autobench.Base.{ℕ, String, Bool, List}
use cbtools_autobench.Result.{Error, Result, ok, err, panic, fatal, wrapping, embedding}

-- Calls that can fail. Those on a connection name its host.
pub data Request : Type 0 where
  -- os.ReadFile
  read_file : String → Request
  -- ssh.ParsePrivateKey and ssh.ParsePrivateKeyWithPassphrase
  parse_key : String → Request
  parse_key_with_passphrase : String → String → Request
  -- ssh.Dial: the host and the user
  dial : String → String → Request
  -- the methods of ssh.Client and ssh.Session
  new_session : String → Request
  combined_output : String → String → Request
  stdin_pipe : String → Request
  stdout_pipe : String → Request
  start : String → String → Request
  close_pipe : String → Request
  wait : String → Request
  close_session : String → Request
  close_client : String → Request
  -- fsutil.CopyFileTo and fsutil.WriteToFile between a local file and a pipe
  copy_file_to : String → String → Request
  write_to_file : String → String → Request
  -- exec.Command("curl", ...) on the local machine, with its last argument
  curl : String → Request
  -- time.Sleep, in seconds
  sleep : ℕ → Request
  -- os.Open with the text of the file, os.Stat, fsutil.Mkdir and fmt.Print
  open_file : String → Request
  stat : String → Request
  make_directory : String → Request
  print : String → Request

pub data Reply : Type 0 where
  answer : String → Reply
  failure : Error → Reply

-- What the environment settles: whether the user has interrupted the run (`ctx.Err()` is not nil).
pub data Question : Type 0 where
  interrupted : Question

-- The numbers that the environment settles: the time in nanoseconds (`time.Now`), and how often a `select`
-- takes the case of a ticker, of the period that comes first, before that of a deadline, which is the
-- second number of seconds away.
pub data Gauge : Type 0 where
  clock : Gauge
  ticks : ℕ → ℕ → Gauge

pub data Event : Type 0 where
  replied : Request → Reply → Event
  answered : Question → Bool → Event
  read : Gauge → ℕ → Event

abbrev pub Trace : Type 0
Trace = List Event

-- `pool n ws k` queues the workers `ws` on a worker pool of at most `n` and waits for it to stop.
pub data Process (W : Type 0) (A : Type 0) : Type 0 where
  done : A → Process W A
  request : Request → (Reply → Process W A) → Process W A
  ask : Question → (Bool → Process W A) → Process W A
  measure : Gauge → (ℕ → Process W A) → Process W A
  pool : ℕ → List W → (Result (Unit {0}) → Process W A) → Process W A

-- Code that may fail.
abbrev pub Exec : Type 0 → Type 0 → Type 0
Exec W A = Process W (Result A)

-- A process that has no pool of its own: what a worker of a node's pool runs.
abbrev pub Task : Type 0 → Type 0
Task A = Exec ⊥ A

module _ {W A B : Type 0} where
  unfoldable pub continue : Process W A → (A → Process W B) → Process W B
  continue (done a) f = f a
  continue (request r k) f = request r (λ y. continue (k y) f)
  continue (ask q k) f = ask q (λ b. continue (k b) f)
  continue (measure g k) f = measure g (λ n. continue (k n) f)
  continue (pool n ws k) f = pool n ws (λ r. continue (k r) f)

  -- `if err != nil { return err }`, then the rest.
  abbrev pub on_ok : (A → Exec W B) → Result A → Exec W B
  on_ok f (ok a) = f a
  on_ok f (err e) = done (err e)
  on_ok f (panic s) = done (panic s)
  on_ok f (fatal s) = done (fatal s)

module _ {W A B : Type 0} where
  infixl 5 ◌>>=◌ ◌>>◌
  unfoldable pub ◌>>=◌ : Exec W A → (A → Exec W B) → Exec W B
  unfolding continue
  m >>= f = continue m (on_ok f)

  abbrev pub ◌>>◌ : Exec W A → Exec W B → Exec W B
  m >> n = m >>= λ _. n

abbrev pub of_reply : Reply → Result String
of_reply (answer s) = ok s
of_reply (failure e) = err e

abbrev pub kept : {A : Type 0} → Result A → Result (Result A)
kept (ok a) = ok (ok a)
kept (err e) = ok (err e)
kept (panic s) = panic s
kept (fatal s) = fatal s

module _ {W : Type 0} where
  -- A call that can fail, and its result.
  unfoldable pub call : Request → Exec W String
  call r = request r (λ y. done (of_reply y))

  -- A call whose result is dropped.
  unfoldable pub perform : Request → Exec W Unit
  perform r = request r (λ y. done (ok tt))

  abbrev pub pure : {A : Type 0} → A → Exec W A
  pure a = done (ok a)

  abbrev pub lift : {A : Type 0} → Result A → Exec W A
  lift r = done r

module _ {W A : Type 0} where
  -- Every error return of `m` is wrapped.
  unfoldable pub wrapped : String → Exec W A → Exec W A
  unfolding continue
  wrapped context m = continue m (λ r. done (wrapping context r))

  unfoldable pub embedded : String → Exec W A → Exec W A
  unfolding continue
  embedded context m = continue m (λ r. done (embedding context r))

  -- `_, err := m; return err`
  unfoldable pub ignored : Exec W A → Exec W Unit
  unfolding ◌>>=◌
  ignored m = m >>= λ _. pure tt

  -- The error of `m` is a value and does not end the caller.
  unfoldable pub caught : Exec W A → Exec W (Result A)
  unfolding continue
  caught m = continue m (λ r. done (kept r))
