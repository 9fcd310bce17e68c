-- ===== src/Ssh/Client/Upload.antt =====
-- When SecureUpload of ssh/client.go uploads.
use mathlib.Core.List.{append-nil}
use cbtools_autobench.Base.{
  ◌≡◌, refl, String, Bool, true, false, not, ◌||◌, [], ◌∷◌, ◌++◌, if◌then◌else◌,
}
use cbtools_autobench.Result.{Error, Result, ok, err, panic, fatal, Succeeds}
use cbtools_autobench.Value.Format.{str}
use cbtools_autobench.Value.Command.{new_command}
use cbtools_autobench.Effect.Process.{
  Request, print, answer, failure, combined_output, start, close_session, new_session, replied,
  Trace, wait, done, Exec, continue, call, perform, caught, kept, on_ok, ignored, wrapped, ◌>>=◌,
  ◌>>◌, lift,
}
use cbtools_autobench.Effect.Runs.{Pooling, Ensures, Ensures-mono, Ensures-continue}
use cbtools_autobench.Ssh.Utils.{deferred, execute}
use cbtools_autobench.Ssh.Client.{
  Client, execute_command, remote_line, file_exists, send_file, secure_upload, succeeded,
}

-- A command has ended without an error.
unfoldable pub ran : Trace → Bool
ran [] = false
ran (replied (combined_output host line) (answer s) ∷ tr) = true
ran (_ ∷ tr) = ran tr

-- A command that reads a pipe has been started.
unfoldable pub started : Trace → Bool
started [] = false
started (replied (start host line) (answer s) ∷ tr) = true
started (_ ∷ tr) = started tr

-- What is seen of a test.
abbrev Tested : Trace → Result String → Type 0
Tested tr (ok a) = (started tr ≡ false) × (ran tr ≡ true)
Tested tr (err e) = (started tr ≡ false) × (ran tr ≡ false)
Tested tr (panic s) = ⊥
Tested tr (fatal s) = ⊥

-- What is seen of an upload.
abbrev Uploaded : Trace → Result (Unit {0}) → Type 0
Uploaded tr r = Succeeds r → (started tr ≡ true) × (ran tr ≡ false)

-- If it succeeds, it has uploaded unless the test has found the file.
abbrev pub UploadedUnless : Trace → Result (Unit {0}) → Type 0
UploadedUnless tr r = Succeeds r → started tr ≡ not (ran tr)

started-append : (xs ys : Trace) → started (xs ++ ys) ≡ started xs || started ys
unfolding started
started-append [] ys = refl
started-append (replied (start h line) (answer s) ∷ xs) ys = refl
started-append (e ∷ xs) ys = started-append xs ys

ran-append : (xs ys : Trace) → ran (xs ++ ys) ≡ ran xs || ran ys
unfolding ran
ran-append [] ys = refl
ran-append (replied (combined_output h line) (answer s) ∷ xs) ys = refl
ran-append (e ∷ xs) ys = ran-append xs ys

module _ {W : Type 0} (Pooled : Pooling W) where
  after_session :
      (host line : String)
      → Ensures Pooled (deferred (close_session host) (call (combined_output host line))) Tested
  unfolding Ensures deferred call caught perform ◌>>=◌ continue ran started
  after_session host line (answer s) = λ y. (refl, refl)
  after_session host line (failure e) = λ y. (refl, refl)

  execute-Tested : (host line : String) → Ensures Pooled (execute host line) Tested
  unfolding Ensures execute call wrapped ◌>>=◌ continue ran started
  execute-Tested host line (answer s) =
      Ensures-mono Pooled _ _ _ (later s) (after_session host line)
    where
      later :
          (s : String) (tr : Trace) (r : Result String)
          → Tested tr r
          → Tested (replied (new_session host) (answer s) ∷ tr) r
      later s tr (ok a) h = h
      later s tr (err e) h = h
      later s tr (panic e) h = h
      later s tr (fatal e) h = h
  execute-Tested host line (failure e) = (refl, refl)

  -- A call, and the rest if it is answered.
  call_then :
      (context : String) (r : Request) (m : Exec W Unit) (Q : Trace → Result (Unit {0}) → Type 0)
      → ((s : String) → Ensures Pooled m (λ tr x. Q (replied r (answer s) ∷ tr) x))
      → ((e : Error) (x : Result (Unit {0})) → ¬ Succeeds x → Q (replied r (failure e) ∷ []) x)
      → Ensures Pooled (wrapped context (call r) >> m) Q
  unfolding Ensures call wrapped ◌>>=◌ continue
  call_then context r m Q h k (answer s) = h s
  call_then context r m Q h k (failure e) = k e _ (λ x. x)

  waited : (host : String) → Ensures Pooled (ignored (call (wait host))) (λ tr r. ran tr ≡ false)
  unfolding Ensures ignored call ◌>>=◌ continue ran
  waited host (answer s) = refl
  waited host (failure e) = refl

  send_file-Uploaded :
      (c : Client) (source sink : String) → Ensures Pooled (send_file c source sink) Uploaded
  unfolding send_file ran started
  send_file-Uploaded c source sink =
      call_then _ _ _ _
        (λ s.
          call_then _ _ _ _
            (λ s.
              call_then _ _ _ _
                (λ s.
                  call_then _ _ _ _
                    (λ s. Ensures-mono Pooled _ _ _ (λ tr r none z. (refl, none)) (waited c.host))
                    (λ e x n z. absurd (n z)))
                (λ e x n z. absurd (n z)))
            (λ e x n z. absurd (n z)))
        (λ e x n z. absurd (n z))

  closed :
      (host : String) (tr : Trace) (r : Result (Unit {0}))
      → Uploaded tr r
      → Ensures Pooled
          (on_ok (λ x. perform (close_session host) >> lift x) (kept r))
          (λ tr' r. Uploaded (tr ++ tr') r)
  unfolding Ensures perform ◌>>=◌ continue ran started
  closed host tr (ok a) h =
      λ y z. let (e, e') = h tt in rw (started-append, ran-append, e, e') (refl, refl)
  closed host tr (err e) h = λ y z. absurd z
  closed host tr (panic e) h = λ z. absurd z
  closed host tr (fatal e) h = λ z. absurd z

  deferred-Uploaded :
      (host : String) (m : Exec W Unit)
      → Ensures Pooled m Uploaded
      → Ensures Pooled (deferred (close_session host) m) Uploaded
  unfolding Ensures deferred caught ◌>>=◌
  deferred-Uploaded host m h = Ensures-continue Pooled (continue m (λ x. done (kept x))) _ _ (
      Ensures-continue Pooled m _ _
        (Ensures-mono Pooled m _ _ (λ tr x u. rw append-nil (closed host tr x u)) h))

  -- What is seen of FileExists, whose result is that of the test.
  abbrev Seen : Trace → Result Bool → Type 0
  Seen tr (ok b) = (started tr ≡ false) × (ran tr ≡ b)
  Seen tr (err e) = ⊥
  Seen tr (panic s) = ⊥
  Seen tr (fatal s) = ⊥

  file_exists-Seen : (c : Client) (path : String) → Ensures Pooled (file_exists c path) Seen
  unfolding Ensures file_exists execute_command caught ◌>>=◌
  file_exists-Seen c path =
      let test = execute c.host (remote_line (new_command "test -e %s" (str path ∷ []))) in
      Ensures-continue Pooled (continue test (λ x. done (kept x))) _ _ (
        Ensures-continue Pooled test _ _
          (Ensures-mono Pooled test _ _ goes (execute-Tested c.host _)))
    where
      goes :
          (tr : Trace) (r : Result String)
          → Tested tr r
          → Ensures Pooled
              (on_ok (λ x. done (ok (succeeded x))) (kept r))
              (λ tr' b. Seen ((tr ++ []) ++ tr') b)
      goes tr (ok a) (e, e') = rw (append-nil, append-nil) (e, e')
      goes tr (err e) (h, h') = rw (append-nil, append-nil) (h, h')
      goes tr (panic e) h = absurd h
      goes tr (fatal e) h = absurd h

  -- SecureUpload that succeeds has uploaded the file unless its test has found it.
  pub secure_upload-UploadedUnless :
      (c : Client) (source sink : String)
      → Ensures Pooled (secure_upload c source sink) UploadedUnless
  unfolding Ensures secure_upload ◌>>=◌ perform ran started
  secure_upload-UploadedUnless c source sink =
      Ensures-continue Pooled (file_exists c sink) _ _
        (Ensures-mono Pooled _ _ _ goes (file_exists-Seen c sink))
    where
      unless :
          (tr tr' : Trace) (r : Result (Unit {0}))
          → Seen tr (ok false)
          → Uploaded tr' r
          → UploadedUnless (tr ++ tr') r
      unless tr tr' r (e, e') u s =
          let (k, k') = u s in rw (started-append, ran-append, e, e', k, k') refl

      goes :
          (tr : Trace) (b : Result Bool)
          → Seen tr b
          → Ensures Pooled
              (on_ok
                (λ exists.
                  if exists
                  then perform (print "File already exists\n")
                  else wrapped "failed to create session" (call (new_session c.host))
                    >> deferred (close_session c.host) (send_file c source sink))
                b)
              (λ tr' r. UploadedUnless (tr ++ tr') r)
      goes tr (ok true) (e, e') = λ y z. rw (started-append, ran-append, e, e') refl
      goes tr (ok false) h =
          call_then _ _ _ _
            (λ s.
              Ensures-mono Pooled _ Uploaded _
                (λ tr' r u. unless tr (replied (new_session c.host) (answer s) ∷ tr') r h u)
                (deferred-Uploaded c.host _ (send_file-Uploaded c source sink)))
            (λ e x n z. absurd (n z))
      goes tr (err e) h = absurd h
      goes tr (panic e) h = absurd h
      goes tr (fatal e) h = absurd h
