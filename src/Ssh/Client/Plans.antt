-- ===== src/Ssh/Client/Plans.antt =====
-- The remote commands that the methods of the client send.
use mathlib.Core.List.{append-nil}
use cbtools_autobench.Base.{String, ◌≡◌, refl, List, [], ◌∷◌, ◌++◌}
use cbtools_autobench.Result.{Result, ok, err, panic, fatal}
use cbtools_autobench.Value.Format.{str, sprintf}
use cbtools_autobench.Value.Command.{Command, new_command}
use cbtools_autobench.Effect.Process.{
  Request, Reply, answer, failure, Trace, replied, new_session, combined_output, start, stdin_pipe,
  stdout_pipe, copy_file_to, write_to_file, close_pipe, wait, done, Exec, continue, call, caught,
  kept, on_ok, ignored, perform, lift, wrapped, ◌>>=◌, ◌>>◌, of_reply,
}
use cbtools_autobench.Effect.Runs.{Pooling, Ensures, Ensures-mono, Ensures-continue}
use cbtools_autobench.Effect.Plan.{
  commands, commands-append, Plan, nothing, must, may, both, Meets, Action, Begins, stopped, whole,
  Obeys, on_host,
}
use cbtools_autobench.Effect.Follows.{
  Follows, Follows-silent, Follows-bind, Follows-wrapped, Follows-call, Follows-pure,
}
use cbtools_autobench.Ssh.Utils.{deferred, execute}
use cbtools_autobench.Ssh.Client.{
  Client, execute_command, remote_line, file_exists, send_file, receive_file, succeeded,
}

Begins-may :
    {host line : String} (xs : List Action) → Begins (must host line) xs → Meets (may host line) xs
Begins-may [] stopped = Meets.skipped
Begins-may xs (whole Meets.must) = Meets.taken

pub Obeys-may :
    {A : Type 0} (host line : String) (xs : List Action) (r : Result A)
    → Obeys (must host line) xs r
    → Obeys (may host line) xs (kept r)
Obeys-may host line xs (ok a) Meets.must = Meets.taken
Obeys-may host line xs (err e) h = Begins-may xs h
Obeys-may host line xs (panic e) h = whole (Begins-may xs h)
Obeys-may host line xs (fatal e) h = whole (Begins-may xs h)

-- The test of FileExists.
abbrev pub exists_line : String → String
exists_line path = remote_line (new_command "test -e %s" (str path ∷ []))

module _ {W : Type 0} (Pooled : Pooling W) where
  after_perform :
      {A : Type 0} (plan : Plan) (r : Request) (tr : Trace) (result : Result A)
      → ((y : Reply) → commands (replied r y ∷ []) ≡ [])
      → Obeys plan (commands tr) result
      → Ensures Pooled
          (on_ok (λ x. perform r >> lift x) (kept result))
          (λ tr' s. Obeys plan (commands (tr ++ tr')) s)
  unfolding Ensures perform ◌>>=◌
  after_perform plan r tr (ok a) silent h = λ y. rw (commands-append, silent, append-nil) h
  after_perform plan r tr (err e) silent h = λ y. rw (commands-append, silent, append-nil) h
  after_perform plan r tr (panic e) silent h = rw append-nil h
  after_perform plan r tr (fatal e) silent h = rw append-nil h

  -- A deferred call that sends no remote command leaves the plan as it is.
  pub Follows-deferred :
      {A : Type 0} (plan : Plan) (r : Request) (m : Exec W A)
      → ((y : Reply) → commands (replied r y ∷ []) ≡ [])
      → Follows Pooled plan m
      → Follows Pooled plan (deferred r m)
  unfolding deferred ◌>>=◌ caught Ensures
  Follows-deferred plan r m silent h = record {
    runs = Ensures-continue Pooled (continue m (λ x. done (kept x))) _ _ (
        Ensures-continue Pooled m _ _ (
          Ensures-mono Pooled m _ _ (λ tr x o. rw append-nil (after_perform plan r tr x silent o))
            h.runs));
  }

  call-must :
      (host line : String) → Follows Pooled (must host line) (call (combined_output host line))
  unfolding call Ensures commands
  call-must host line = record { runs = λ y. obeys y }
    where
      obeys : (y : Reply) → Obeys (must host line) ((host, line) ∷ []) (of_reply y)
      obeys (answer s) = Meets.must
      obeys (failure e) = whole Meets.must

  start-must : (host line : String) → Follows Pooled (must host line) (call (start host line))
  unfolding call Ensures commands
  start-must host line = record { runs = λ y. obeys y }
    where
      obeys : (y : Reply) → Obeys (must host line) ((host, line) ∷ []) (of_reply y)
      obeys (answer s) = Meets.must
      obeys (failure e) = whole Meets.must

  pub silent_call :
      (r : Request) (context : String)
      → ((y : Reply) → commands (replied r y ∷ []) ≡ [])
      → Follows Pooled nothing (wrapped context (call r))
  silent_call r context silent =
      Follows-wrapped Pooled nothing context _ (Follows-call Pooled r silent)

  pub execute-Follows : (host line : String) → Follows Pooled (must host line) (execute host line)
  unfolding execute commands
  execute-Follows host line =
      Follows-silent Pooled (must host line) _ _ (silent_call (new_session host) _ (λ y. refl))
        (λ _. Follows-deferred (must host line) _ _ (λ y. refl) (call-must host line))

  pub execute_command-Follows :
      (c : Client) (command : Command)
      → Follows Pooled (must c.host (remote_line command)) (execute_command c command)
  unfolding execute_command
  execute_command-Follows c command = execute-Follows c.host (remote_line command)

  -- A command whose failure is caught may not have been sent, as where no session could be made.
  pub caught-may :
      {A : Type 0} {host line : String} (m : Exec W A)
      → Follows Pooled (must host line) m
      → Follows Pooled (may host line) (caught m)
  unfolding caught Ensures
  caught-may m h = record {
    runs = Ensures-continue Pooled m _ _ (
        Ensures-mono Pooled m _ _ (λ tr r o. rw append-nil (Obeys-may _ _ (commands tr) r o))
          h.runs);
  }

  pub file_exists-Follows :
      (c : Client) (path : String)
      → Follows Pooled (both (may c.host (exists_line path)) nothing) (file_exists c path)
  unfolding file_exists
  file_exists-Follows c path =
      Follows-bind Pooled (may c.host (exists_line path)) nothing _ _
        (caught-may _ (execute_command-Follows c _)) (λ r. Follows-pure Pooled (succeeded r))

  pub send_file-Follows :
      (c : Client) (source sink : String)
      → Follows Pooled
          (on_host c.host (sprintf "cat > %s" (str sink ∷ []) ∷ []))
          (send_file c source sink)
  unfolding send_file on_host commands ignored
  send_file-Follows c source sink =
      Follows-silent Pooled _ _ _ (silent_call (stdin_pipe c.host) _ (λ y. refl)) (λ _.
        Follows-bind Pooled (must c.host _) nothing _ _
          (Follows-wrapped Pooled _ _ _ (start-must c.host _))
          (λ _.
            Follows-silent Pooled nothing _ _
              (silent_call (copy_file_to c.host source) _ (λ y. refl))
              (λ _.
                Follows-silent Pooled nothing _ _ (silent_call (close_pipe c.host) _ (λ y. refl))
                  (λ _.
                    Follows-silent Pooled nothing _ _
                      (Follows-call Pooled (wait c.host) (λ y. refl))
                      (λ _. Follows-pure Pooled tt)))))

  pub receive_file-Follows :
      (c : Client) (source sink : String)
      → Follows Pooled
          (on_host c.host (sprintf "cat %s" (str source ∷ []) ∷ []))
          (receive_file c source sink)
  unfolding receive_file on_host commands ignored
  receive_file-Follows c source sink =
      Follows-silent Pooled _ _ _ (silent_call (stdout_pipe c.host) _ (λ y. refl)) (λ _.
        Follows-bind Pooled (must c.host _) nothing _ _
          (Follows-wrapped Pooled _ _ _ (start-must c.host _))
          (λ _.
            Follows-silent Pooled nothing _ _
              (silent_call (write_to_file c.host sink) _ (λ y. refl))
              (λ _.
                Follows-silent Pooled nothing _ _ (Follows-call Pooled (wait c.host) (λ y. refl))
                  (λ _. Follows-pure Pooled tt))))
