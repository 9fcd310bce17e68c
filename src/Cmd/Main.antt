-- ===== src/Cmd/Main.antt =====
-- main.go, and Execute of cmd/root.go: cobra turns the arguments into a sub-command with its flags, or
-- refuses them.
pub mod Errors
pub mod Exits
use cbtools_autobench.Base.{ℕ, String, ◌<>◌, ◌==◌, ◌||◌, Bool, List, if◌then◌else◌}
use cbtools_autobench.Result.{
  Error, message, wrap, embed, Result, ok, err, panic, fatal, exited, crashed,
}
use cbtools_autobench.Value.Formats.{Formats}
use cbtools_autobench.Effect.Process.{print, perform}
use cbtools_autobench.Effect.Session.{Session, finish, routine, Script, and_then, if_ok}
use cbtools_autobench.Nodes.Library.{Library}
use cbtools_autobench.Utilities.Logging.{Level, info_level}
use cbtools_autobench.Cmd.Config.{Files}
use cbtools_autobench.Cmd.Commands.{Invocation, Cobra, root_command}
use cbtools_autobench.Cmd.Provision.{provision}
use cbtools_autobench.Cmd.Benchmark.{benchmark}

-- Error of the errors of github.com/pkg/errors and fmt
unfoldable pub error_text : Error → String
error_text (message s) = s
error_text (wrap s e) = s <> (": " <> error_text e)
error_text (embed s e) = s <> (": " <> error_text e)

-- errors.Cause, which looks behind errors.Wrap, and not behind the %w of fmt.Errorf
unfoldable pub cause : Error → Error
cause (message s) = message s
cause (wrap s e) = cause e
cause (embed s e) = embed s e

-- strconv.ParseBool, where an error counts as false
abbrev pub parse_bool : String → Bool
parse_bool s = s == "1" || (s == "t" || (s == "T" || (s == "TRUE" || (s == "true" || s == "True"))))

-- The level that main sets, where log.ParseLevel reads the value of CBM_AUTOBENCH_LOG_LEVEL.
abbrev pub log_level : (String → Result Level) → String → Level
log_level parse value = elim (parse value) [ ok level ↦ level | _ ↦ info_level ]

-- What the outside provides: cobra, `%+v` of an error, and the variable
-- CBM_AUTOBENCH_DISPLAY_STACKTRACE.
pub record Outside : Type 0 where
  pub cobra : Cobra
  pub stacktrace : Error → String
  pub display : String

-- The message of main.
unfoldable pub error_line : Outside → Error → String
unfolding error_text cause
error_line outside e =
    if parse_bool outside.display
    then "Error: " <> (outside.stacktrace e <> "\n")
    else "Error: " <> (error_text (cause e) <> "\n")

-- The exit status: that of os.Exit(1), of a panic of any goroutine, and of log.Fatal.
unfoldable pub exit_status : Outside → Result (Unit {0}) → Session ℕ
unfolding error_line
exit_status outside (ok a) = finish 0
exit_status outside (err e) = routine (perform (print (error_line outside e))) (λ r. finish 1)
exit_status outside (panic s) = finish 2
exit_status outside (fatal (exited s)) = finish 1
exit_status outside (fatal (crashed s)) = finish 2

module _ (outside : Outside) (format : Formats) (files : Files) (library : Library)
    (received : List ℕ → List ℕ) where
  abbrev pub run_command : Invocation → Script (Unit {0})
  run_command Invocation.helping = finish (ok tt)
  run_command (Invocation.provisioning path load_only) =
      provision library received files path load_only
  run_command (Invocation.benchmarking path name logs_path json) =
      benchmark format files library path name logs_path json

  -- Execute
  unfoldable pub execute : List String → Script (Unit {0})
  unfolding root_command
  execute arguments =
      if_ok (λ root. if_ok run_command (outside.cobra.parse root arguments))
        (root_command outside.cobra)

  -- main, with its exit status
  unfoldable pub main : List String → Session ℕ
  unfolding execute exit_status
  main arguments = and_then (execute arguments) (exit_status outside)
