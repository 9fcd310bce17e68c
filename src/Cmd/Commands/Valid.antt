-- ===== src/Cmd/Commands/Valid.antt =====
-- The commands of cmd/*.go with a cobra that behaves as documented.
use mathlib.Core.Path.{subst}
use mathlib.Core.List.{Memᴰ}
use cbtools_autobench.Base.{◌≡◌, refl, sym, ◌∙◌, ap, String, Bool, List, [], ◌∷◌}
use cbtools_autobench.Result.{ok}
use cbtools_autobench.Cmd.Benchmark.Results.{IsBenchmark}
use cbtools_autobench.Cmd.Commands.{
  Body, Command, Root, provision_command, benchmark_command, benchmarking, Cobra, or_panic,
  mark_flag_required, root_command, Documented,
}

-- A sub-command of which --config is required.
abbrev pub needs_config : Command → Command
needs_config c = record c { required = "config" ∷ c.required }

module _ (cobra : Cobra) (documented : Documented cobra) where
  provision-marked :
      mark_flag_required cobra provision_command "config" ≡ ok (needs_config provision_command)
  unfolding mark_flag_required provision_command
  provision-marked =
      ap (or_panic cobra.text_of) (documented.marks provision_command _ (Memᴰ.head refl))

  benchmark-marked :
      mark_flag_required cobra benchmark_command "config" ≡ ok (needs_config benchmark_command)
  unfolding mark_flag_required benchmark_command
  benchmark-marked =
      ap (or_panic cobra.text_of) (documented.marks benchmark_command _ (Memᴰ.head refl))

  -- With a cobra that behaves as documented no `init` panics, and both sub-commands need --config.
  pub root_command-IsReady :
      (root : Root) × (root_command cobra ≡ ok root)
      × (root.commands ≡ needs_config provision_command ∷ needs_config benchmark_command ∷ [])
  unfolding root_command
  root_command-IsReady = rw (provision-marked, benchmark-marked) ((_, refl, refl))

the_benchmark :
    (c : Command)
    → Memᴰ c (needs_config provision_command ∷ needs_config benchmark_command ∷ [])
    → c.run ≡ Body.benchmark_body
    → c ≡ needs_config benchmark_command
unfolding provision_command
the_benchmark c (Memᴰ.head e) h =
    let other : Body.provision_body ≡ Body.benchmark_body =
      sym (ap (λ (c : Command). c.run) e) ∙ h in
    cc
the_benchmark c (Memᴰ.tail (Memᴰ.head e)) h = e
the_benchmark c (Memᴰ.tail (Memᴰ.tail m)) h = elim m [ ]

valid_name : (name : String) → Memᴰ name benchmark_command.valid_args → IsBenchmark name
unfolding benchmark_command
valid_name name (Memᴰ.head e) = subst (λ n. IsBenchmark n) (sym e) IsBenchmark.backup
valid_name name (Memᴰ.tail (Memᴰ.head e)) = subst (λ n. IsBenchmark n) (sym e) IsBenchmark.restore
valid_name name (Memᴰ.tail (Memᴰ.tail m)) = elim m [ ]

module _ (cobra : Cobra) (documented : Documented cobra) where
  -- A benchmark that cobra lets through is a `backup` or a `restore`.
  pub valid-IsBenchmark :
      (root : Root) (arguments : List String) (path name logs_path : String) (json : Bool)
      → root_command cobra ≡ ok root
      → cobra.parse root arguments ≡ ok (benchmarking path name logs_path json)
      → IsBenchmark name
  unfolding benchmark_command
  valid-IsBenchmark root arguments path name logs_path json built parsed =
      let (ready, made, commands) = root_command-IsReady cobra documented in
      let both : ok ready ≡ ok root = sym made ∙ built in
      let same : ready ≡ root = cc in
      let (c, m, runs, valid) =
        documented.validates root arguments path name logs_path json parsed in
      let e =
        the_benchmark c
          (subst (λ (cs : List Command). Memᴰ c cs)
            (ap (λ (r : Root). r.commands) (sym same) ∙ commands) m)
          runs in
      valid_name name (
        subst (λ (c : Command). Memᴰ name c.valid_args) e
          (valid (ap (λ (c : Command). c.exact_valid_args) e)))
