-- ===== src/Tests/Cobra.antt =====
-- Two cobras that behave as documented on the commands of the program.
use mathlib.Core.List.{Memᴰ}
use cbtools_autobench.Base.{
  ◌≡◌, refl, sym, String, ◌==◌, ◌⊎◌, inl, inr, Bool, true, false, List, [], ◌∷◌, if◌then◌else◌,
}
use cbtools_autobench.Result.{message, Result, ok, err}
use cbtools_autobench.Cmd.Commands.{
  Body, Command, Root, mark_flag_required, provision_command, benchmark_command, Invocation,
  provisioning, benchmarking, Cobra, root_command, Documented,
}
use cbtools_autobench.Cmd.Commands.Valid.{needs_config}

-- The benchmark `name` with a cobra that looks for a sub-command that takes it.
unfoldable pub named_among : String → Bool → List String → Result Invocation → Result Invocation
named_among name json [] rest = rest
named_among name json (v ∷ vs) rest =
    let later = named_among name json vs rest in
    if v == name then ok (benchmarking "config.yaml" v "" json) else later

unfoldable pub find_benchmark : String → Bool → List Command → Result Invocation
unfolding named_among
find_benchmark name json [] = err (message "invalid argument")
find_benchmark name json (c ∷ cs) =
    let later = find_benchmark name json cs in
    elim c.run [
      | Body.provision_body ↦ later
      | Body.benchmark_body ↦ named_among name json c.valid_args later
    ]

abbrev pub benchmarks : String → Bool → Cobra
benchmarks name json = record {
  mark_flag_required_in = λ c name. ok (record c { required = name ∷ c.required });
  parse = λ root arguments. find_benchmark name json root.commands;
  text_of = λ e. "";
}

abbrev pub provisions : Cobra
provisions = record {
  mark_flag_required_in = λ c name. ok (record c { required = name ∷ c.required });
  parse = λ root arguments. ok (provisioning "config.yaml" false);
  text_of = λ e. "";
}

named_among-Mem :
    (name : String) (json : Bool) (vs : List String) (rest : Result Invocation)
    (path n logs_path : String) (j : Bool)
    → named_among name json vs rest ≡ ok (benchmarking path n logs_path j)
    → Memᴰ n vs ⊎ (rest ≡ ok (benchmarking path n logs_path j))
unfolding named_among
named_among-Mem name json [] rest path n logs_path j e = inr e
named_among-Mem name json (v ∷ vs) rest path n logs_path j e =
    goes (v == name) (named_among name json vs rest)
      (named_among-Mem name json vs rest path n logs_path j) e
  where
    goes :
        (b : Bool) (later : Result Invocation)
        → (later ≡ ok (benchmarking path n logs_path j)
            → Memᴰ n vs ⊎ (rest ≡ ok (benchmarking path n logs_path j)))
        → (if b then ok (benchmarking "config.yaml" v "" json) else later)
          ≡ ok (benchmarking path n logs_path j)
        → Memᴰ n (v ∷ vs) ⊎ (rest ≡ ok (benchmarking path n logs_path j))
    goes true later h e = let same : v ≡ n = cc in inl (Memᴰ.head (sym same))
    goes false later h e = elim (h e) [ inl m ↦ inl (Memᴰ.tail m) | inr r ↦ inr r ]

find_benchmark-valid :
    (name : String) (json : Bool) (cs : List Command) (path n logs_path : String) (j : Bool)
    → find_benchmark name json cs ≡ ok (benchmarking path n logs_path j)
    → (c : Command) × Memᴰ c cs × (c.run ≡ Body.benchmark_body) × Memᴰ n c.valid_args
unfolding find_benchmark
find_benchmark-valid name json [] path n logs_path j e = cc
find_benchmark-valid name json (c ∷ cs) path n logs_path j e =
    goes c.run refl (find_benchmark name json cs)
      (find_benchmark-valid name json cs path n logs_path j) e
  where
    Valid : List Command → Type 0
    Valid cs = (c : Command) × Memᴰ c cs × (c.run ≡ Body.benchmark_body) × Memᴰ n c.valid_args

    goes :
        (b : Body)
        → c.run ≡ b
        → (later : Result Invocation) → (later ≡ ok (benchmarking path n logs_path j) → Valid cs)
        → elim b [
          | Body.provision_body ↦ later
          | Body.benchmark_body ↦ named_among name json c.valid_args later
        ]
          ≡ ok (benchmarking path n logs_path j)
        → Valid (c ∷ cs)
    goes Body.provision_body at later h e =
        let (d, m, runs, valid) = h e in (d, Memᴰ.tail m, runs, valid)
    goes Body.benchmark_body at later h e =
        elim (named_among-Mem name json c.valid_args later path n logs_path j e) [
          | inl m ↦ (c, Memᴰ.head refl, at, m)
          | inr r ↦ let (d, m, runs, valid) = h r in (d, Memᴰ.tail m, runs, valid)
        ]

pub benchmarks-Documented : (name : String) (json : Bool) → Documented (benchmarks name json)
benchmarks-Documented name json = record {
  marks = λ c f m. refl;
  validates = λ root arguments path n logs_path j e.
      let (c, m, runs, valid) = find_benchmark-valid name json root.commands path n logs_path j e in
      (c, m, runs, λ one. valid);
}

-- The commands of the program, once both --config flags are marked.
abbrev pub marked_root : Root
marked_root = record {
  short = "An automatic benchmarking tool designed to benchmark Couchbase tools";
  silence_errors = true;
  silence_usage = true;
  commands = needs_config provision_command ∷ needs_config benchmark_command ∷ [];
}

pub provisions_root : root_command provisions ≡ ok marked_root
unfolding root_command mark_flag_required
provisions_root = refl

pub benchmarks_root :
    (name : String) (json : Bool) → root_command (benchmarks name json) ≡ ok marked_root
unfolding root_command mark_flag_required
benchmarks_root name json = refl

pub backup_parsed :
    (benchmarks "backup" false).parse marked_root []
    ≡ ok (benchmarking "config.yaml" "backup" "" false)
unfolding find_benchmark named_among provision_command benchmark_command
backup_parsed = refl

pub restore_parsed :
    (benchmarks "restore" true).parse marked_root []
    ≡ ok (benchmarking "config.yaml" "restore" "" true)
unfolding find_benchmark named_among provision_command benchmark_command
restore_parsed = refl
