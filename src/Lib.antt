-- ===== src/Lib.antt =====
-- cbtools-autobench provisions a Couchbase Server cluster and a backup client over SSH, loads a
-- data set, runs backup or restore benchmarks with 'cbbackupmgr', and reports on their results.
--
-- The parts and their files:
--
-- - value/*.go, the configuration and the command lines: Value/Blueprint (the records of the YAML
--   file), Value/Command (`NewCommand`, `ToString`), Value/Format (fmt.Sprintf for texts and
--   integers: each verb takes an argument, its modifiers are skipped), Value/Platform, Value/Cbm
--   (the methods of `CBMConfig`), Value/Benchmark (transfer rates), Value/Stats (`residencyRatio`),
--   Value/Build (`extractBuild`), Value/Show (the String methods) with Value/Table
--   (text/tabwriter), Value/Marshal (the JSON forms) with Value/Json (encoding/json) and
--   Value/Formats.
-- - ssh/*.go, the connection to one machine: Ssh/Utils (utils.go) and Ssh/Client (client.go).
-- - nodes/*.go: Nodes/Node (node.go), Nodes/Cluster with Connect (NewCluster), Setup (Provision),
--   Load (LoadData), Logs (CollectLogs, Stats), Poll and Close (cluster.go), Nodes/BackupClient
--   (backup_client.go), Nodes/Library (what the package takes from libraries). A node is
--   provisioned through its client, a cluster through its nodes, and the backup client flushes and
--   reads the cluster while it benchmarks.
-- - report/*.go: Report/Parts (NewOverview, NewRundown, NewLogs), Report/Text (NewReport, the
--   String methods), Report/Json (the tags) and Report/Print (Print).
-- - cmd/*.go and main.go: Cmd/Config (readConfig), Cmd/Commands (the commands, their flags,
--   markFlagRequired and the init functions), Cmd/Provision (provision), Cmd/Benchmark (benchmark,
--   collectLogs), Cmd/Signals (signalHandler), Cmd/Closing (what the deferred calls leave) and
--   Cmd/Main (main, Execute). The sub-commands connect to the cluster and to the client, run the
--   procedures above, and print the report. What is behind each `defer` is a definition of its own,
--   `with_cluster` and `with_client`, and so is what is behind the connections,
--   `provision_connected` and `benchmark_connected`.
-- - utilities/logging.go: Utilities/Logging (the line of HandleLog) and Utilities/Handler (its
--   lock).
--
-- Function names are those of the source in another spelling: `modifyEvictionPercentage` is
-- `modify_eviction_percentage`; `BenchmarkBackup` and `BenchmarkRestore` are `run_backups` and
-- `run_restores`, and `benchmarkBackup` and `benchmarkRestore` are `benchmark_backup` and
-- `benchmark_restore`. A method is a function whose first argument is its receiver. `errors.Wrap`
-- is `wrapped`, `fmt.Errorf` with %w is `embedded`; results are ok, err, panic or fatal (log.Fatal,
-- or a panic of another goroutine), in Result.
--
-- Effects (Effect/*): a procedure is a `Process`, the tree of its requests to the outside (the
-- calls of the ssh library, of curl, of the file system, sleeping), of its question whether the
-- user has interrupted, and of its readings of the clock and of how many ticks of a ticker a
-- `select` takes before a deadline. The environment answers as it likes, so a statement with
-- `Ensures` is about every run. Effect/Simulate computes the run for given answers. A `Plan` says
-- which remote commands are sent, in which order, which side by side and which may be left out;
-- `Follows` says that a procedure keeps to a plan on every run: one that returns nil has carried
-- out the whole plan, and one that fails has stopped within it; `FollowsSome` is the same for a
-- plan that depends on what was answered, `FollowsMaking` ties the result to it, `Yields` speaks of
-- the value returned, `Requires` of what must hold for a success, and `Blames` says that a
-- procedure fails only if one of its requests has failed. `Within` says that something has happened
-- on a stretch of a run: Nodes/Node/Upload uses it for the upload, and Nodes/BackupClient/Made cuts
-- a run of the benchmarks into its rounds. Worker pools of the library hofp are a parameter, the
-- record `Pool`, whose law `documented` is what the library promises: each queued worker runs to
-- its end, their events interleave in any way, once a worker has failed others may not be queued
-- (the `break` behind Queue), and Stop returns nil only if all have run and none has failed, and
-- else the error of one that has.
--
-- The sub-commands start pools of two more kinds: of workers that each write one slot of a slice
-- (NewCluster), in any order, and of workers that have pools of their own (provision). Their code
-- is a `Session` (Effect/Session), whose pools are the record `Pools`; `Always` is for sessions
-- what `Ensures` is for processes, `Carries` what `Follows` is, and `Returns` what `Yields` is;
-- Effect/Session/Simulate computes the result of a session. `finally` is `defer`: the call is made
-- when the code ends, also by an error or a panic of the main goroutine; a panic of a worker ends
-- the process as log.Fatal does, without these calls.
--
-- Further parameters: the decoding of JSON and filepath.Join (`Library`), the formats of the
-- numbers of a report (`Formats`), the decoding of YAML, what os.Stat tells and the text of a JSON
-- tree (`Files`), cobra (`Cobra`, with what it documents as `Documented`) and the stack trace of an
-- error (`Outside`), and the order in which the nodes receive from the channel of items
-- (`received`).
--
-- Choices: numbers of the configuration are natural numbers; a map is a list in the order in which
-- it is visited; a node is known by its place in the slice of nodes; uint64 arithmetic is modulo
-- 2^64, and an int64 that may wrap is kept as its word; the clock counts nanoseconds. `poll` recurs
-- on the number of ticks that its `select` takes before the deadline, which the environment gives
-- and which is finite because a `select` with both cases ready takes each of them at times.
-- Poll/Select follows the same loop in time, as a step relation in milliseconds that puts no bound
-- on it: there the number of ticks is bounded if the calls are shorter than the period, and is not
-- if they are longer. All processes are finite trees. A context that is cancelled stays so, and the
-- loop over the iterations does not ask again once it has been told that it is.
--
-- Not modelled: that the other parts log; how cobra parses the arguments. The signal handler and
-- the sub-command are not put side by side: what the first does to the second is the question
-- whether the user has interrupted. Rounding of `Duration.Seconds` is left out. The blueprints are
-- there, not nil, and the cells of a table hold neither a tab nor the end of a line, which
-- text/tabwriter would take for the end of a cell or a row. A worker that is still running when
-- another one ends the process is followed to its end.
pub mod Base
pub mod Result
pub mod Value
pub mod Effect
pub mod Ssh
pub mod Nodes
pub mod Report
pub mod Cmd
pub mod Utilities
pub mod Tests
