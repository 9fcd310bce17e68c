-- ===== src/Cmd.antt =====
-- The sub-commands of the package `cmd`. The flags that cobra reads are arguments.
pub mod Config
pub mod Provision
pub mod Benchmark
pub mod Closing
pub mod Commands
pub mod Signals
pub mod Main
