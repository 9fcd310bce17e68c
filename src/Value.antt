-- ===== src/Value.antt =====
-- The package `value`: configuration, commands, platforms, results.
pub mod Format
pub mod Command
pub mod Formats
pub mod Table
pub mod Build
pub mod Blueprint
pub mod Platform
pub mod Cbm
pub mod Benchmark
pub mod Stats
pub mod Json
pub mod Marshal
pub mod Show
