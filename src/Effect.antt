-- ===== src/Effect.antt =====
-- What the program does to the outside, as data: processes, their runs and what a run may send.
pub mod Process
pub mod Runs
pub mod Plan
pub mod Follows
pub mod Pools
pub mod Requires
pub mod Last
pub mod Blame
pub mod After
pub mod Simulate
pub mod Yields
pub mod FollowsSome
pub mod FollowsMaking
pub mod Session
