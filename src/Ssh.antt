-- ===== src/Ssh.antt =====
-- The package `ssh`: the client through which commands run on the remote machines.
pub mod Utils
pub mod Client
