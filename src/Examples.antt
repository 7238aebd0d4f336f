-- ===== src/Examples.antt =====
-- The theorems at concrete inputs, by the part of the program they are about.
pub mod Loops
pub mod Guards
pub mod Checkpoints
pub mod Compactions
pub mod Diffs
pub mod Auths
pub mod Tokens
pub mod Migrations
pub mod Configs
pub mod Waits
pub mod Audiences
pub mod Runners
pub mod Streams
pub mod FileTools
pub mod Clients
pub mod Servers
pub mod Execs
