-- ===== src/Agent/Compact.antt =====
-- pkg/agentloop/compact.go: a conversation shrunk to a size. A slice that a loop writes into is a
-- list that the loop's function returns, with the loop's counters.
pub mod Weigh
pub mod Select
pub mod Passes
pub mod Run
pub mod Weight
pub mod Greedy
pub mod Eligible
pub mod Shape
pub mod Protect
pub mod Turns
pub mod Chain
