-- ===== src/Agent.antt =====
-- pkg/agentloop: the agent's conversation loop, its gate, its tools and its checkpoints.
pub mod Loop
pub mod Guard
pub mod Tools
pub mod Checkpoint
pub mod Compact
pub mod Diff
pub mod Runner
pub mod Wait
pub mod Files
pub mod Exec
