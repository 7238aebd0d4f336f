-- ===== src/Agent/Runner.antt =====
-- pkg/agentloop/runner.go: the runner that carries out the loop's actions and feeds it events.
pub mod Wire
pub mod Ports
pub mod Drive
pub mod Session
pub mod Marks
pub mod Queue
pub mod Orderly
pub mod Adds
pub mod Live
pub mod Quiet
