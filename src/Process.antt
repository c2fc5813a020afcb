-- ===== src/Process.antt =====
-- cmd/run/engine/process: a traced process, its memory, its sockets and the system call handlers.
pub mod Machine
pub mod Memory
pub mod Table
pub mod Host
pub mod Lifetime
pub mod Answer
pub mod Handlers
pub mod Calls
pub mod Opening
pub mod Dispatch
pub mod Rules
pub mod Quiet
pub mod Answering
pub mod Once
pub mod Steady
pub mod Sharing
pub mod Tracked
pub mod Ending
pub mod Addresses
