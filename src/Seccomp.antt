-- ===== src/Seccomp.antt =====
-- cmd/run/engine/seccomp: the listener of intercepted system calls and the answers to them.
pub mod Wire
pub mod Notif
pub mod Once
pub mod Layout
pub mod Listener
