-- ===== src/Socket.antt =====
-- cmd/run/socket: the sockets that stand in for those of the traced program.
pub mod Inode
pub mod State
pub mod Bind
pub mod Connect
pub mod Listen
pub mod Close
pub mod Method
pub mod Graph
pub mod Answers
