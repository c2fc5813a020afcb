-- ===== src/Fd.antt =====
-- cmd/run/fd/fd.go: the reference counted container of a file descriptor.
-- `Word` has the arithmetic of the counter, `Calls` the calls of one goroutine with no other in
-- between, `Threads` the interleavings of any number of goroutines, atomic operation by atomic
-- operation. What holds of all interleavings is in `Invariant`, `Moves`, `Safety` and `Race`.
pub mod Word
pub mod Calls
pub mod Balance
pub mod Threads
pub mod Invariant
pub mod Moves
pub mod Safety
pub mod Race
