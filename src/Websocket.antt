-- ===== src/Websocket.antt =====
-- The websocket tracer of cmd/run/socket/proxy.go: the frames that it reads from a copy of the
-- bytes in each direction, under one byte budget for both, and the messages that it puts together.
-- A byte is a number below 256. A reader is the list of bytes that are still to come; where the
-- connection ends inside a read, io.ReadFull takes what there is and reports an error.
pub mod Frame
pub mod Budget
pub mod Sliding
pub mod Message
pub mod Assemble
pub mod Masking
pub mod Roundtrip
pub mod Extension
