-- ===== src/Parser.antt =====
-- tracer/parser.go: how the tracer turns a request and its response into an event.
pub mod Encoding
pub mod Proto
pub mod Grpc
pub mod Reading
pub mod Nesting
pub mod Messages
pub mod Paths
pub mod Roundtrip
pub mod Frames
pub mod Stream
pub mod Har
pub mod Secrets
pub mod Body
pub mod Finish
pub mod Sending
pub mod Tags
