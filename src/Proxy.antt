-- ===== src/Proxy.antt =====
-- cmd/run/socket/proxy.go: the guess of a connection's protocol and the race that decides who makes it, the
-- HTTP/1 and HTTP/2 proxies, and the race that closes the connections.
pub mod Guess
pub mod Race
pub mod Http2
pub mod Streams
pub mod Endings
pub mod Closing
pub mod Http1
