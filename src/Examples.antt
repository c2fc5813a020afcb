-- ===== src/Examples.antt =====
-- The theorems at concrete inputs.
mod Descriptors
mod Notifications
mod Sockets
mod Frames
mod Records
mod Bodies
mod Calls
mod Engines
mod Connections
mod Messages
mod Events
mod Subscribers
mod Workers
mod Exchanges
