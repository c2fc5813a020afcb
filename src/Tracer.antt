-- ===== src/Tracer.antt =====
-- tracer: the manager of events and its background flush, what is kept of a body, and the waits of the
-- publisher.
pub mod Sampler
pub mod Backoff
pub mod Ticks
pub mod Blocks
pub mod Delivery
