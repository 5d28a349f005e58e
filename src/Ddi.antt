-- ===== src/Ddi.antt =====
-- The ddi library: the hawkBit client.
pub mod Endpoint
pub mod Payload
pub mod Response
pub mod Feedback
pub mod State
pub mod Builder
pub mod Session
pub mod Poll
