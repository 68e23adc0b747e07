-- ===== src/Listener.antt =====
-- bodylog-listener-go: the frame reader, retention and the other parts of the listener.
pub mod Frame
pub mod Files
pub mod Retention
pub mod Housekeep
pub mod Bucket
pub mod Aggregator
pub mod Entry
pub mod Api
