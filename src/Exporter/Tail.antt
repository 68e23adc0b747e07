-- ===== src/Exporter/Tail.antt =====
-- The tailer of bodylog-exporter-go/tail.go, recovery.go and checkpoint.go: a file is read from an
-- offset by whole lines, and a checkpoint keeps the offset for the next start.
mod Lines
mod Follow
mod Run
pub mod Observed
pub mod Resume
pub mod Dedup
pub mod Roll
mod Examples
unfoldable pub use Lines.*
unfoldable pub use Follow.*
unfoldable pub use Run.*
