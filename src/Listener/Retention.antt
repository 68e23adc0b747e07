-- ===== src/Listener/Retention.antt =====
-- bodylog-listener-go/retention.go: which files a pass may delete, and one pass of prune.
mod Candidates
mod Pass
pub mod Sizes
pub mod Age
pub mod Order
pub mod Disk
mod Examples
unfoldable pub use Candidates.*
unfoldable pub use Pass.*
