-- ===== src/Listener/Api/Metrics.antt =====
-- metricsHandler of bodylog-listener-go/httpapi.go: its parameters, its SQL and its pages.
mod Query
mod Page
pub mod Window
mod Scanned
mod Behind
pub mod Walk
pub mod Limit
mod Examples
mod WalkExamples
unfoldable pub use Query.*
unfoldable pub use Page.*
