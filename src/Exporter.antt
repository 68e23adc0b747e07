-- ===== src/Exporter.antt =====
-- bodylog-exporter-go: the parts of the exporter.
pub mod PdRoles
pub mod Names
pub mod Owners
pub mod Resolver
pub mod Metrics
pub mod Tail
pub mod Poller
