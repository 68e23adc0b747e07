-- ===== src/Exporter/Resolver.antt =====
-- podRouteResolver of bodylog-exporter-go/route_endpoints.go: from the ModelRoutes and EndpointSlices
-- of the API server to the labels of a backend's address and the targets of the openresty poller.
mod Routes
mod Build
mod Refresh
pub mod Merge
pub mod Targets
pub mod History
pub mod Roles
mod Examples
unfoldable pub use Routes.*
unfoldable pub use Build.*
unfoldable pub use Refresh.*
