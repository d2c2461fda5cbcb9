-- ===== src/Daemon.antt =====
-- What guards the daemon's HTTP routes, and the route by which the command line and the hooks
-- delegate: src/josu/internal_route_http.py, src/josu/daemon_auth.py,
-- src/josu/delegate/internal_api.py.
pub mod Body
pub mod Auth
pub mod DelegateRoute
mod Examples
