-- ===== src/App.antt =====
-- internal/app: the routes (routes.go), the start (app.go) and the life cycle (lifecycle.go).
pub mod Dispatch
pub mod Routes
pub mod Start
pub mod Lifecycle
pub mod Login
