-- ===== src/Authn.antt =====
-- platform/authn: the authenticated principal (context.go) and the middleware (middleware.go).
pub mod Bearer
pub mod Middleware
use content_platform.Prelude.{ℤ}

pub record Principal : Type 0 where
  pub user_id : ℤ
  pub session_id : ℤ
