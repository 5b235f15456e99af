-- ===== src/Middleware.antt =====
-- The API gateway: services/middleware/middleware.
pub mod RateLimiter
pub mod AuthService
pub mod Authentication
pub mod Proxy
mod Tests
