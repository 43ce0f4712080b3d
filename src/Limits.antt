-- ===== src/Limits.antt =====
-- The fixed-window rate limits: of the administrators' login (internal/admin/rate_limit.go), of
-- the buyers' login (internal/application/auth/rate_limit.go) and of the routes
-- (internal/middleware/rate_limit.go).
pub mod Windows
pub mod Login
pub mod Budget
pub mod Agreement
