-- ===== src/Accounts.antt =====
-- Users and their login sessions: internal/domain/{user,session}.go,
-- internal/repository/{user,session}_repository.go, internal/service/user_service.go and
-- user_service_admin.go, internal/middleware/auth.go.
pub mod Store
pub mod Tokens
pub mod Password
pub mod Sessions
pub mod Users
pub mod Login
pub mod Profile
pub mod Guard
pub mod Ended
pub mod Runs
pub mod Refresh
pub mod Rotation
pub mod Reuse
pub mod Disabled
mod Tests
