-- ===== src/Access.antt =====
-- Who may read the library and its media: internal/pkg/mediatoken/token.go,
-- internal/middleware/access.go and internal/middleware/admin_auth.go.
pub mod MediaToken
pub mod Library
mod Tests
