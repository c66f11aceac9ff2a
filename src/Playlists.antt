-- ===== src/Playlists.antt =====
-- Playlists: internal/domain/playlist.go, internal/repository/playlist_repository.go and
-- internal/service/playlist_service.go.
pub mod Store
pub mod Ids
pub mod Repository
pub mod Listing
pub mod Placement
pub mod Reorder
pub mod Compaction
pub mod Removal
pub mod Edits
pub mod Ownership
pub mod Limits
pub mod Names
pub mod Service
mod Tests
pub mod Additions
