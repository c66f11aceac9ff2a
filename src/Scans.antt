-- ===== src/Scans.antt =====
-- The library scanner: internal/domain/media_library.go and the scan jobs and roots of
-- internal/repository/media_library_repository.go.
pub mod Job
pub mod Queue
pub mod Roots
mod Tests
