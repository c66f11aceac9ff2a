-- ===== src/Analysis.antt =====
-- The durable queue of music analysis jobs: domain/music_analysis.go,
-- repository/music_analysis_repository.go and service/music_analysis_service.go (all in internal/).
pub mod Job
pub mod Queue
pub mod Attempt
mod Tests
