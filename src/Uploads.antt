-- ===== src/Uploads.antt =====
-- Uploaded files: internal/service/upload_validation.go.
pub mod Validation
mod Tests
