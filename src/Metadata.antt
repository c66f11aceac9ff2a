-- ===== src/Metadata.antt =====
-- internal/mediametadata/reader.go: the bounds on untrusted tags that are checked before the tag
-- library sees a file, and the durations read from containers.
pub mod Bytes
pub mod Picture
pub mod Comments
pub mod Flac
pub mod Boxes
pub mod Duration
pub mod Ogg
pub mod Headers
mod Tests
