-- ===== src/Timeline.antt =====
-- The editing core of a draft: go/internal/timeline. Each child models one part of the package.
pub mod Types
pub mod Errors
pub mod Metadata
pub mod Lookup
pub mod Ripple
pub mod Split
pub mod Trim
pub mod Reorder
pub mod Place
pub mod Insert
pub mod Settings
pub mod OriginalAudio
pub mod SourceRange
pub mod Move
pub mod Clone
pub mod Catalog
pub mod Patch
pub mod Validate
pub mod Coalesce
pub mod Spans
pub mod Coverage
pub mod Tracks
pub mod Sample
pub mod Examples
