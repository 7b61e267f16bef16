-- ===== src/Index.antt =====
-- The parts of index/ that keep state of their own beside the segments.
pub mod Deletion
pub mod Retry
pub mod Batch
pub mod Segments
pub mod Introducer
pub mod Postings
