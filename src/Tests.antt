-- ===== src/Tests.antt =====
-- Runs of the definitions on small inputs, and the theorems at such inputs.
pub mod Numbers
pub mod Planning
pub mod Collecting
pub mod Indexing
pub mod Analyzing
pub mod Encoding
pub mod Searching
pub mod Composing
pub mod Bitmaps
pub mod Introducing
pub mod Merging
pub mod Posting
