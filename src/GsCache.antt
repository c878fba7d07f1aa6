-- ===== src/GsCache.antt =====
-- gs_cache: the archive server of the Google Storage cache, and its reader of tar listings.
pub mod Paths
pub mod Answers
pub mod Chunks
pub mod Caching
pub mod Server
pub mod Archives
pub mod Extraction
pub mod Decompression
pub mod Chain
pub mod Refusals
pub mod TarList
pub mod TarLine
pub mod TarLayout
pub mod Tests
pub mod ServerTests
