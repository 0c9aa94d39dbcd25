-- ===== src/Vfs.antt =====
-- src/vfs/: the reader of the asset filesystem, and its sector cache.
pub mod Reader
pub mod Indexed
pub mod Cache
pub mod Coherence
pub mod Stream
pub mod Whole
