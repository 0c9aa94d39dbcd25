-- ===== src/Header.antt =====
-- src/header.rs: the binary headers, one module for each.
pub mod Burst
pub mod Overlay
pub mod Vfs
pub mod Directory
pub mod Entry
