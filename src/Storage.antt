-- ===== src/Storage.antt =====
-- storage/: the textual forms of digests.
pub mod Checksums
