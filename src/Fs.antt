-- ===== src/Fs.antt =====
-- Files: kkp/kkp-core/include/kkp/fs/.
pub mod File
