-- ===== src/Fs.antt =====
-- project3_filesystem: the blocks and inodes of fs.c.
pub mod State
pub mod Bits
pub mod Bitmap
pub mod Map
pub mod Inodes
pub mod Path
pub mod Content
pub mod Trunc
pub mod Examples
