-- ===== src/Utils.antt =====
-- src/utils/utils.c: end-of-line conversion, file URLs, directories, the desktop, the copied files and
-- images in memory.
pub mod Eol
pub mod Url
pub mod Dirs
pub mod Desktop
pub mod Headless
pub mod MemFile
pub mod Copied
