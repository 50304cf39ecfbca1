-- ===== src/Record.antt =====
-- Record files: rm_rid.h, rm.h and bitmap.cc, and the layout of a page in rm_filehandle.cc.
pub mod Rid
pub mod Bitmap
pub mod Page
pub mod Slot
pub mod File
pub mod Scan
