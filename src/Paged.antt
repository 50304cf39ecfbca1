-- ===== src/Paged.antt =====
-- The paged file component: src/pf_hashtable.cc, src/pf_buffermgr.cc and
-- src/pf_filehandle.cc.
pub mod Code
pub mod Outcome
pub mod Hash
pub mod Buffer
pub mod File
