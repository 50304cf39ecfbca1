-- ===== src/Btree.antt =====
-- The nodes of the B+ tree indexes: btree_node.h and btree_node.cc.
pub mod Key
pub mod Node
pub mod Insert
pub mod Order
pub mod Remove
pub mod Find
pub mod Position
pub mod Copy
pub mod Split
pub mod Merge
pub mod Layout
pub mod Compare
