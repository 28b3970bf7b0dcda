-- ===== src/Util.antt =====
-- peli/util: address arithmetic and the intrusive doubly linked list.
pub mod Address
pub mod LinkList
