-- ===== src/Space.antt =====
-- SpaceMap of engine/pmem_allocator/free_list.hpp and free_list.cpp: the byte map of free blocks.
pub mod Token
pub mod Map
pub mod Pool
