-- ===== src/Collectives.antt =====
-- The collectives of src/collectives.c and src/shmem_collectives.h.
pub mod Circular
pub mod Kary
pub mod FullTree
mod Tests
