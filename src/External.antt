-- ===== src/External.antt =====
-- What the program uses and does not implement, each as a record of operations and of the laws
-- that its documentation promises; `Memory` shows that the laws can be met.
pub mod Repository
pub mod LockStore
pub mod Cache
pub mod SortedSets
pub mod Hashes
pub mod Memory
