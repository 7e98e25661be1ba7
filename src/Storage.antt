-- ===== src/Storage.antt =====
-- src/HalStorage.cpp, the storage card as a directory of the host.
pub mod Paths
pub mod Ops
pub mod Inside
pub mod Confined
pub mod Safety
pub mod File
pub mod Entry
pub mod Refinement
