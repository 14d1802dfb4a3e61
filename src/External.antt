-- ===== src/External.antt =====
-- The code that yloc calls and that is not part of the repository: records of the operations that
-- the source uses, with the laws that their documentation states.
pub mod Bitset
pub mod CpuSets
pub mod AdjacencyList
pub mod FilteredGraph
pub mod Hwloc
pub mod Rocm
pub mod Nvml
