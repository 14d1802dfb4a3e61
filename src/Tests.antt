-- ===== src/Tests.antt =====
-- Runs of the model on small inputs, with the parameters filled in: by sets of bits, by graphs and by
-- an hwloc that compute.
pub mod Bits
pub mod Cpus
pub mod Lists
pub mod Objects
pub mod Machine
pub mod Sorts
pub mod Searches
pub mod Types
pub mod Masks
pub mod Elements
pub mod Graphs
pub mod Modules
pub mod Interconnects
pub mod Devices
pub mod NvmlRuns
pub mod RocmRuns
pub mod Queries
pub mod Programs
pub mod Weighted
pub mod Distances
pub mod Calls
pub mod Ranks
pub mod Hosted
pub mod Printed
