-- ===== src/Hwloc.antt =====
-- The module for hwloc (modules/hwloc/): its adapter, the types of its objects and how it builds the
-- topology graph.
pub mod Adapter
pub mod Types
pub mod Table
pub mod Build
pub mod Structure
pub mod Init
pub mod Devices
pub mod Classes
pub mod Described
pub mod Searchable
pub mod Ready
pub mod Total
