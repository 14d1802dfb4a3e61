-- ===== src/Tests/Types.antt =====
-- Runs of the component types, the typed properties and the PCI identifiers.
use yloc.Prelude.{◌<◌, ◌^◌, ◌%◌, ◌≡◌, ◌≢◌, ◌↔◌, true, some, codes, arith}
use yloc.ComponentTypes
use yloc.ComponentTypes.{
  ComponentType, test_component, component_of_name, gpu, accelerator, pci_device, component, memory,
}
use yloc.ComponentTypes.Hierarchy.{Derives, is_a-iff-Derives, test_component-iff-Derives}
use yloc.ComponentTypes.Names.{component_of_name_iff}
use yloc.Bdfid.{PciAddress, hwloc_bdfid, nvml_bdfid, bdfid_fields}
use yloc.Bdfid.Fields.{hwloc_bdfid_round_trip, nvml_bdfid_iff}

is_a-iff-Derives_example : (ComponentTypes.is_a gpu pci_device ≡ true) ↔ Derives pci_device gpu
is_a-iff-Derives_example = is_a-iff-Derives gpu pci_device

test_component-iff-Derives_example : (test_component component gpu ≡ true) ↔ Derives component gpu
test_component-iff-Derives_example = test_component-iff-Derives component gpu

component_of_name_iff_example :
    (component_of_name (codes "Memory") ≡ some memory)
    ↔ ((ComponentTypes.to_string memory ≡ codes "Memory") × (memory ≢ component))
component_of_name_iff_example = component_of_name_iff (codes "Memory") memory

abbrev address : PciAddress
address = record { domain = 1; bus = 3; device = 2; function = 1 }

hwloc_bdfid_round_trip_example :
    (hwloc_bdfid address < 2 ^ 64) × (bdfid_fields (hwloc_bdfid address) ≡ address)
hwloc_bdfid_round_trip_example = hwloc_bdfid_round_trip address (record {
  domain_fits = omega arith;
  bus_fits = omega arith;
  device_fits = omega arith;
  function_fits = omega arith;
})

nvml_bdfid_iff_example : (nvml_bdfid address ≡ hwloc_bdfid address) ↔ (address.function % 2 ^ 3 ≡ 0)
nvml_bdfid_iff_example = nvml_bdfid_iff address
