-- ===== src/ComponentTypes.antt =====
-- The component types of src/include/yloc/component_types.h: the class hierarchy that the macro
-- YLOC_DECLARE_TYPE declares, the type test is_a (a dynamic_cast), test_component, to_string and the
-- map from names to types. A class has one instance, ptr(), so a pointer to it is its constructor.
pub mod Hierarchy
pub mod Names
use yloc.Prelude.{
  ℕ, zero, suc, Bool, true, ◌||◌, List, [], ◌∷◌, Option, Text, codes, text_eq, find_key, ◌==◌, any,
  if◌then◌else◌,
}

pub data ComponentType : Type 0 where
  component unknown_component_type node compute cpu_core logical_core : ComponentType
  physical_core storage memory cache persistent_storage volatile_memory : ComponentType
  non_volatile_memory data_cache instruction_cache unified_cache l1_cache l2_cache : ComponentType
  l3_cache l4_cache l1_data_cache l2_data_cache l3_data_cache l4_data_cache : ComponentType
  l1_instruction_cache l2_instruction_cache l3_instruction_cache : ComponentType
  l4_instruction_cache l1_unified_cache l2_unified_cache l3_unified_cache : ComponentType
  l4_unified_cache solid_state_drive hard_disk_drive pci_device bridge : ComponentType
  logical_accelerator logical_gpu accelerator gpu fpga gpu_core gpu_memory : ComponentType
  input_output network_device link bus misc logical_edge_type parent child : ComponentType
  logical_component mpi_process : ComponentType

-- The direct base classes, in the order of the declaration.
unfoldable pub bases : ComponentType → List ComponentType
bases component = []
bases unknown_component_type = component ∷ []
bases node = component ∷ []
bases compute = component ∷ []
bases cpu_core = compute ∷ []
bases logical_core = cpu_core ∷ []
bases physical_core = cpu_core ∷ []
bases storage = component ∷ []
bases memory = storage ∷ []
bases cache = storage ∷ []
bases persistent_storage = storage ∷ []
bases volatile_memory = memory ∷ []
bases non_volatile_memory = memory ∷ []
bases data_cache = cache ∷ []
bases instruction_cache = cache ∷ []
bases unified_cache = data_cache ∷ instruction_cache ∷ []
bases l1_cache = cache ∷ []
bases l2_cache = cache ∷ []
bases l3_cache = cache ∷ []
bases l4_cache = cache ∷ []
bases l1_data_cache = l1_cache ∷ data_cache ∷ []
bases l2_data_cache = l2_cache ∷ data_cache ∷ []
bases l3_data_cache = l3_cache ∷ data_cache ∷ []
bases l4_data_cache = l4_cache ∷ data_cache ∷ []
bases l1_instruction_cache = l1_cache ∷ instruction_cache ∷ []
bases l2_instruction_cache = l2_cache ∷ instruction_cache ∷ []
bases l3_instruction_cache = l3_cache ∷ instruction_cache ∷ []
bases l4_instruction_cache = l4_cache ∷ instruction_cache ∷ []
bases l1_unified_cache = l1_cache ∷ unified_cache ∷ []
bases l2_unified_cache = l2_cache ∷ unified_cache ∷ []
bases l3_unified_cache = l3_cache ∷ unified_cache ∷ []
bases l4_unified_cache = l4_cache ∷ unified_cache ∷ []
bases solid_state_drive = persistent_storage ∷ []
bases hard_disk_drive = persistent_storage ∷ []
bases pci_device = component ∷ []
bases bridge = component ∷ []
bases logical_accelerator = component ∷ []
bases logical_gpu = logical_accelerator ∷ []
bases accelerator = pci_device ∷ []
bases gpu = accelerator ∷ []
bases fpga = accelerator ∷ []
bases gpu_core = gpu ∷ compute ∷ []
bases gpu_memory = gpu ∷ memory ∷ []
bases input_output = component ∷ []
bases network_device = pci_device ∷ input_output ∷ []
bases link = component ∷ []
bases bus = link ∷ []
bases misc = component ∷ []
bases logical_edge_type = component ∷ []
bases parent = logical_edge_type ∷ []
bases child = logical_edge_type ∷ []
bases logical_component = component ∷ []
bases mpi_process = logical_component ∷ []

-- The place of a type's declaration in the file.
unfoldable pub index : ComponentType → ℕ
index component = 0
index unknown_component_type = 1
index node = 2
index compute = 3
index cpu_core = 4
index logical_core = 5
index physical_core = 6
index storage = 7
index memory = 8
index cache = 9
index persistent_storage = 10
index volatile_memory = 11
index non_volatile_memory = 12
index data_cache = 13
index instruction_cache = 14
index unified_cache = 15
index l1_cache = 16
index l2_cache = 17
index l3_cache = 18
index l4_cache = 19
index l1_data_cache = 20
index l2_data_cache = 21
index l3_data_cache = 22
index l4_data_cache = 23
index l1_instruction_cache = 24
index l2_instruction_cache = 25
index l3_instruction_cache = 26
index l4_instruction_cache = 27
index l1_unified_cache = 28
index l2_unified_cache = 29
index l3_unified_cache = 30
index l4_unified_cache = 31
index solid_state_drive = 32
index hard_disk_drive = 33
index pci_device = 34
index bridge = 35
index logical_accelerator = 36
index logical_gpu = 37
index accelerator = 38
index gpu = 39
index fpga = 40
index gpu_core = 41
index gpu_memory = 42
index input_output = 43
index network_device = 44
index link = 45
index bus = 46
index misc = 47
index logical_edge_type = 48
index parent = 49
index child = 50
index logical_component = 51
index mpi_process = 52

abbrev pub type_eq : ComponentType → ComponentType → Bool
type_eq s t = index s == index t

-- The class of an object of class `t` is found among the classes at most `n` levels above.
unfoldable pub derives_within : ℕ → ComponentType → ComponentType → Bool
unfolding index bases
derives_within zero t c = type_eq t c
derives_within (suc n) t c = type_eq t c || any (λ b. derives_within n b c) (bases t)

-- The number of levels of the hierarchy below `Component`.
abbrev pub levels : ℕ
levels = 5

-- `t->is_a<c>()`: whether the cast of the object to `c` is not null.
unfoldable pub is_a : ComponentType → ComponentType → Bool
unfolding derives_within
is_a t c = derives_within levels t c

-- `c->test_component(other)`; the base class overrides the cast by `true`.
unfoldable pub test_component : ComponentType → ComponentType → Bool
unfolding is_a
test_component component other = true
test_component c other = is_a other c

unfoldable pub to_string : ComponentType → Text
to_string component = codes "Component"
to_string unknown_component_type = codes "UnknownComponentType"
to_string node = codes "Node"
to_string compute = codes "Compute"
to_string cpu_core = codes "CPUCore"
to_string logical_core = codes "LogicalCore"
to_string physical_core = codes "PhysicalCore"
to_string storage = codes "Storage"
to_string memory = codes "Memory"
to_string cache = codes "Cache"
to_string persistent_storage = codes "PersistentStorage"
to_string volatile_memory = codes "VolatileMemory"
to_string non_volatile_memory = codes "NonVolatileMemory"
to_string data_cache = codes "DataCache"
to_string instruction_cache = codes "InstructionCache"
to_string unified_cache = codes "UnifiedCache"
to_string l1_cache = codes "L1Cache"
to_string l2_cache = codes "L2Cache"
to_string l3_cache = codes "L3Cache"
to_string l4_cache = codes "L4Cache"
to_string l1_data_cache = codes "L1DataCache"
to_string l2_data_cache = codes "L2DataCache"
to_string l3_data_cache = codes "L3DataCache"
to_string l4_data_cache = codes "L4DataCache"
to_string l1_instruction_cache = codes "L1InstructionCache"
to_string l2_instruction_cache = codes "L2InstructionCache"
to_string l3_instruction_cache = codes "L3InstructionCache"
to_string l4_instruction_cache = codes "L4InstructionCache"
to_string l1_unified_cache = codes "L1UnifiedCache"
to_string l2_unified_cache = codes "L2UnifiedCache"
to_string l3_unified_cache = codes "L3UnifiedCache"
to_string l4_unified_cache = codes "L4UnifiedCache"
to_string solid_state_drive = codes "SolidStateDrive"
to_string hard_disk_drive = codes "HardDiskDrive"
to_string pci_device = codes "PCIDevice"
to_string bridge = codes "Bridge"
to_string logical_accelerator = codes "LogicalAccelerator"
to_string logical_gpu = codes "LogicalGPU"
to_string accelerator = codes "Accelerator"
to_string gpu = codes "GPU"
to_string fpga = codes "FPGA"
to_string gpu_core = codes "GPUCore"
to_string gpu_memory = codes "GPUMemory"
to_string input_output = codes "InputOutput"
to_string network_device = codes "NetworkDevice"
to_string link = codes "Link"
to_string bus = codes "Bus"
to_string misc = codes "Misc"
to_string logical_edge_type = codes "LogicalEdgeType"
to_string parent = codes "Parent"
to_string child = codes "Child"
to_string logical_component = codes "LogicalComponent"
to_string mpi_process = codes "MPIProcess"

-- The types of the file, in the order in which their initialisers enter them in the map; the class
-- `Component` has no initialiser.
abbrev pub declared : List ComponentType
declared =
    unknown_component_type ∷ node ∷ compute ∷ cpu_core ∷ logical_core ∷ physical_core ∷ storage
    ∷ memory ∷ cache ∷ persistent_storage ∷ volatile_memory ∷ non_volatile_memory ∷ data_cache
    ∷ instruction_cache ∷ unified_cache ∷ l1_cache ∷ l2_cache ∷ l3_cache ∷ l4_cache ∷ l1_data_cache
    ∷ l2_data_cache ∷ l3_data_cache ∷ l4_data_cache ∷ l1_instruction_cache ∷ l2_instruction_cache
    ∷ l3_instruction_cache ∷ l4_instruction_cache ∷ l1_unified_cache ∷ l2_unified_cache
    ∷ l3_unified_cache ∷ l4_unified_cache ∷ solid_state_drive ∷ hard_disk_drive ∷ pci_device
    ∷ bridge ∷ logical_accelerator ∷ logical_gpu ∷ accelerator ∷ gpu ∷ fpga ∷ gpu_core ∷ gpu_memory
    ∷ input_output ∷ network_device ∷ link ∷ bus ∷ misc ∷ logical_edge_type ∷ parent ∷ child
    ∷ logical_component ∷ mpi_process ∷ []

-- `map()[#type_name] = ptr()` for each declared type, the newest entry first.
enter : List ComponentType → List (Text × ComponentType) → List (Text × ComponentType)
unfolding to_string
enter [] m = m
enter (t ∷ ts) m = enter ts ((to_string t, t) ∷ m)

-- `Component::map().find(name)`.
unfoldable pub component_of_name : Text → Option ComponentType
unfolding enter find_key text_eq
component_of_name n = find_key n (enter declared [])
