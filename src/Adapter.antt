-- ===== src/Adapter.antt =====
-- The abstract machine model of src/include/yloc/modules/adapter.h: an adapter as the table of what
-- its virtual functions return at the time of a call, the defaults of the base class, and the map of
-- the properties that all adapters share. A property is empty where the component has none; a
-- call may also fault, as where it follows a null pointer.
use yloc.Prelude.{ℕ, List, [], ◌∷◌, Option, none, some, Text, codes, find_key, Result, ok, ℤ}
use mathlib.Core.Option
use yloc.Property.{ValueType, uint64, int64, affinity_mask, Value, BoundProperty}

pub record Adapter (Mask : Type 0) : Type 0 where
  -- to_string()
  pub name : Text
  pub temperature : Result (Option ℤ)
  pub memory : Result (Option ℕ)
  pub memory_usage : Result (Option ℕ)
  pub memory_load : Result (Option ℕ)
  pub memory_frequency : Result (Option ℕ)
  pub bdfid : Result (Option ℕ)
  pub numa_affinity : Result (Option ℕ)
  pub bandwidth : Result (Option ℕ)
  pub bandwidth_min : Result (Option ℕ)
  pub bandwidth_max : Result (Option ℕ)
  pub throughput : Result (Option ℕ)
  pub latency : Result (Option ℕ)
  pub frequency : Result (Option ℕ)
  pub power : Result (Option ℕ)
  pub usage : Result (Option ℕ)
  pub load : Result (Option ℕ)
  pub pci_throughput : Result (Option ℕ)
  pub pci_throughput_read : Result (Option ℕ)
  pub pci_throughput_write : Result (Option ℕ)
  pub cpu_affinity_mask : Result (Option Mask)
  pub mpi_rank : Result (Option ℕ)
  -- An override of module_map(); without one it returns the shared map.
  pub custom_properties : Option (List (Text × BoundProperty Mask))

-- A member function of the adapters, with the type of its values.
pub record Property (Mask : Type 0) : Type 0 where
  pub type : ValueType
  pub property_fn : Adapter Mask → Result (Option (Value Mask type))

module _ {Mask : Type 0} where
  -- What an adapter returns for all that its class does not override.
  abbrev pub base_adapter : Adapter Mask
  base_adapter = record {
    name = [];
    temperature = ok none;
    memory = ok none;
    memory_usage = ok none;
    memory_load = ok none;
    memory_frequency = ok none;
    bdfid = ok none;
    numa_affinity = ok none;
    bandwidth = ok none;
    bandwidth_min = ok none;
    bandwidth_max = ok none;
    throughput = ok none;
    latency = ok none;
    frequency = ok none;
    power = ok none;
    usage = ok none;
    load = ok none;
    pci_throughput = ok none;
    pci_throughput_read = ok none;
    pci_throughput_write = ok none;
    cpu_affinity_mask = ok none;
    mpi_rank = ok none;
    custom_properties = none;
  }

  abbrev pub bind : Adapter Mask → Property Mask → BoundProperty Mask
  bind a p = record { type = p.type; reading = p.property_fn a }

  unfoldable pub shared_map : List (Text × Property Mask)
  shared_map =
      (codes "memory", record { type = uint64; property_fn = λ a. a.memory })
      ∷ (codes "memory_usage", record { type = uint64; property_fn = λ a. a.memory_usage })
      ∷ (codes "memory_load", record { type = uint64; property_fn = λ a. a.memory_load })
      ∷ (codes "memory_frequency", record { type = uint64; property_fn = λ a. a.memory_frequency })
      ∷ (codes "bdfid", record { type = uint64; property_fn = λ a. a.bdfid })
      ∷ (codes "numa_affinity", record { type = uint64; property_fn = λ a. a.numa_affinity })
      ∷ (codes "bandwidth", record { type = uint64; property_fn = λ a. a.bandwidth })
      ∷ (codes "bandwidth_min", record { type = uint64; property_fn = λ a. a.bandwidth_min })
      ∷ (codes "bandwidth_max", record { type = uint64; property_fn = λ a. a.bandwidth_max })
      ∷ (codes "throughput", record { type = uint64; property_fn = λ a. a.throughput })
      ∷ (codes "latency", record { type = uint64; property_fn = λ a. a.latency })
      ∷ (codes "frequency", record { type = uint64; property_fn = λ a. a.frequency })
      ∷ (codes "temperature", record { type = int64; property_fn = λ a. a.temperature })
      ∷ (codes "power", record { type = uint64; property_fn = λ a. a.power })
      ∷ (codes "usage", record { type = uint64; property_fn = λ a. a.usage })
      ∷ (codes "load", record { type = uint64; property_fn = λ a. a.load })
      ∷ (codes "pci_throughput", record { type = uint64; property_fn = λ a. a.pci_throughput })
      ∷ (
        codes "pci_throughput_read",
        record { type = uint64; property_fn = λ a. a.pci_throughput_read },
      )
      ∷ (
        codes "pci_throughput_write",
        record { type = uint64; property_fn = λ a. a.pci_throughput_write },
      )
      ∷ (codes "mpi_rank", record { type = uint64; property_fn = λ a. a.mpi_rank })
      ∷ (
        codes "cpu_affinity_mask",
        record { type = affinity_mask; property_fn = λ a. a.cpu_affinity_mask },
      )
      ∷ []

  -- `a->module_map().find(name)`, with the property bound to `a`.
  unfoldable pub find_module_property : Adapter Mask → Text → Option (BoundProperty Mask)
  find_module_property a k = elim a.custom_properties [
    | none ↦ Option.map (bind a) (find_key k shared_map)
    | some m ↦ find_key k m
  ]

-- What the adapters of device libraries return: the value of a call, or nothing where its status is not
-- that of success.
abbrev pub checked : {A B : Type 0} → (A → B) → Option A → Result (Option B)
checked f (some a) = ok (some (f a))
checked f none = ok none
