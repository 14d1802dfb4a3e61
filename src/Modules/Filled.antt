-- ===== src/Modules/Filled.antt =====
-- The modules for hwloc, SuperMUC, ROCm and MPI as init of src/init.cc runs them.
use yloc.Prelude.{
  Option, none, Result, fault, ℕ, ◌≡◌, ◌/◌, ◌^◌, refl, List, some, Bool, true, not, Text, ok,
  Bool-cases, inl, inr, ◌==◌, ==_iff, length,
}
use yloc.Status.{success, init_error}
use yloc.Graph.{BoostGraph}
use yloc.Graph.Changes.{unchanged}
use yloc.External.Bitset.{Bitset}
use yloc.External.CpuSets.{Bitmap}
use yloc.External.Hwloc.{Hwloc, HwlocObj, machine}
use yloc.Hwloc.Build
use yloc.Hwloc.Build.{info_of}
use yloc.Hwloc.Total.{IsSupported}
use yloc.Hwloc.Init.{init_graph-IsInitialised, init_graph_version}
use yloc.Supermuc
use yloc.Supermuc.{make_supermuc_graph}
use yloc.Supermuc.Hosts.{make_supermuc_graph-IsPlaced}
use yloc.External.Rocm.{RocmSmi, Bandwidth}
use yloc.Rocm
use yloc.Rocm.Init.{IsListed, init_graph-IsGpuGraph}
use yloc.External.CpuSets.{CpuSet}
use yloc.Prelude.Sorting.{Sorting}
use yloc.Mpi
use yloc.Modules.{Module, IsSafe, init_first, init_second}

module _ {Mask : Type 0} (boost : BoostGraph Mask) where
  -- `ModuleSuperMUC`, which is not enabled by default.
  abbrev pub supermuc_module : Bool → Bool → (Text → ℕ) → Text → List Text → Module boost
  supermuc_module enabled initialized scan hostname names = record {
    m_init_order = init_first;
    m_enabled = enabled;
    init_graph = λ g. ok (Supermuc.init_graph initialized scan hostname names g);
  }

  pub supermuc_module-IsSafe :
      (enabled initialized : Bool) (scan : Text → ℕ) (hostname : Text) (names : List Text)
      → IsSafe boost (supermuc_module enabled initialized scan hostname names)
  unfolding Supermuc.init_graph
  supermuc_module-IsSafe enabled initialized scan hostname names g w =
      elim (Bool-cases (not initialized)) [
        | inl e ↦ (g, init_error, rw (Supermuc.init_graph, e) refl, unchanged)
        | inr e ↦ elim (Bool-cases (length hostname == 12)) [
          | inr f ↦ (g, init_error, rw (Supermuc.init_graph, e, f) refl, unchanged)
          | inl f ↦ elim (Bool-cases (scan hostname == 4)) [
            | inr k ↦ (g, init_error, rw (Supermuc.init_graph, e, f, k) refl, unchanged)
            | inl k ↦ (
              make_supermuc_graph names g,
              success,
              rw (Supermuc.init_graph, e, f, k) refl,
              (make_supermuc_graph-IsPlaced names g w).0,
            )
          ]
        ]
      ]

module _ (bits : Bitset) (nprocs : ℕ) (bitmap : Bitmap) (hw : Hwloc) (boost : BoostGraph bits.Bits)
    (hostname : Text) (root : HwlocObj bitmap.Carrier) where
  -- `ModuleHwloc`
  abbrev pub hwloc_module : Module boost
  hwloc_module = record {
    m_init_order = init_first;
    m_enabled = true;
    init_graph = Build.init_graph bits nprocs bitmap hw boost hostname root;
  }

  -- A topology whose root is a machine.
  pub hwloc_module-IsSafe :
      (info_of bits nprocs bitmap hw boost root).type ≡ machine
      → IsSupported root
      → IsSafe boost hwloc_module
  hwloc_module-IsSafe is_machine supported g w =
      elim (Bool-cases (hw.api_version / 2 ^ 16 == hw.header_version / 2 ^ 16)) [
        | inl e ↦
            let same = (==_iff (hw.api_version / 2 ^ 16) (hw.header_version / 2 ^ 16)).0 e in
            let (h, f, i) =
              init_graph-IsInitialised bits nprocs bitmap hw boost hostname root g same is_machine
                supported w in
            (h, success, f, i.changes)
        | inr e ↦ (
          g,
          init_error,
          init_graph_version bits nprocs bitmap hw boost hostname root g
              (λ f. cc ((==_iff (hw.api_version / 2 ^ 16) (hw.header_version / 2 ^ 16)).1 f, e)),
          unchanged,
        )
      ]

module _ (smi : RocmSmi) (stale_hops : ℕ → ℕ → ℕ) {Mask : Type 0} (boost : BoostGraph Mask) where
  -- `ModuleRocm`
  abbrev pub rocm_module : Module boost
  rocm_module = record {
    m_init_order = init_first;
    m_enabled = true;
    init_graph = Rocm.Build.init_graph smi stale_hops;
  }

  -- ROCm SMI lists its devices.
  pub rocm_module-IsSafe :
      (first : ℕ) (bandwidth : ℕ → Bandwidth) (n : ℕ)
      → IsListed smi first bandwidth n
      → smi.num_monitor_devices ≡ some n
      → IsSafe boost rocm_module
  rocm_module-IsSafe first bandwidth n listed counted g w =
      let (h, e, i) = init_graph-IsGpuGraph smi first bandwidth n listed stale_hops g counted w in
      (h, success, e, i.changes)

-- A recursion that does not end overflows the stack.
abbrev pub returned : {A : Type 0} → Option (Result A) → Result A
returned none = fault
returned (some r) = r

module _ (bits : Bitset) (nprocs : ℕ) (c : CpuSet) (boost : BoostGraph bits.Bits)
    (sorting : Sorting ℕ) (fuel : ℕ) where
  -- `ModuleMPI`, which runs behind the modules of the first order.
  abbrev pub mpi_module : Bool → Text → List (Text × c.Carrier) → Module boost
  mpi_module initialized hostname processes = record {
    m_init_order = init_second;
    m_enabled = true;
    init_graph = λ g.
        returned (Mpi.init_graph bits nprocs c boost sorting fuel initialized hostname processes g);
  }
