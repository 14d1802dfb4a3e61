-- ===== src/Rocm/Init.antt =====
-- What init_graph of the ROCm module (modules/rocm/rocm_impl.cc) leaves.
use yloc.Prelude.{
  ℕ, zero, suc, Text, ap, ◌>>=◌, ◌+◌, ◌<◌, ◌≤◌, ◌≡◌, refl, ◌∙◌, some, none, Option, Option-cases,
  inl, inr, ok, arith,
}
use yloc.Status.{success}
use yloc.Graph.{BoostGraph, Graph}
use yloc.Graph.WellFormed.{IsWellFormed}
use yloc.Graph.Changes.{unchanged}
use yloc.Graph.Invariants.{Changes-IsWellFormed}
use yloc.External.Rocm.{RocmSmi, Bandwidth}
use yloc.Hwloc.Build.{bdfid_id, value}
use yloc.Interconnect.Gpus.{Marked, Marked-join, IsGpuGraph, link_all-IsGpuGraph}
use yloc.Rocm.Adapter.{rocm_adapter}
use yloc.Rocm.Build.{
  written_or, Found, add_devices, one_hop, yloc_rocm_gpu_interconnect, init_graph,
}
use yloc.Rocm.Marks.{IsReadable, after_round, add_device-ok, after_round-Marked}

-- The address that the loop has for a device: its own where it can be read, and otherwise that of the
-- device before it.
or_kept : Option ℕ → ℕ → ℕ
or_kept (some n) old = n
or_kept none old = old

module _ (smi : RocmSmi) where
  unfoldable pub address : ℕ → ℕ → ℕ
  unfolding or_kept
  address first zero = first
  address first (suc i) = or_kept (smi.dev_pci_id (suc i)) (address first i)

  module _ (first : ℕ) (bandwidth : ℕ → Bandwidth) where
    abbrev pub id : ℕ → Text
    id i = bdfid_id (address first i)

    -- ROCm SMI has the address of the first device and the bandwidths of all below `n`.
    pub record IsListed (n : ℕ) : Type 0 where
      pub starts : smi.dev_pci_id 0 ≡ some first
      pub bandwidths : (i : ℕ) → i < n → smi.dev_pci_bandwidth i ≡ some (bandwidth i)
      pub readable : (i : ℕ) → i < n → IsReadable (bandwidth i)

    -- What the next device gets as its address after the device `i`.
    address-written :
        (i : ℕ)
        → written_or (smi.dev_pci_id (suc i)) (some (address first i))
          ≡ some (address first (suc i))
    unfolding address
    address-written i = elim (Option-cases (smi.dev_pci_id (suc i))) [
      | inl e ↦ rw e refl
      | inr (n, e) ↦ rw e refl
    ]

    begins :
        smi.dev_pci_id 0 ≡ some first → written_or (smi.dev_pci_id 0) none ≡ some (address first 0)
    unfolding address
    begins e = rw e refl

    module _ {Mask : Type 0} {boost : BoostGraph Mask} (n : ℕ) (listed : IsListed n) where
      record Ended (i left : ℕ) (s : Found boost) : Type 0 where
        last : Found boost
        runs : add_devices smi left i s ≡ ok last
        marked :
            Marked id (λ j. rocm_adapter smi j) i left s.graph s.vertices last.graph last.vertices

      add_devices-Ended :
          (left i : ℕ) (s : Found boost)
          → i + left ≤ n
          → IsWellFormed s.graph
          → written_or (smi.dev_pci_id i) s.bdfid ≡ some (address first i)
          → Ended i left s
      unfolding add_devices
      add_devices-Ended zero i s l w e = record {
        last = s;
        runs = refl;
        marked = record {
          changes = unchanged;
          found = λ j a b. absurd (omega (arith, a, b));
          gpus = λ j a b. absurd (omega (arith, a, b));
          marks_kept = λ j a. refl;
          gpus_kept = λ b v a f. f;
        };
      }
      add_devices-Ended (suc left) i s l w e =
          let a = address first i in
          let m = after_round-Marked smi id i s.graph s.vertices a w refl in
          let w' = Changes-IsWellFormed m.changes w in
          let ran =
            add_device-ok smi i s a (bandwidth i) w e (listed.bandwidths i (omega (arith, l)))
              (listed.readable i (omega (arith, l))) in
          let rest = add_devices-Ended left (suc i) _ (omega (arith, l)) w' (address-written i) in
          record {
            last = rest.last;
            runs = rw ran rest.runs;
            marked =
                Marked-join id (λ j. rocm_adapter smi j) i left s.graph
                  (after_round smi s.graph i a) rest.last.graph s.vertices _ rest.last.vertices w' m
                  rest.marked;
          }

      counted :
          (stale_hops : ℕ → ℕ → ℕ) (g : Graph boost)
          → smi.num_monitor_devices ≡ some n
          → init_graph smi stale_hops g
            ≡ add_devices smi n 0 (record { graph = g; vertices = λ _. 0; bdfid = none }) >>= (λ s.
              ok ((yloc_rocm_gpu_interconnect smi stale_hops s.vertices n s.graph).0, success))
      unfolding init_graph
      counted stale_hops g e =
          ap
            (λ o. value o >>= (λ k.
              add_devices smi k 0 (record { graph = g; vertices = λ _. 0; bdfid = none }) >>= (λ s.
                ok ((yloc_rocm_gpu_interconnect smi stale_hops s.vertices k s.graph).0, success))))
            e

      -- init_graph of the ROCm module, where ROCm SMI counts `n` devices, has the address of the first
      -- one, and reads of every device a bandwidth with at least one and fewer than 2^32 supported
      -- entries, all of which are there and of which one is the current one: it succeeds on a
      -- well-formed graph, with a well-formed graph in which every device has a vertex that is found
      -- by its identifier, is a GPU and has its adapter, and any two devices one hop apart have edges
      -- between their vertices in both directions. A device whose address cannot be read is given the
      -- vertex of the device before it.
      pub init_graph-IsGpuGraph :
          (stale_hops : ℕ → ℕ → ℕ) (g : Graph boost)
          → smi.num_monitor_devices ≡ some n
          → IsWellFormed g
          → (h : Graph boost) × (init_graph smi stale_hops g ≡ ok (h, success))
            × IsGpuGraph id (λ j. rocm_adapter smi j) n (one_hop smi stale_hops) g h
      unfolding yloc_rocm_gpu_interconnect
      init_graph-IsGpuGraph stale_hops g e w =
          let t =
            add_devices-Ended n 0 (record { graph = g; vertices = λ _. 0; bdfid = none })
              (omega arith) w (begins listed.starts) in
          (
            (yloc_rocm_gpu_interconnect smi stale_hops t.last.vertices n t.last.graph).0,
            counted stale_hops g e ∙ rw t.runs refl,
            link_all-IsGpuGraph id (λ j. rocm_adapter smi j) n (one_hop smi stale_hops) g
                t.last.graph (λ _. 0) t.last.vertices w t.marked,
          )
