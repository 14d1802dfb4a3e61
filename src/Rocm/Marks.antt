-- ===== src/Rocm/Marks.antt =====
-- What a round of the loop over the devices in init_graph of the ROCm module
-- (modules/rocm/rocm_impl.cc) does to the topology graph.
use yloc.Prelude.{
  ℕ, zero, suc, ◌+◌, ◌-◌, ◌*◌, ◌%◌, ◌&&◌, [], ◌∷◌, ◌^◌, ◌<◌, ◌≤◌, ◌≡◌, refl, sym, subst, inl, inr,
  Text, true, false, some, ok, arith, Bool-cases, ◌==◌, ==_iff, length, List,
}
use yloc.ComponentTypes
use yloc.ComponentTypes.{pci_device, accelerator, gpu}
use yloc.GraphElement.{Vertex, is_a}
use yloc.Graph.{BoostGraph, Graph, num_vertices, vertex_at, modify, add_vertex}
use yloc.Graph.WellFormed.{IsWellFormed, add_vertex_found}
use yloc.Graph.Reaches.{named-Reaches, modify-Reaches}
use yloc.Graph.Identifiers.{num-add_vertex-le}
use yloc.Graph.Vertices.{
  vertex_at-modify_other, vertex_at-add_vertex, map-modify, vertex_at-modify_self,
}
use yloc.External.Rocm.{RocmSmi, Bandwidth}
use yloc.Hwloc.Build.{bdfid_id}
use yloc.Interconnect.Gpus.{HasGpu, add_adapter-Memᴰ, add_adapter_kept, set_index, Marked}
use yloc.Rocm.Adapter.{element_at, rocm_adapter}
use yloc.Rocm.Build.{written_or, bandwidth_at, pcie_bandwidths, Found, describe_gpu, add_device}

-- The entries of a bandwidth that the loop reads are there.
pub record IsReadable (b : Bandwidth) : Type 0 where
  pub some_supported : 0 < b.transfer_rate.num_supported
  pub fits : b.transfer_rate.num_supported < 2 ^ 32
  pub rates : b.transfer_rate.num_supported ≤ length b.transfer_rate.frequency
  pub widths : b.transfer_rate.num_supported ≤ length b.lanes
  pub current_supported : b.transfer_rate.current < b.transfer_rate.num_supported

element_at-lt :
    {A : Type 0} (xs : List A) (i : ℕ) → i < length xs → (x : A) × (element_at xs i ≡ ok x)
unfolding element_at
element_at-lt [] i l = absurd (omega (arith, l))
element_at-lt (x ∷ xs) zero l = (x, refl)
element_at-lt (x ∷ xs) (suc i) l = element_at-lt xs i (omega (arith, l))

bandwidth_at-lt :
    (b : Bandwidth) (i : ℕ)
    → IsReadable b
    → i < b.transfer_rate.num_supported
    → (x : ℕ) × (bandwidth_at b i ≡ ok x)
unfolding bandwidth_at
bandwidth_at-lt b i r l =
    let (x, e) = element_at-lt b.transfer_rate.frequency i (omega (arith, l, r.rates)) in
    let (y, f) = element_at-lt b.lanes i (omega (arith, l, r.widths)) in
    (x * y % 2 ^ 64, rw (e, f) refl)

pcie_bandwidths-ok : (b : Bandwidth) → IsReadable b → (p : ℕ × ℕ) × (pcie_bandwidths b ≡ ok p)
unfolding pcie_bandwidths
pcie_bandwidths-ok b r =
    let (x, e) =
      bandwidth_at-lt b ((b.transfer_rate.num_supported + 2 ^ 32 - 1) % 2 ^ 32) r
        (omega (arith, r.some_supported, r.fits)) in
    let (y, f) = bandwidth_at-lt b b.transfer_rate.current r r.current_supported in
    ((x, y), rw (e, f) refl)

-- A vertex that was described passes the assertions.
describe_gpu-passes :
    (smi : RocmSmi) {Mask : Type 0} (i : ℕ) (v : Vertex Mask)
    → (is_a (describe_gpu smi i v) pci_device
        && (is_a (describe_gpu smi i v) accelerator && is_a (describe_gpu smi i v) gpu))
      ≡ true
unfolding describe_gpu is_a ComponentTypes.is_a
describe_gpu-passes smi i v = refl

module _ (smi : RocmSmi) {Mask : Type 0} {boost : BoostGraph Mask} where
  -- The graph after a round for the device `i` with the address `n`.
  abbrev pub after_round : Graph boost → ℕ → ℕ → Graph boost
  after_round g i n =
      modify (add_vertex (bdfid_id n) g).0 (add_vertex (bdfid_id n) g).1 (describe_gpu smi i)

  pub add_device-ok :
      (i : ℕ) (s : Found boost) (n : ℕ) (b : Bandwidth)
      → IsWellFormed s.graph
      → written_or (smi.dev_pci_id i) s.bdfid ≡ some n
      → smi.dev_pci_bandwidth i ≡ some b
      → IsReadable b
      → add_device smi i s
        ≡ ok (record {
          graph = after_round s.graph i n;
          vertices = set_index s.vertices i (add_vertex (bdfid_id n) s.graph).1;
          bdfid = some n;
        })
  unfolding add_device
  add_device-ok i s n b w e f r =
      let (p, k) = pcie_bandwidths-ok b r in
      let (g, vd) = add_vertex (bdfid_id n) s.graph in
      let m = (named-Reaches s.graph (bdfid_id n) w).in_range in
      rw (e, f, k)
        (rw
          (
            vertex_at-modify_self g vd (describe_gpu smi i) m,
            describe_gpu-passes smi i (vertex_at g vd),
          )
          refl)

  pub after_round-Marked :
      (id : ℕ → Text) (i : ℕ) (g : Graph boost) (vertices : ℕ → ℕ) (n : ℕ)
      → IsWellFormed g
      → id i ≡ bdfid_id n
      → Marked id
          (λ j. rocm_adapter smi j)
          i
          1
          g
          vertices
          (after_round g i n)
          (set_index vertices i (add_vertex (bdfid_id n) g).1)
  unfolding describe_gpu
  after_round-Marked id i g vertices n w e =
      let k = (add_vertex (bdfid_id n) g).0 in
      let vd = (add_vertex (bdfid_id n) g).1 in
      let r = named-Reaches g (bdfid_id n) w in
      let own : set_index vertices i vd i ≡ vd = rw ((==_iff i i).1 refl) refl in
      record {
        changes = (modify-Reaches g k vd (describe_gpu smi i) r).changes;
        found = λ j l m.
            let same : j ≡ i = omega (arith, l, m) in
            rw (same, own, e, map-modify k vd (describe_gpu smi i))
              (add_vertex_found g (bdfid_id n));
        gpus = λ j l m.
            let same : j ≡ i = omega (arith, l, m) in
            rw (same, own)
              (subst (HasGpu (rocm_adapter smi i))
                (sym (vertex_at-modify_self k vd (describe_gpu smi i) r.in_range))
                (refl, add_adapter-Memᴰ (vertex_at k vd) (rocm_adapter smi i)));
        marks_kept = λ j l. let other : (i == j) ≡ false = ground arith in rw other refl;
        gpus_kept = λ a v l f.
            let hv : v < num_vertices k = omega (arith, l, num-add_vertex-le g (bdfid_id n)) in
            let there = subst (HasGpu a) (sym (vertex_at-add_vertex g (bdfid_id n) v l)) f in
            elim (Bool-cases (vd == v)) [
              | inl same ↦
                  let at : vd ≡ v = (==_iff vd v).0 same in
                  subst (λ x. HasGpu a (vertex_at (after_round g i n) x)) at
                    (subst (HasGpu a)
                      (sym (vertex_at-modify_self k vd (describe_gpu smi i) r.in_range))
                      (
                        refl,
                        add_adapter_kept (vertex_at k vd) (rocm_adapter smi i) a (rw at there.1),
                      ))
              | inr other ↦
                  subst (HasGpu a)
                    (sym (vertex_at-modify_other k vd v (describe_gpu smi i) r.in_range hv other))
                    there
            ];
      }
