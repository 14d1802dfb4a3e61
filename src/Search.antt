-- ===== src/Search.antt =====
-- lowest_containing_vertex of src/util.cc: the lowest component of the topology graph whose processors
-- include those of a mask. std::sort is a parameter. The recursion has no bound in the source, so it
-- runs on fuel here, and `none` stands for running out of it.
pub mod Lowest
use yloc.Prelude.{
  ℕ, zero, suc, ◌==◌, List, [], ◌∷◌, Bool, true, false, ◌&&◌, not, Option, none, some, codes,
  Result, ok, fault, ◌>>=◌, map, keep, if◌then◌else◌,
}
use yloc.Prelude.Sorting.{Sorting}
use yloc.ComponentTypes.{mpi_process}
use yloc.Property.{affinity_mask}
use yloc.GraphElement
use yloc.GraphElement.{Vertex, get, child}
use yloc.Graph.{BoostGraph, Graph, vertex_at, edge_type_eq, get_root_vertex}
use yloc.External.Bitset.{Bitset}
use yloc.Affinity.{is_containing}

module _ (bits : Bitset) (boost : BoostGraph bits.Bits) where
  -- `g[vd].get<AffinityMask>("cpu_affinity_mask")`
  abbrev pub mask_at : Graph boost → ℕ → Result (Option bits.Bits)
  mask_at g v = get affinity_mask (vertex_at g v) (codes "cpu_affinity_mask")

  -- The targets of the out edges of a vertex in the graph filtered by child edges.
  unfoldable pub child_targets : Graph boost → ℕ → List ℕ
  child_targets g v =
      map (λ l. l.target)
        (keep (λ l. edge_type_eq l.property.m_edgetype child) (boost.out_edges g.repr v))

  -- `has_value() && value().is_containing(mask) && !is_a<MPIProcess>()`
  qualifies_by : bits.Bits → Vertex bits.Bits → Option bits.Bits → Bool
  qualifies_by mask x none = false
  qualifies_by mask x (some m) = is_containing bits m mask && not (GraphElement.is_a x mpi_process)

  unfoldable pub qualifies : bits.Bits → Graph boost → ℕ → Result Bool
  unfolding qualifies_by
  qualifies mask g t = do m ← mask_at g t; ok (qualifies_by mask (vertex_at g t) m)

  -- The loop that collects the candidates.
  unfoldable pub candidates : bits.Bits → Graph boost → List ℕ → Result (List ℕ)
  candidates mask g [] = ok []
  candidates mask g (t ∷ ts) = do
    q ← qualifies mask g t
    rest ← candidates mask g ts
    ok (if q then t ∷ rest else rest)

  -- `value().count()`; candidates have a value.
  abbrev count_of : Result (Option bits.Bits) → ℕ
  count_of (ok (some m)) = bits.count m
  count_of (ok none) = 0
  count_of fault = 0

  unfoldable pub count_at : Graph boost → ℕ → ℕ
  count_at g v = count_of (mask_at g v)

  module _ (sorting : Sorting ℕ) (mask : bits.Bits) (g : Graph boost) where
    -- `candidates[0]` of the sorted vector.
    first_of : List ℕ → Option ℕ
    first_of [] = none
    first_of (t ∷ ts) = some t

    unfoldable pub lowest : ℕ → ℕ → Option (Result ℕ)
    unfolding first_of
    lowest zero v = none
    lowest (suc n) v = elim (candidates mask g (child_targets g v)) [
      | fault ↦ some fault
      | ok [] ↦ some (ok v)
      | ok (t ∷ ts) ↦ elim (first_of ((sorting (count_at g)).sort (t ∷ ts))) [
        | none ↦ some fault
        | some best ↦ lowest n best
      ]
    ]

    -- `lowest_containing_vertex(mask)`
    unfoldable pub lowest_containing_vertex : ℕ → Option (Result ℕ)
    unfolding get_root_vertex
    lowest_containing_vertex n = lowest n (get_root_vertex g)
