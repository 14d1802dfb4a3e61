-- ===== src/Examples/Processes.antt =====
-- The distances between MPI processes that example/example-mpi.cc prints.
use yloc.Prelude.{
  suc, ◌==◌, false, arith, ℕ, ◌≡◌, ◌⊎◌, ◌↔◌, inl, inr, refl, sym, ap, ◌∙◌, List, [], ◌∷◌, map, Memᴰ,
  Result, ok, fault, Result-cases,
}
use yloc.ComponentTypes.{mpi_process}
use yloc.GraphElement.{Vertex, Edge}
use yloc.Graph.{BoostGraph, Graph, new_graph}
use yloc.Graph.Changes.{Changes}
use yloc.External.AdjacencyList.{Link}
use yloc.External.FilteredGraph.{FilteredGraph}
use yloc.View.{vertex_range}
use yloc.Query.{bfs_hops}
use yloc.Query.Shortest.{Walk, IsBreadthFirst}
use yloc.Query.Distance.{IsShortest}
use yloc.Query.Symmetric.{bfs_hops-symmetric}
use yloc.Examples.{rank_at, view_of, distances_to, distances_between, mpi_distances}
use yloc.Examples.Classes.{Is, in_view_iff}

rank_or_zero : Result ℕ → ℕ
rank_or_zero (ok r) = r
rank_or_zero fault = 0

-- What is printed: for every process its rank, and the rank of every process with the length of a
-- shortest walk to it, which is as long as one back.
pub record IsDistanceTable {Mask : Type 0} {boost : BoostGraph Mask} (g : Graph boost)
    (blocks : List (ℕ × List (ℕ × ℕ))) : Type 0 where
  pub processes : List ℕ
  pub processes_iff : (v : ℕ) → Memᴰ v processes ↔ Is g mpi_process v
  pub rank : ℕ → ℕ
  pub ranks : (v : ℕ) → Is g mpi_process v → rank_at g v ≡ ok (rank v)
  pub distance : ℕ → ℕ → ℕ
  pub shortest :
      (v w : ℕ) → Is g mpi_process v → Is g mpi_process w → IsShortest g v w (distance v w)
  pub symmetric : (v w : ℕ) → Is g mpi_process v → Is g mpi_process w → distance v w ≡ distance w v
  pub table : blocks ≡ map (λ v. (rank v, map (λ w. (rank w, distance v w)) processes)) processes

module _ {Mask : Type 0} {boost : BoostGraph Mask} (g : Graph boost) where
  abbrev rank_of : ℕ → ℕ
  rank_of v = rank_or_zero (rank_at g v)

  rank_of_lem : (v : ℕ) → (rank_at g v ≡ fault) ⊎ (rank_at g v ≡ ok (rank_of v))
  unfolding rank_or_zero
  rank_of_lem v = elim (Result-cases (rank_at g v)) [
    | inl e ↦ inl e
    | inr (r, e) ↦ inr (e ∙ ap (λ x. ok (rank_or_zero x)) (sym e))
  ]

  -- Every process has a rank, or one has none.
  ranks_or_fault :
      (vs : List ℕ)
      → ((v : ℕ) → Memᴰ v vs → rank_at g v ≡ ok (rank_of v))
        ⊎ ((v : ℕ) × Memᴰ v vs × (rank_at g v ≡ fault))
  ranks_or_fault [] = inl (λ v m. elim m [ ])
  ranks_or_fault (w ∷ ws) = elim (rank_of_lem w) [
    | inl e ↦ inr (w, Memᴰ.head refl, e)
    | inr e ↦ elim (ranks_or_fault ws) [
      | inl all ↦ inl (each all e)
      | inr (v, m, h) ↦ inr (v, Memᴰ.tail m, h)
    ]
  ]
    where
      each :
          {w : ℕ} {ws : List ℕ}
          → ((v : ℕ) → Memᴰ v ws → rank_at g v ≡ ok (rank_of v))
          → rank_at g w ≡ ok (rank_of w)
          → (v : ℕ) → Memᴰ v (w ∷ ws)
          → rank_at g v ≡ ok (rank_of v)
      each all e v (Memᴰ.head f) = ap (rank_at g) f ∙ e ∙ ap (λ x. ok (rank_of x)) (sym f)
      each all e v (Memᴰ.tail m) = all v m

  distances_to_fault :
      (d : ℕ → ℕ) (v : ℕ) (vs : List ℕ)
      → Memᴰ v vs
      → rank_at g v ≡ fault
      → distances_to d g vs ≡ fault
  unfolding distances_to
  distances_to_fault d v [] m e = elim m [ ]
  distances_to_fault d v (w ∷ ws) (Memᴰ.head f) e = rw (sym (ap (rank_at g) f) ∙ e) refl
  distances_to_fault d v (w ∷ ws) (Memᴰ.tail m) e = elim (Result-cases (rank_at g w)) [
    | inl f ↦ rw f refl
    | inr (r, f) ↦ rw (f, distances_to_fault d v ws m e) refl
  ]

  module _ (rank : ℕ → ℕ) where
    distances_to-map :
        (d : ℕ → ℕ) (vs : List ℕ)
        → ((v : ℕ) → Memᴰ v vs → rank_at g v ≡ ok (rank v))
        → distances_to d g vs ≡ ok (map (λ w. (rank w, d w)) vs)
    unfolding distances_to
    distances_to-map d [] h = refl
    distances_to-map d (w ∷ ws) h =
        rw (h w (Memᴰ.head refl), distances_to-map d ws (λ v m. h v (Memᴰ.tail m))) refl

    distances_between-map :
        (breadth_first_search : Graph boost → ℕ → List (Link (Edge Mask))) (ps vs : List ℕ)
        → ((v : ℕ) → Memᴰ v ps → rank_at g v ≡ ok (rank v))
        → ((v : ℕ) → Memᴰ v vs → rank_at g v ≡ ok (rank v))
        → distances_between breadth_first_search g ps vs
          ≡ ok (map (λ v. (rank v, map (λ w. (rank w, bfs_hops breadth_first_search g v w)) ps)) vs)
    unfolding distances_between
    distances_between-map search ps [] h k = refl
    distances_between-map search ps (v ∷ vs) h k =
        rw
          (
            k v (Memᴰ.head refl),
            distances_to-map (bfs_hops search g v) ps h,
            distances_between-map search ps vs h (λ w m. k w (Memᴰ.tail m)),
          )
          refl

  distances_between_fault :
      (breadth_first_search : Graph boost → ℕ → List (Link (Edge Mask))) (v : ℕ) (ps : List ℕ)
      → Memᴰ v ps
      → rank_at g v ≡ fault
      → (w : ℕ) (ws : List ℕ) → distances_between breadth_first_search g ps (w ∷ ws) ≡ fault
  unfolding distances_between
  distances_between_fault search v ps m e w ws = elim (Result-cases (rank_at g w)) [
    | inl f ↦ rw f refl
    | inr (r, f) ↦ rw (f, distances_to_fault (bfs_hops search g w) v ps m e) refl
  ]

  all_between_fault :
      (breadth_first_search : Graph boost → ℕ → List (Link (Edge Mask))) (v : ℕ) (ps : List ℕ)
      → Memᴰ v ps
      → rank_at g v ≡ fault
      → distances_between breadth_first_search g ps ps ≡ fault
  all_between_fault search v [] m e = elim m [ ]
  all_between_fault search v (w ∷ ws) m e = distances_between_fault search v (w ∷ ws) m e w ws

  -- In a graph that modules made from the empty one, in which all processes are connected, and where boost's
  -- searches are breadth first, either a process has no rank and the process of rank 0 stops at an
  -- exception, or that process prints the symmetric table of the distances between all processes. The
  -- processes of other ranks print nothing.
  pub mpi_distances-outcome :
      (filtered : FilteredGraph (Vertex Mask) (Edge Mask))
      (breadth_first_search : Graph boost → ℕ → List (Link (Edge Mask)))
      → Changes (new_graph boost) g
      → ((v : ℕ) → Is g mpi_process v → IsBreadthFirst g v (breadth_first_search g v))
      → ((v w : ℕ) → Is g mpi_process v → Is g mpi_process w → (k : ℕ) × Walk g v k w)
      → ((rank : ℕ) → mpi_distances filtered breadth_first_search (suc rank) g ≡ ok [])
        × ((((v : ℕ) × Is g mpi_process v × (rank_at g v ≡ fault))
              × (mpi_distances filtered breadth_first_search 0 g ≡ fault))
            ⊎ ((blocks : List (ℕ × List (ℕ × ℕ))) × (mpi_distances filtered breadth_first_search 0 g
                  ≡ ok blocks)
                × IsDistanceTable g blocks))
  unfolding mpi_distances vertex_range
  mpi_distances-outcome filtered search c breadth connected =
      let ps = (view_of filtered g mpi_process).vertices in
      let is = in_view_iff filtered g mpi_process in
      let pair = λ (v w : ℕ) (hv : Is g mpi_process v) (hw : Is g mpi_process w).
        bfs_hops-symmetric search g v w c (breadth v hv) (breadth w hw) (connected v w hv hw).1 in
      (
        λ rank. let other : (suc rank == 0) ≡ false = ground arith in rw other refl,
        elim (ranks_or_fault ps) [
          | inr (v, m, e) ↦ inl ((v, (is v).0 m, e), all_between_fault search v ps m e)
          | inl all ↦ inr (
            map (λ v. (rank_of v, map (λ w. (rank_of w, bfs_hops search g v w)) ps)) ps,
            distances_between-map rank_of search ps ps all all,
            record {
              processes = ps;
              processes_iff = is;
              rank = rank_of;
              ranks = λ v h. all v ((is v).1 h);
              distance = bfs_hops search g;
              shortest = λ v w hv hw. (pair v w hv hw).1;
              symmetric = λ v w hv hw. (pair v w hv hw).0;
              table = refl;
            },
          )
        ],
      )
