-- ===== src/View/Labels.antt =====
-- The labels of write_graph_dot_file (src/include/yloc/util.h), and when it faults.
use yloc.Prelude.{
  ℕ, ◌≡◌, refl, ap, ◌∙◌, ◌⊎◌, inl, inr, Bool, List, [], ◌∷◌, ◌++◌, map, Memᴰ, Option, Text, codes,
  to_string, Result, ok, fault, ◌>>=◌, Result-cases,
}
use yloc.GraphElement
use yloc.GraphElement.{Vertex, Edge, get_string}
use yloc.View.{
  GraphView, EdgeLabels, property_line, property_lines, vertex_label, vertex_labels,
  write_graph_dot_file, edge_label,
}

-- A loop over a list that reads something of each element and puts the result in front of the rest.
record IsReadingLoop {A P B : Type 0} (read : A → Result P) (join : A → P → B → B)
    (loop : List A → Result B) : Type 0 where
  final : (b : B) × (loop [] ≡ ok b)
  round : (x : A) (xs : List A) → loop (x ∷ xs) ≡ (read x >>= λ p. loop xs >>= λ q. ok (join x p q))

-- It ends with every element read, or faults at one that cannot be read.
reading_loop-outcome :
    {A P B : Type 0} (read : A → Result P) (join : A → P → B → B) (loop : List A → Result B)
    → IsReadingLoop read join loop
    → (xs : List A)
    → ((b : B) × (loop xs ≡ ok b) × ((x : A) → Memᴰ x xs → (p : P) × (read x ≡ ok p)))
      ⊎ ((loop xs ≡ fault) × ((x : A) × Memᴰ x xs × (read x ≡ fault)))
reading_loop-outcome read join loop h [] = inl (h.final.0, h.final.1, λ x m. elim m [ ])
reading_loop-outcome {A} {P} read join loop h (y ∷ ys) = elim (Result-cases (read y)) [
  | inl e ↦ inr (h.round y ys ∙ rw e refl, (y, Memᴰ.head refl, e))
  | inr (p, e) ↦ elim (reading_loop-outcome read join loop h ys) [
    | inl (b, f, all) ↦ inl (join y p b, h.round y ys ∙ rw (e, f) refl, each y ys p e all)
    | inr (f, (x, m, g)) ↦ inr (h.round y ys ∙ rw (e, f) refl, (x, Memᴰ.tail m, g))
  ]
]
  where
    each :
        {read : A → Result P} (y : A) (ys : List A) (p : P)
        → read y ≡ ok p
        → ((x : A) → Memᴰ x ys → (q : P) × (read x ≡ ok q))
        → (x : A) → Memᴰ x (y ∷ ys)
        → (q : P) × (read x ≡ ok q)
    each {read} y ys p e all x (Memᴰ.head f) = (p, ap read f ∙ e)
    each y ys p e all x (Memᴰ.tail m) = all x m

module _ {Mask : Type 0} (show_mask : Mask → Text) where
  -- Every listed property of a vertex can be read, or one of the readings faults.
  vertex_label-outcome :
      (g : GraphView Mask) (ks : List Text) (v : ℕ)
      → ((t : Text) × (vertex_label show_mask g ks v ≡ ok t)
          × ((k : Text)
              → Memᴰ k ks
              → (p : Option Text) × (get_string show_mask (g.element v) k ≡ ok p)))
        ⊎ ((vertex_label show_mask g ks v ≡ fault)
            × ((k : Text) × Memᴰ k ks × (get_string show_mask (g.element v) k ≡ fault)))
  unfolding vertex_label property_lines
  vertex_label-outcome g ks v =
      elim (reading_loop-outcome (get_string show_mask (g.element v))
        (λ k p lines. property_line show_mask k p ++ lines) (property_lines show_mask (g.element v))
        (record { final = ([], refl); round = λ k rest. refl }) ks) [
          | inl (lines, e, all) ↦ inl (
            GraphElement.to_string (g.element v)
                ++ (codes "\nVD=" ++ (to_string v ++ (codes "\n" ++ lines))),
            rw e refl,
            all,
          )
          | inr (e, bad) ↦ inr (rw e refl, bad)
        ]

  label_reads :
      (g : GraphView Mask) (ks : List Text) (v : ℕ) (k : Text) {t : Text}
      → vertex_label show_mask g ks v ≡ ok t
      → Memᴰ k ks
      → (p : Option Text) × (get_string show_mask (g.element v) k ≡ ok p)
  label_reads g ks v k e n = elim (vertex_label-outcome g ks v) [
    | inl (t, f, all) ↦ all k n
    | inr (f, bad) ↦ absurd (cc (e, f))
  ]

  label_faults :
      (g : GraphView Mask) (ks : List Text) (v : ℕ)
      → vertex_label show_mask g ks v ≡ fault
      → (k : Text) × Memᴰ k ks × (get_string show_mask (g.element v) k ≡ fault)
  label_faults g ks v e = elim (vertex_label-outcome g ks v) [
    | inl (t, f, all) ↦ absurd (cc (e, f))
    | inr (f, bad) ↦ bad
  ]

  module _ (write_graphviz : List (ℕ × Text) → EdgeLabels → Text) where
    -- write_graph_dot_file writes a file in which every listed property of every vertex of the graph was
    -- read, or it faults at a property whose reading faults.
    pub write_graph_dot_file-outcome :
        (g : GraphView Mask) (vertex_properties : List Text) (edge_labels : Bool)
        → ((file : Text) × (write_graph_dot_file write_graphviz show_mask g vertex_properties
                edge_labels
              ≡ ok file)
            × ((v : ℕ) (k : Text)
                → Memᴰ v g.vertices
                → Memᴰ k vertex_properties
                → (p : Option Text) × (get_string show_mask (g.element v) k ≡ ok p)))
          ⊎ ((write_graph_dot_file write_graphviz show_mask g vertex_properties edge_labels ≡ fault)
              × ((v : ℕ) × (k : Text) × Memᴰ v g.vertices
                  × Memᴰ k vertex_properties
                  × (get_string show_mask (g.element v) k ≡ fault)))
    unfolding write_graph_dot_file vertex_labels
    write_graph_dot_file-outcome g ks edge_labels =
        elim (reading_loop-outcome (vertex_label show_mask g ks) (λ v t rest. (v, t) ∷ rest)
          (vertex_labels show_mask g ks) (record { final = ([], refl); round = λ v rest. refl })
          g.vertices) [
            | inl (labels, e, all) ↦ inl (
              write_graphviz labels (
                  map (λ l. (l.source, l.target, edge_label edge_labels l.property.m_edgetype))
                    g.edges),
              rw e refl,
              λ v k m n. label_reads g ks v k (all v m).1 n,
            )
            | inr (e, (v, m, f)) ↦
                inr (rw e refl, let (k, n, h) = label_faults g ks v f in (v, k, m, n, h))
          ]
