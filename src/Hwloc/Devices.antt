-- ===== src/Hwloc/Devices.antt =====
-- The identifiers by which modules/hwloc/init_graph.cc enters PCI devices, and the new vertices of objects.
use mathlib.Core.List.Memᴰ as MemD
use yloc.Prelude.{
  ℕ, suc, ◌<◌, ◌≡◌, refl, sym, ◌∙◌, List, [], ◌∷◌, ◌++◌, Memᴰ, Option, none, some, Text, find_key,
  text_eq, eq_of_text_eq, Bool-cases, inl, inr, if◌then◌else◌, ==_iff, arith,
}
use yloc.GraphElement.{new_element}
use yloc.Graph.{BoostGraph, Graph, num_vertices, vertex_at, add_vertex, add_unnamed_vertex}
use yloc.Graph.Identifiers.{lookup-add_vertex}
use yloc.Graph.Vertices.{vertex_at-add_vertex, vertex_at-add_vertex_new, new_vertex}
use yloc.External.Hwloc.{HwlocInfo, HwlocAttr, HwlocObj, HwlocObjs, node, nil, cons, pci_device}
use yloc.Bdfid.{hwloc_bdfid}
use yloc.Hwloc.Adapter.{pci_address}
use yloc.Hwloc.Table.{obj_type_eq}
use yloc.Hwloc.Build.{bdfid_id}

abbrev id_of : Option HwlocAttr → List Text
id_of none = []
id_of (some a) = bdfid_id (hwloc_bdfid (pci_address a)) ∷ []

module _ {Cpus : Type 0} where
  -- The identifier of a PCI device; other objects have none.
  unfoldable pub device_id : HwlocInfo Cpus → List Text
  device_id obj = if obj_type_eq obj.type pci_device then id_of obj.attr else []

  unfoldable mutual
    unfolding device_id

    pub ids_below : HwlocObj Cpus → List Text
    ids_below (node obj children) = ids_among children

    pub ids_among : HwlocObjs Cpus → List Text
    ids_among nil = []
    ids_among (cons (node obj children) rest) =
        device_id obj ++ (ids_among children ++ ids_among rest)

-- An identifier that the objects have is that of a PCI address.
id_of_bdfid_lem :
    (o : Option HwlocAttr) (id : Text) → Memᴰ id (id_of o) → (n : ℕ) × (id ≡ bdfid_id n)
id_of_bdfid_lem none id m = elim m [ ]
id_of_bdfid_lem (some a) id (Memᴰ.head e) = (hwloc_bdfid (pci_address a), e)
id_of_bdfid_lem (some a) id (Memᴰ.tail m) = elim m [ ]

device_id_bdfid_lem :
    {Cpus : Type 0} (obj : HwlocInfo Cpus) (id : Text)
    → Memᴰ id (device_id obj)
    → (n : ℕ) × (id ≡ bdfid_id n)
unfolding device_id
device_id_bdfid_lem obj id m = elim (Bool-cases (obj_type_eq obj.type pci_device)) [
  | inl e ↦ id_of_bdfid_lem obj.attr id (rw e at m)
  | inr e ↦ elim (rw e at m) [ ]
]

ids_among_bdfid_lem :
    {Cpus : Type 0} (objs : HwlocObjs Cpus) (id : Text)
    → Memᴰ id (ids_among objs)
    → (n : ℕ) × (id ≡ bdfid_id n)
unfolding ids_among
ids_among_bdfid_lem nil id m = elim m [ ]
ids_among_bdfid_lem (cons (node obj children) rest) id m =
    elim (MemD.append_cases (device_id obj) m) [
      | inl own ↦ device_id_bdfid_lem obj id own
      | inr others ↦ elim (MemD.append_cases (ids_among children) others) [
        | inl below ↦ ids_among_bdfid_lem children id below
        | inr behind ↦ ids_among_bdfid_lem rest id behind
      ]
    ]

pub ids_below_bdfid_lem :
    {Cpus : Type 0} (obj : HwlocObj Cpus) (id : Text)
    → Memᴰ id (ids_below obj)
    → (n : ℕ) × (id ≡ bdfid_id n)
unfolding ids_below
ids_below_bdfid_lem (node obj children) id m = ids_among_bdfid_lem children id m

-- No identifier stands twice in a list.
unfoldable pub AreDistinct : List Text → Type 0
AreDistinct [] = Unit
AreDistinct (x ∷ xs) = (¬ Memᴰ x xs) × AreDistinct xs

-- The parts of a list without repetition have none, and share nothing.
pub distinct_parts :
    (xs ys : List Text)
    → AreDistinct (xs ++ ys)
    → AreDistinct xs × AreDistinct ys × ((x : Text) → Memᴰ x xs → ¬ Memᴰ x ys)
unfolding AreDistinct
distinct_parts [] ys d = (tt, d, λ x m. elim m [ ])
distinct_parts (z ∷ zs) ys (h, d) =
    let (dx, dy, apart) = distinct_parts zs ys d in
    ((λ m. h (MemD.append_left ys m), dx), dy, separate z zs ys h apart)
  where
    separate :
        (z : Text) (zs ys : List Text)
        → ¬ Memᴰ z (zs ++ ys)
        → ((x : Text) → Memᴰ x zs → ¬ Memᴰ x ys)
        → (x : Text) → Memᴰ x (z ∷ zs)
        → ¬ Memᴰ x ys
    separate z zs ys h apart x (Memᴰ.head e) = λ m. h (MemD.append_right zs (rw (← e) m))
    separate z zs ys h apart x (Memᴰ.tail n) = apart x n

module _ {Mask : Type 0} {boost : BoostGraph Mask} where
  -- A graph with one vertex more, which is empty, and which may have been entered for one of the
  -- identifiers.
  pub record Fresh (g : Graph boost) (ids : List Text) (r : Graph boost × ℕ) : Type 0 where
    pub descriptor : r.1 ≡ num_vertices g
    pub size : num_vertices r.0 ≡ suc (num_vertices g)
    pub others : (v : ℕ) → v < num_vertices g → vertex_at r.0 v ≡ vertex_at g v
    pub blank : vertex_at r.0 r.1 ≡ new_element
    pub new_ids :
        (id : Text)
        → find_key id g.m_identifier_map ≡ none
        → ¬ Memᴰ id ids
        → find_key id r.0.m_identifier_map ≡ none

  pub named-Fresh :
      (g : Graph boost) (id : Text)
      → find_key id g.m_identifier_map ≡ none
      → Fresh g (id ∷ []) (add_vertex id g)
  named-Fresh g id e = record {
    descriptor = (new_vertex g id e).0;
    size = (new_vertex g id e).1;
    others = λ v l. vertex_at-add_vertex g id v l;
    blank = vertex_at-add_vertex_new g id e;
    new_ids = λ j f n. elim (Bool-cases (text_eq id j)) [
      | inl same ↦ absurd (n (Memᴰ.head (sym (eq_of_text_eq id j same))))
      | inr other ↦ lookup-add_vertex g id j ∙ rw other f
    ];
  }

  pub unnamed-Fresh : (g : Graph boost) → Fresh g [] (add_unnamed_vertex g)
  unfolding add_unnamed_vertex
  unnamed-Fresh g =
      let d = boost.descriptor-add_vertex new_element g.repr in
      record {
        descriptor = d;
        size = boost.num-add_vertex new_element g.repr;
        others = λ v l.
            boost.vertex_at-add_vertex new_element g.repr v (omega (arith, l)) ∙ ground arith;
        blank =
            boost.vertex_at-add_vertex new_element g.repr (boost.add_vertex new_element g.repr).1
              (omega (arith, d))
            ∙ rw ((==_iff (boost.add_vertex new_element g.repr).1 (boost.num_vertices g.repr)).1 d)
                refl;
        new_ids = λ id f n. f;
      }
