-- ===== src/Lib.antt =====
-- yloc, a library that gathers the topology of a machine in one graph: modules for hwloc, MPI, GPU
-- libraries and SuperMUC add vertices for components and edges between them, and programs read the
-- properties of a component through the adapters that the modules attached to its vertex.
--
-- The parts, with the files of the repository that they model:
--   ComponentTypes  src/include/yloc/component_types.h. A class is a constructor, its base classes are
--                   `bases`, a dynamic_cast is `is_a`. ComponentTypes/Hierarchy is about the cast,
--                   ComponentTypes/Names about the map from names to types.
--   Status          src/include/yloc/status.h
--   Affinity        src/include/yloc/affinity.h: sets of processors and the conversions from and to
--                   cpu_set_t and hwloc_bitmap_t. `nprocs` is the number of online processors.
--   Property        src/include/yloc/modules/property.h: typed properties and the cast of one.
--   Adapter         src/include/yloc/modules/adapter.h: an adapter is the record of what its virtual
--                   functions return; `shared_map` is Adapter::map.
--   GraphElement    src/include/yloc/graph_element.h: get, its specialisation for strings, and the
--                   adapters of vertices and edges.
--   Graph           src/include/yloc/graph.h: the identifier map and the root vertex over a boost
--                   graph. Graph/Changes makes the changes by which modules build the graph a step
--                   relation, over which the invariants are inductions: new vertices, contents of
--                   vertices, the root, and edges in pairs; operator[](id) and a single edge are not
--                   among them. A module's init_graph is such a sequence of steps.
--                   Graph/Abstract is what a client sees of it.
--   Bdfid           the PCI identifiers of modules/hwloc/hwloc_adapter.h, modules/nvml/nvml_util.h and
--                   modules/rocm/rocm_util.h, by which modules find the vertex of a device.
--   Hwloc           modules/hwloc: the adapter, the types of hwloc's objects, and init_graph, which
--                   builds the graph from the tree of objects (Hwloc/Build).
--   Search          src/util.cc: the lowest component whose processors include those of a mask.
--   Supermuc        modules/supermuc: the vertices of islands, racks, columns and slots.
--   Modules         src/include/yloc/modules/module.h and src/init.cc: the interface that init runs,
--                   the modules that it runs (Modules/Order), the hwloc, SuperMUC, ROCm and MPI modules
--                   as instances of the interface (Modules/Filled), and a run of two of them
--                   (Modules/Together). An instance takes a recursion without end as a fault.
--   Interconnect    the loops over pairs of GPUs of modules/nvml/nvml_impl.cc and
--                   modules/rocm/rocm_impl.cc, and the graphs that they leave (Interconnect/Gpus).
--   Nvml            modules/nvml: the adapter, and init_graph (Nvml/Build), which marks the vertices of
--                   devices that another module has found.
--   Rocm            modules/rocm: the adapter, and init_graph (Rocm/Build), which adds the devices. An
--                   output variable that a failing call leaves unwritten keeps its value; reading one
--                   that was never written, or an array beyond its end, is a fault.
--   Mpi             modules/mpi: the vertices of processes (Mpi.antt), which Mpi/Round ties below the
--                   vertex of their host or below the one that the search of Search finds. Mpi/Composed runs
--                   the module behind the hwloc module, whose graph Hwloc/Ready describes.
--   Query           src/include/yloc/query.h: the distances that a visitor writes in the course of a
--                   breadth-first search, the weights of edges and the distances by weights.
--   View            src/include/yloc/util.h: views of a graph, the number of their vertices, and the
--                   texts that the helpers write.
--   Examples        the programs of example/, which combine views and distances: what they print is a
--                   list of lines or a text. Examples/Hosted runs find_distances on what the
--                   hwloc module builds.
--   External        the libraries that the source calls, as records of operations and of what their
--                   documentation promises: boost::dynamic_bitset, boost::adjacency_list,
--                   boost::filtered_graph, cpu_set_t, hwloc's bitmaps and hwloc itself; std::sort is Prelude/Sorting.
--   Prelude         names of the libraries passed on, texts as lists of bytes, association lists for
--                   std::unordered_map, and the result of code that may fault: a failing assert, an
--                   exception that nothing catches or a null pointer is `fault`.
--   Tests           the parameters filled in by functions that compute, and runs on small inputs.
--
-- Vertex descriptors, 64-bit values and distances, which the source keeps in int, are natural numbers; where the source shifts and masks, the
-- masks are written as remainders. The hierarchy of component types is searched to a depth of five,
-- which is the length of its longest chain of base classes. The recursion over hwloc's objects follows
-- the tree, so it needs no bound. The search of src/util.cc runs on fuel: a number that goes down along
-- each child edge, such as the height of a vertex, bounds the number of its calls; each process that
-- modules/mpi adds can make the graph one edge higher. The loops over devices and processes go through
-- the numbers below a count, so they need no bound. An adapter is a record of results at the time of a
-- call: what a reading changes in a device or over time is not modelled.
--
-- Not modelled: the loading of hwloc's topology, whose tree is a parameter; MPI, NVML, ROCm SMI and
-- sscanf, whose results are parameters; boost's searches, of which the breadth-first one is the list of
-- its tree edges and the one by Dijkstra its vectors; what boost::write_graphviz writes for the labels;
-- what modules print while they build the graph; and the templates from which the build generates the
-- lists of modules.
pub mod Prelude
pub mod ComponentTypes
pub mod Status
pub mod External
pub mod Affinity
pub mod Bdfid
pub mod Property
pub mod Adapter
pub mod GraphElement
pub mod Graph
pub mod Hwloc
pub mod Search
pub mod Supermuc
pub mod Modules
pub mod Interconnect
pub mod Rocm
pub mod Nvml
pub mod View
pub mod Query
pub mod Mpi
pub mod Examples
pub mod Tests
