-- ===== src/Plugin/Graph/Tests.antt =====
-- A storage plugin, an index on it and a query plugin on both; and two plugins that need each other.
use bindxdb.Prelude.{
  ℕ, String, false, ◌≡◌, refl, some, List, [], ◌∷◌, contains, has_key, ok, go, Unrepeated, arith,
  lookup, eq_iff, eq_self, ◌==◌, if◌then◌else◌,
}
use bindxdb.Plugin.Graph.{
  Dependency, PluginMetadata, GraphNode, new_node, loaded, DependencyGraph, new_dependency_graph,
  add_plugin, mandatory, edges, detect_cycle, topological_sort,
}
use bindxdb.Plugin.Graph.Cycles.{detect_cycle-eq-none}
use bindxdb.Plugin.Graph.Order.{
  topological_sort_complete, topological_sort-DependenciesFollow, DependenciesFollow, IsRanked,
}

abbrev needs : String → Dependency
needs id = record { plugin_id = id; version = "1"; optional = false }

abbrev plugin : String → List Dependency → PluginMetadata
plugin id deps = record {
  id = id;
  name = id;
  version = "1";
  dependencies = deps;
  provides = [];
  requires = [];
}

abbrev plugin_node : String → List Dependency → String × GraphNode
plugin_node id deps = (id, new_node (plugin id deps) loaded)

abbrev chain : DependencyGraph
chain =
    plugin_node "a" []
    ∷ plugin_node "b" (needs "a" ∷ [])
    ∷ plugin_node "c" (needs "a" ∷ needs "b" ∷ [])
    ∷ []

abbrev loop : DependencyGraph
unfolding go add_plugin
loop =
    add_plugin (add_plugin new_dependency_graph (plugin "a" (needs "b" ∷ [])) loaded)
      (plugin "b" (needs "a" ∷ [])) loaded

run : Unit {0}
unfolding go add_plugin mandatory edges detect_cycle topological_sort
run = tt

sort_chain : topological_sort chain ≡ some (ok ("c" ∷ "b" ∷ "a" ∷ []))
unfolding run
sort_chain = refl

sort_loop : topological_sort loop ≡ some (ok ("a" ∷ "b" ∷ []))
unfolding run
sort_loop = refl

abbrev rank : String → ℕ
rank k = if k == "a" then 0 else if k == "b" then 1 else 2

a_not_b : ("b" == "a") ≡ false
unfolding go
a_not_b = refl

c_not_ab : (("c" == "a") ≡ false) × (("c" == "b") ≡ false)
unfolding go
c_not_ab = (refl, refl)

chain-IsRanked : IsRanked chain rank
unfolding edges mandatory lookup contains
chain-IsRanked u v e known = ground (
  arith,
  eq_iff "a" u,
  eq_iff "b" u,
  eq_iff "c" u,
  eq_iff "a" v,
  eq_iff "b" v,
  eq_self "a",
  eq_self "b",
  a_not_b,
  c_not_ab,
)

detect_cycle-eq-none_example : detect_cycle loop ≡ some (ok [])
detect_cycle-eq-none_example = detect_cycle-eq-none loop

topological_sort_complete_example :
    (order : List String) × (topological_sort loop ≡ some (ok order))
    × Unrepeated order
    × ((k : String) → contains k order ≡ has_key k loop)
topological_sort_complete_example = topological_sort_complete loop

topological_sort-DependenciesFollow_example : DependenciesFollow chain ("c" ∷ "b" ∷ "a" ∷ [])
topological_sort-DependenciesFollow_example =
    topological_sort-DependenciesFollow chain rank ("c" ∷ "b" ∷ "a" ∷ []) chain-IsRanked sort_chain
