-- ===== src/Plugin/Graph.antt =====
-- The dependency graph of pkg/plugin/dependency.go. The nodes, which the source reaches by pointers,
-- stand in a dictionary under their plugin's id. The `Visited` and `TempVisit` flags of all nodes are
-- the lists of the ids where they are set. The depth of the searches is bounded by fuel.
pub mod Cycles
pub mod Search
pub mod Fuel
pub mod Order
mod Tests
use Prim.Native.Nat.{Ordering}
use Prim.Native.String.{compare}
use mathlib.Core.List.{reverse}
use bindxdb.Prelude.{
  ℕ, zero, suc, String, Bool, true, false, not, ◌&&◌, Option, none, some, List, [], ◌∷◌, ◌++◌, Dict,
  lookup, insert, has_key, contains, length, ◌==◌, if◌then◌else◌, Result, ok, err,
}

pub record Dependency : Type 0 where
  pub plugin_id : String
  pub version : String
  pub optional : Bool

-- The fields that a program reads; texts for display and the configuration schema are left out.
pub record PluginMetadata : Type 0 where
  pub id : String
  pub name : String
  pub version : String
  pub dependencies : List Dependency
  pub provides : List String
  pub requires : List String

pub data PluginState : Type 0 where
  unknown loaded initialized started stopped failed : PluginState

pub record GraphNode : Type 0 where
  pub plugin_id : String
  pub metadata : PluginMetadata
  pub dependents : List String
  pub depends_on : List String
  pub state : PluginState

abbrev pub DependencyGraph : Type 0
DependencyGraph = Dict GraphNode

abbrev pub new_dependency_graph : DependencyGraph
new_dependency_graph = []

-- The ids of the dependencies that are not optional.
unfoldable pub mandatory : List Dependency → List String
mandatory [] = []
mandatory (dep ∷ deps) = if dep.optional then mandatory deps else dep.plugin_id ∷ mandatory deps

abbrev pub new_node : PluginMetadata → PluginState → GraphNode
new_node metadata state = record {
  plugin_id = metadata.id;
  metadata = metadata;
  dependents = [];
  depends_on = mandatory metadata.dependencies ++ metadata.requires;
  state = state;
}

-- AddPlugin, with the state that ResolveDependencies then sets in the node that it returns.
unfoldable pub add_plugin : DependencyGraph → PluginMetadata → PluginState → DependencyGraph
add_plugin g metadata state = insert metadata.id (new_node metadata state) g

pub data GraphError : Type 0 where
  source_not_found target_not_found : String → GraphError

-- The second half of AddDependency: `from` is noted in the dependents of `to`.
pub add_dependent : DependencyGraph → String → String → DependencyGraph
add_dependent g from to = elim (lookup to g) [
  | none ↦ g
  | some node ↦
      if contains from node.dependents
      then g
      else insert to (record node { dependents = node.dependents ++ from ∷ [] }) g
]

-- `to` is looked up again after the write to `from`, so that one node may be both.
unfoldable pub add_dependency :
    DependencyGraph → String → String → Result GraphError DependencyGraph
unfolding add_dependent
add_dependency g from to = elim (lookup from g) [
  | none ↦ err (source_not_found from)
  | some from_node ↦
      if not (has_key to g)
      then err (target_not_found to)
      else if contains to from_node.depends_on
      then ok g
      else ok (
          add_dependent
            (insert from (record from_node { depends_on = from_node.depends_on ++ to ∷ [] }) g) from
            to)
]

pub record Marks : Type 0 where
  pub visited : List String
  pub temp_visit : List String

-- g.nodes[id].DependsOn
unfoldable pub edges : DependencyGraph → String → List String
edges g id = elim (lookup id g) [ none ↦ [] | some node ↦ node.depends_on ]

-- path[cycleStart:] from the first place of `id`, and the whole path where it has none.
pub from_first : String → List String → Option (List String)
from_first id [] = none
from_first id (n ∷ path) =
    let rest = from_first id path in if n == id then some (n ∷ path) else rest

pub cycle_from : String → List String → List String
unfolding from_first
cycle_from id path = elim (from_first id path) [ none ↦ path | some rest ↦ rest ++ id ∷ [] ]

pub unset : String → List String → List String
unset id [] = []
unset id (k ∷ ks) = let rest = unset id ks in if k == id then rest else k ∷ rest

abbrev pub Found : Type 0
Found = List String × Marks

-- The loop over DependsOn, for the recursive call `go`; it ends at the first cycle.
pub detect_deps :
    (String → List String → Marks → Option Found)
    → DependencyGraph
    → List String
    → List String
    → Marks
    → Option Found
detect_deps search g [] path m = some ([], m)
detect_deps search g (dep ∷ deps) path m =
    if has_key dep g
    then elim (search dep path m) [
      | none ↦ none
      | some ([], m') ↦ detect_deps search g deps path m'
      | some (c ∷ cs, m') ↦ some (c ∷ cs, m')
    ]
    else detect_deps search g deps path m

-- node.TempVisit = false; node.Visited = true, where no dependency has closed a cycle.
pub settle : String → Option Found → Option Found
unfolding unset
settle id none = none
settle id (some ([], m)) =
    some ([], record { visited = id ∷ m.visited; temp_visit = unset id m.temp_visit })
settle id (some (c ∷ cs, m)) = some (c ∷ cs, m)

-- `none` means that the fuel ran out.
pub detect_cycles_dfs : ℕ → DependencyGraph → String → List String → Marks → Option Found
unfolding cycle_from detect_deps settle
detect_cycles_dfs zero g id path m = none
detect_cycles_dfs (suc fuel) g id path m =
    let rest = settle id (
      detect_deps (λ dep path' m'. detect_cycles_dfs fuel g dep path' m') g (edges g id)
        (path ++ id ∷ []) (record m { temp_visit = id ∷ m.temp_visit })) in
    if contains id m.temp_visit
    then some (cycle_from id path, m)
    else if contains id m.visited
    then some ([], m)
    else rest

abbrev pub ids : DependencyGraph → List String
ids [] = []
ids ((id, node) ∷ g) = id ∷ ids g

-- The loop of DetectCycle. The `cycle` that the body declares hides the outer one, so the outer
-- `cycle` is passed on as it was.
pub detect_each : ℕ → DependencyGraph → List String → List String → Marks → Option Found
unfolding detect_cycles_dfs
detect_each fuel g [] cycle m = some (cycle, m)
detect_each fuel g (id ∷ rest) cycle m =
    if contains id m.visited
    then detect_each fuel g rest cycle m
    else elim (detect_cycles_dfs fuel g id [] m) [
      | none ↦ none
      | some (inner, m') ↦ detect_each fuel g rest cycle m'
    ]

pub is_nil : List String → Bool
is_nil [] = true
is_nil (_ ∷ _) = false

-- Enough fuel for a search: each call sets a flag that no later call below it finds unset.
abbrev pub search_fuel : DependencyGraph → ℕ
search_fuel g = suc (length (ids g))

-- DetectCycle: the cycle, or the error that carries it.
unfoldable pub detect_cycle : DependencyGraph → Option (Result (List String) (List String))
unfolding detect_each is_nil
detect_cycle g =
    elim (detect_each (search_fuel g) g (ids g) [] (record { visited = []; temp_visit = [] })) [
      | none ↦ none
      | some (cycle, m) ↦ some (if is_nil cycle then ok [] else err cycle)
    ]

pub record Sorting : Type 0 where
  pub visited : List String
  pub result : List String

pub sort_deps :
    (String → Sorting → Option Sorting) → DependencyGraph → List String → Sorting → Option Sorting
sort_deps search g [] s = some s
sort_deps search g (dep ∷ deps) s =
    if has_key dep g && not (contains dep s.visited)
    then elim (search dep s) [ none ↦ none | some s' ↦ sort_deps search g deps s' ]
    else sort_deps search g deps s

-- node.Visited = true
pub mark : String → Sorting → Sorting
mark id s = record s { visited = id ∷ s.visited }

-- *result = append(*result, node.PluginID)
pub finish : String → Sorting → Sorting
finish id s = record s { result = s.result ++ id ∷ [] }

pub append_result : String → Option Sorting → Option Sorting
unfolding finish
append_result id none = none
append_result id (some s) = some (finish id s)

pub topological_sort_dfs : ℕ → DependencyGraph → String → Sorting → Option Sorting
unfolding sort_deps append_result mark
topological_sort_dfs zero g id s = none
topological_sort_dfs (suc fuel) g id s =
    append_result id
      (sort_deps (λ dep s'. topological_sort_dfs fuel g dep s') g (edges g id) (mark id s))

pub sort_each : ℕ → DependencyGraph → List String → Sorting → Option Sorting
unfolding topological_sort_dfs
sort_each fuel g [] s = some s
sort_each fuel g (id ∷ rest) s =
    if contains id s.visited
    then sort_each fuel g rest s
    else elim (topological_sort_dfs fuel g id s) [
      | none ↦ none
      | some s' ↦ sort_each fuel g rest s'
    ]

precedes : String → String → Bool
precedes a b = elim (compare a b) [ Ordering.lt ↦ true | _ ↦ false ]

pub insert_id : String → List String → List String
unfolding precedes
insert_id id [] = id ∷ []
insert_id id (k ∷ ks) = if precedes k id then k ∷ insert_id id ks else id ∷ k ∷ ks

-- sort.Slice by PluginID: the ids differ, so that only one order is sorted.
pub sort_ids : List String → List String
unfolding insert_id
sort_ids [] = []
sort_ids (id ∷ rest) = insert_id id (sort_ids rest)

-- TopologicalSort after DetectCycle has found no cycle; the last loop reverses the result.
unfoldable pub topological_sort : DependencyGraph → Option (Result (List String) (List String))
unfolding sort_ids sort_each
topological_sort g = elim (detect_cycle g) [
  | none ↦ none
  | some (err cycle) ↦ some (err cycle)
  | some (ok (c ∷ cs)) ↦ some (err (c ∷ cs))
  | some (ok []) ↦
      elim (sort_each (search_fuel g) g (sort_ids (ids g)) (record { visited = []; result = [] })) [
        | none ↦ none
        | some s ↦ some (ok (reverse s.result))
      ]
]
