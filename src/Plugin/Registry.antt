-- ===== src/Plugin/Registry.antt =====
-- The registry of pkg/plugin/registry.go, with ValidateDependencies and ResolveDependencies of
-- pkg/plugin/dependency.go. `P` is the type of the plugins and `D` that of the data that hooks share.
-- GetPluginInfo is in Plugin.Lock; the configuration of a plugin, which nothing reads back, and times are left out.
pub mod Dependents
pub mod Hooks
mod Tests
use bindxdb.Prelude.{
  String, Bool, true, false, Option, none, some, List, [], ◌∷◌, ◌++◌, Dict, lookup, insert, has_key,
  if◌then◌else◌, Result, ok, err, ℤ,
}
use bindxdb.Plugin.Graph.{
  Dependency, PluginMetadata, PluginState, loaded, DependencyGraph, new_dependency_graph,
  add_plugin, add_dependency, detect_cycle, topological_sort,
}

-- A handler gives its error, if any, and the data as it leaves them; it knows the plugin's id.
abbrev pub HookHandler : Type 0 → Type 0
HookHandler D = String → D → Option String × D

pub record HookRegistration (D : Type 0) : Type 0 where
  pub plugin_id : String
  pub handler : HookHandler D
  pub priority : ℤ

pub record PluginInfo (P D : Type 0) : Type 0 where
  pub metadata : PluginMetadata
  pub instance_of : P
  pub state : PluginState
  pub hooks : Dict (List (HookHandler D))
  pub dependents : List String

pub record PluginRegistry (P D : Type 0) : Type 0 where
  pub plugins : Dict (PluginInfo P D)
  pub plugin_order : List String
  pub hooks : Dict (List (HookRegistration D))
  pub capabilities : Dict (List String)

pub data RegistryError : Type 0 where
  plugin_not_found plugin_already_loaded : String → RegistryError
  hook_failed : (hook_type plugin_id message : String) → RegistryError
  missing_dependencies : List (String × String) → RegistryError
  circular : List String → RegistryError

module _ {D : Type 0} where
  registered : String → Dict (List (HookRegistration D)) → List (HookRegistration D)
  registered hook_type hooks = elim (lookup hook_type hooks) [ none ↦ [] | some hs ↦ hs ]

  -- The loop of ExecuteHooks: the first error ends it.
  pub run_hooks : String → List (HookRegistration D) → D → Result RegistryError (Unit {0}) × D
  run_hooks hook_type [] d = (ok tt, d)
  run_hooks hook_type (h ∷ hs) d =
      let (failure, d') = h.handler h.plugin_id d in
      elim failure [
        | none ↦ run_hooks hook_type hs d'
        | some message ↦ (err (hook_failed hook_type h.plugin_id message), d')
      ]

module _ {P D : Type 0} where
  unfoldable pub new_plugin_registry : PluginRegistry P D
  new_plugin_registry = record { plugins = []; plugin_order = []; hooks = []; capabilities = [] }

  -- `metadata` is what the plugin's Metadata gives.
  unfoldable pub register_plugin :
      P → PluginMetadata → PluginRegistry P D → Result RegistryError (PluginRegistry P D)
  register_plugin plugin metadata r =
      if has_key metadata.id r.plugins
      then err (plugin_already_loaded metadata.id)
      else ok (record r {
        plugins =
            insert metadata.id
              (record {
                metadata = metadata;
                instance_of = plugin;
                state = loaded;
                hooks = [];
                dependents = [];
              })
              r.plugins;
      })

  pub get_plugin : PluginRegistry P D → String → Result RegistryError P
  get_plugin r id = elim (lookup id r.plugins) [
    | none ↦ err (plugin_not_found id)
    | some info ↦ ok info.instance_of
  ]

  -- A handler is noted with the plugin only where the plugin has none of the type.
  pub note_hook : String → HookHandler D → PluginInfo P D → PluginInfo P D
  note_hook hook_type handler info =
      if has_key hook_type info.hooks
      then info
      else record info { hooks = insert hook_type (handler ∷ []) info.hooks }

  -- `sort` is sort.Slice by ascending priority.
  unfoldable pub add_hook :
      (List (HookRegistration D) → List (HookRegistration D))
      → String
      → String
      → HookHandler D
      → ℤ
      → PluginRegistry P D
      → Result RegistryError (PluginRegistry P D)
  unfolding note_hook registered
  add_hook sort id hook_type handler priority r = elim (lookup id r.plugins) [
    | none ↦ err (plugin_not_found id)
    | some info ↦ ok (record r {
      plugins = insert id (note_hook hook_type handler info) r.plugins;
      hooks =
          insert hook_type
            (sort (
              registered hook_type r.hooks
              ++ (record { plugin_id = id; handler = handler; priority = priority }) ∷ []))
            r.hooks;
    })
  ]

  pub execute_hooks : String → D → PluginRegistry P D → Result RegistryError (Unit {0}) × D
  unfolding run_hooks registered
  execute_hooks hook_type d r = run_hooks hook_type (registered hook_type r.hooks) d

module _ {P D : Type 0} where
  -- The inner loop of ValidateDependencies, and what the later plugins add.
  unfoldable pub missing_of :
      Dict (PluginInfo P D)
      → String
      → List Dependency
      → List (String × String)
      → List (String × String)
  missing_of plugins id [] later = later
  missing_of plugins id (dep ∷ deps) later =
      let rest = missing_of plugins id deps later in
      if dep.optional
      then rest
      else if has_key dep.plugin_id plugins
      then rest
      else (id, dep.plugin_id) ∷ rest

  -- The loop over the plugins.
  unfoldable pub missing : Dict (PluginInfo P D) → Dict (PluginInfo P D) → List (String × String)
  unfolding missing_of
  missing plugins [] = []
  missing plugins ((id, info) ∷ rest) =
      missing_of plugins id info.metadata.dependencies (missing plugins rest)

  unfoldable pub validate_dependencies : PluginRegistry P D → Result RegistryError (Unit {0})
  unfolding missing
  validate_dependencies r = elim (missing r.plugins r.plugins) [
    | [] ↦ ok tt
    | m ∷ ms ↦ err (missing_dependencies (m ∷ ms))
  ]

-- A refused edge is only logged.
pub link : DependencyGraph → String → String → DependencyGraph
link g from to = elim (add_dependency g from to) [ ok g' ↦ g' | err e ↦ g ]

pub link_dependencies : String → List Dependency → DependencyGraph → DependencyGraph
unfolding link
link_dependencies id [] g = g
link_dependencies id (dep ∷ deps) g =
    if dep.optional
    then link_dependencies id deps g
    else link_dependencies id deps (link g id dep.plugin_id)

-- The edges to the first provider of each capability.
pub link_capabilities :
    Dict (List String) → String → List String → DependencyGraph → DependencyGraph
unfolding link
link_capabilities capabilities id [] g = g
link_capabilities capabilities id (capability ∷ rest) g = elim (lookup capability capabilities) [
  | none ↦ link_capabilities capabilities id rest g
  | some [] ↦ link_capabilities capabilities id rest g
  | some (provider ∷ others) ↦ link_capabilities capabilities id rest (link g id provider)
]

module _ {P D : Type 0} where
  -- The first loop of ResolveDependencies, over the plugins.
  pub add_each : Dict (PluginInfo P D) → DependencyGraph → DependencyGraph
  add_each [] g = g
  add_each ((id, info) ∷ rest) g = add_each rest (add_plugin g info.metadata info.state)

  -- The second loop.
  pub link_each : Dict (List String) → Dict (PluginInfo P D) → DependencyGraph → DependencyGraph
  unfolding link_dependencies link_capabilities
  link_each capabilities [] g = g
  link_each capabilities ((id, info) ∷ rest) g = link_each capabilities rest (
      link_capabilities capabilities id info.metadata.requires
        (link_dependencies id info.metadata.dependencies g))

  -- The last loop: each plugin takes the dependents of its node.
  pub set_dependents : DependencyGraph → Dict (PluginInfo P D) → Dict (PluginInfo P D)
  set_dependents g [] = []
  set_dependents g ((id, info) ∷ rest) =
      (
        id,
        elim (lookup id g) [
          | none ↦ info
          | some node ↦ record info { dependents = node.dependents }
        ],
      )
      ∷ set_dependents g rest

  pub dependency_graph : PluginRegistry P D → DependencyGraph
  unfolding add_each link_each
  dependency_graph r = link_each r.capabilities r.plugins (add_each r.plugins new_dependency_graph)

  -- ResolveDependencies; `none` would be a search out of fuel.
  unfoldable pub resolve_dependencies :
      PluginRegistry P D → Option (Result RegistryError (PluginRegistry P D))
  unfolding dependency_graph set_dependents
  resolve_dependencies r = elim (detect_cycle (dependency_graph r)) [
    | none ↦ none
    | some (err cycle) ↦ some (err (circular cycle))
    | some (ok (c ∷ cs)) ↦ some (err (circular (c ∷ cs)))
    | some (ok []) ↦ elim (topological_sort (dependency_graph r)) [
      | none ↦ none
      | some (err cycle) ↦ some (err (circular cycle))
      | some (ok order) ↦ some (
          ok (record r {
            plugins = set_dependents (dependency_graph r) r.plugins;
            plugin_order = order;
          }))
    ]
  ]
