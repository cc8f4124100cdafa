-- ===== src/Plugin/Registry/Dependents.antt =====
-- The dependencies of the registered plugins: which are missing, and which dependents are noted.
use bindxdb.Prelude.{
  String, true, false, some, List, [], ◌∷◌, ◌++◌, ◌≡◌, ◌≢◌, refl, sym, ◌∙◌, ◌↔◌, Dict, lookup,
  has_key, lookup-insert, contains, ok, All, All-map, arith, Bool-cases, Option-cases, Result-cases,
  List-cases, inl, inr, eq_iff, eq_self,
}
use mathlib.Core.Path.{subst}
use bindxdb.Plugin.Graph.{
  Dependency, GraphNode, DependencyGraph, new_dependency_graph, new_node, mandatory, add_plugin,
  add_dependency, detect_cycle, topological_sort,
}
use bindxdb.Plugin.Registry.{
  PluginInfo, PluginRegistry, missing_of, missing, validate_dependencies, link, link_dependencies,
  link_capabilities, add_each, link_each, set_dependents, dependency_graph, resolve_dependencies,
}

module _ {P D : Type 0} (plugins : Dict (PluginInfo P D)) where
  -- A dependency that is not optional is registered.
  abbrev pub Present : Dependency → Type 0
  Present dep = dep.optional ≡ false → has_key dep.plugin_id plugins ≡ true

  missing_of_nil :
      (id : String) (deps : List Dependency) (later : List (String × String))
      → (missing_of plugins id deps later ≡ []) ↔ (All Present deps × (later ≡ []))
  unfolding missing_of
  missing_of_nil id [] later = ground arith
  missing_of_nil id (dep ∷ deps) later = ground (
    arith,
    missing_of_nil id deps later,
    Bool-cases dep.optional,
    Bool-cases (has_key dep.plugin_id plugins),
  )

  missing_nil :
      (ps : Dict (PluginInfo P D))
      → (missing plugins ps ≡ [])
        ↔ All (λ (p : String × PluginInfo P D). All Present p.1.metadata.dependencies) ps
  unfolding missing
  missing_nil [] = ground arith
  missing_nil ((id, info) ∷ rest) =
      ground (
        arith,
        missing_nil rest,
        missing_of_nil id info.metadata.dependencies (missing plugins rest),
      )

-- ValidateDependencies returns no error exactly when each dependency that is not optional, of each
-- registered plugin, is registered.
pub validate_dependencies_iff :
    {P D : Type 0} (r : PluginRegistry P D)
    → (validate_dependencies r ≡ ok tt)
      ↔ All
          (λ (p : String × PluginInfo P D). All (Present r.plugins) p.1.metadata.dependencies)
          r.plugins
unfolding validate_dependencies
validate_dependencies_iff r =
    ground (arith, missing_nil r.plugins r.plugins, List-cases (missing r.plugins r.plugins))

-- The edge is in the graph: AddDependency then returns before it notes the dependent.
link_noted :
    (g : DependencyGraph) (from to : String) (n : GraphNode)
    → lookup from g ≡ some n
    → contains to n.depends_on ≡ true
    → link g from to ≡ g
unfolding link add_dependency
link_noted g from to n e c = ground (arith, e, c, Bool-cases (has_key to g))

-- Each dependency that is not optional stands in the list.
abbrev Noted : List String → Dependency → Type 0
Noted names dep = dep.optional ≡ false → contains dep.plugin_id names ≡ true

mandatory-Noted :
    (deps : List Dependency) (names : List String) → All (Noted (mandatory deps ++ names)) deps
unfolding mandatory contains
mandatory-Noted [] names = tt
mandatory-Noted (dep ∷ deps) names = elim (Bool-cases dep.optional) [
  | inl t ↦
      let same : mandatory (dep ∷ deps) ≡ mandatory deps = ground (arith, t) in
      (
        λ f. ground (arith, t, f),
        subst (λ (l : List String). All (Noted (l ++ names)) deps) (sym same)
            (mandatory-Noted deps names),
      )
  | inr f ↦
      let longer : mandatory (dep ∷ deps) ≡ dep.plugin_id ∷ mandatory deps = ground (arith, f) in
      subst (λ (l : List String). Noted (l ++ names) dep × All (Noted (l ++ names)) deps)
        (sym longer)
        (
          λ _. ground (arith, eq_self dep.plugin_id),
          All-map {Q = Noted (dep.plugin_id ∷ mandatory deps ++ names)}
              (λ (d : Dependency) (n : Noted (mandatory deps ++ names) d) (o : d.optional ≡ false).
                ground (arith, n o))
              deps (mandatory-Noted deps names),
        )
]

link_dependencies-Noted :
    (g : DependencyGraph) (id : String) (n : GraphNode) (deps : List Dependency)
    → lookup id g ≡ some n
    → All (Noted n.depends_on) deps
    → link_dependencies id deps g ≡ g
unfolding link_dependencies
link_dependencies-Noted g id n [] e h = refl
link_dependencies-Noted g id n (dep ∷ deps) e (p, h) = elim (Bool-cases dep.optional) [
  | inl t ↦ rw (link_dependencies, t) (link_dependencies-Noted g id n deps e h)
  | inr f ↦
      rw (link_dependencies, f, link_noted g id dep.plugin_id n e (p f))
        (link_dependencies-Noted g id n deps e h)
]

module _ {P D : Type 0} where
  -- The plugins stand under their ids, each once, and require no capability.
  abbrev pub IsKeyed : Dict (PluginInfo P D) → Type 0
  IsKeyed [] = Unit
  IsKeyed ((id, info) ∷ rest) =
      (info.metadata.id ≡ id)
      × (info.metadata.requires ≡ [])
      × All (λ (p : String × PluginInfo P D). p.0 ≢ id) rest
      × IsKeyed rest

  add_each_ne :
      (id : String) (ps : Dict (PluginInfo P D)) (g : DependencyGraph)
      → IsKeyed ps
      → All (λ (p : String × PluginInfo P D). p.0 ≢ id) ps
      → lookup id (add_each ps g) ≡ lookup id g
  unfolding add_each add_plugin
  add_each_ne id [] g k h = refl
  add_each_ne id ((j, info) ∷ rest) g (e, q, d, k) (ne, h) =
      add_each_ne id rest (add_plugin g info.metadata info.state) k h
      ∙ lookup-insert info.metadata.id id (new_node info.metadata info.state) g
      ∙ ground (arith, eq_iff info.metadata.id id, e, ne)

  -- The node of the plugin is as AddPlugin made it.
  abbrev HasNode : DependencyGraph → String × PluginInfo P D → Type 0
  HasNode g (id, info) = lookup id g ≡ some (new_node info.metadata info.state)

  add_each-HasNode :
      (ps : Dict (PluginInfo P D)) (g : DependencyGraph)
      → IsKeyed ps
      → All (HasNode (add_each ps g)) ps
  unfolding add_each add_plugin
  add_each-HasNode [] g k = tt
  add_each-HasNode ((id, info) ∷ rest) g (e, q, d, k) = (
    add_each_ne id rest (add_plugin g info.metadata info.state) k d
        ∙ lookup-insert info.metadata.id id (new_node info.metadata info.state) g
        ∙ ground (arith, eq_iff info.metadata.id id, e),
    add_each-HasNode rest (add_plugin g info.metadata info.state) k,
  )

  link_each-HasNode :
      (capabilities : Dict (List String)) (ps : Dict (PluginInfo P D)) (g : DependencyGraph)
      → IsKeyed ps
      → All (HasNode g) ps
      → link_each capabilities ps g ≡ g
  unfolding link_each link_capabilities
  link_each-HasNode capabilities [] g k h = refl
  link_each-HasNode capabilities ((id, info) ∷ rest) g (e, q, d, k) (n, h) =
      rw
        (
          link_each,
          link_dependencies-Noted g id (new_node info.metadata info.state)
              info.metadata.dependencies n
              (mandatory-Noted info.metadata.dependencies info.metadata.requires),
          q,
        )
        (link_each-HasNode capabilities rest g k h)

  set_dependents_none :
      (g : DependencyGraph) (ps : Dict (PluginInfo P D))
      → All (HasNode g) ps
      → All (λ (p : String × PluginInfo P D). p.1.dependents ≡ []) (set_dependents g ps)
  unfolding set_dependents
  set_dependents_none g [] h = tt
  set_dependents_none g ((id, info) ∷ rest) (n, h) = (rw n refl, set_dependents_none g rest h)

  dependency_graph_eq :
      (r : PluginRegistry P D)
      → IsKeyed r.plugins
      → dependency_graph r ≡ add_each r.plugins new_dependency_graph
  unfolding dependency_graph
  dependency_graph_eq r k =
      link_each-HasNode r.capabilities r.plugins (add_each r.plugins new_dependency_graph) k
        (add_each-HasNode r.plugins new_dependency_graph k)

  resolve_dependencies-plugins :
      (r s : PluginRegistry P D)
      → resolve_dependencies r ≡ some (ok s)
      → s.plugins ≡ set_dependents (dependency_graph r) r.plugins
  unfolding resolve_dependencies
  resolve_dependencies-plugins r s h = elim (Option-cases (detect_cycle (dependency_graph r))) [
    | inl e ↦ ground (arith, h, e)
    | inr (found, e) ↦ elim (Result-cases found) [
      | inr (c, q) ↦ ground (arith, h, e, q)
      | inl (cycle, q) ↦ elim (List-cases cycle) [
        | inr (c, cs, z) ↦ ground (arith, h, e, q, z)
        | inl z ↦ elim (Option-cases (topological_sort (dependency_graph r))) [
          | inl t ↦ ground (arith, h, e, q, z, t)
          | inr (order, t) ↦ ground (arith, h, e, q, z, t, Result-cases order)
        ]
      ]
    ]
  ]

  -- Where the registered plugins stand under their ids, each once, and require no capability, no plugin has a
  -- dependent after ResolveDependencies has succeeded, whatever the plugins depend on.
  pub resolve_dependencies-dependents :
      (r s : PluginRegistry P D)
      → IsKeyed r.plugins
      → resolve_dependencies r ≡ some (ok s)
      → All (λ (p : String × PluginInfo P D). p.1.dependents ≡ []) s.plugins
  unfolding resolve_dependencies
  resolve_dependencies-dependents r s k h =
      let none_set : All (λ (p : String × PluginInfo P D). p.1.dependents ≡ [])
          (set_dependents (dependency_graph r) r.plugins) =
        rw (dependency_graph_eq r k) (
          set_dependents_none (add_each r.plugins new_dependency_graph) r.plugins
            (add_each-HasNode r.plugins new_dependency_graph k)) in
      rw (resolve_dependencies-plugins r s h) none_set
