-- ===== src/Plugin/Registry/Tests.antt =====
-- Two plugins, the second of which needs the first. A plugin is its name, and hooks share a list.
use bindxdb.Prelude.{
  String, false, ◌≡◌, ◌≢◌, refl, some, List, [], ◌∷◌, ok, All, go, arith, eq_iff, ◌==◌,
}
use bindxdb.Plugin.Graph.{
  Dependency, loaded, mandatory, add_plugin, add_dependency, detect_cycle, topological_sort, edges,
}
use bindxdb.Plugin.Registry.{
  PluginInfo, PluginRegistry, validate_dependencies, resolve_dependencies, missing, missing_of,
}
use bindxdb.Plugin.Registry.Dependents.{IsKeyed, resolve_dependencies-dependents}

abbrev plugin : String → List Dependency → PluginInfo String (List String)
plugin id deps = record {
  metadata = record {
    id = id;
    name = id;
    version = "1";
    dependencies = deps;
    provides = [];
    requires = [];
  };
  instance_of = id;
  state = loaded;
  hooks = [];
  dependents = [];
}

abbrev registry : PluginRegistry String (List String)
registry = record {
  plugins =
      ("store", plugin "store" [])
      ∷ (
        "index",
        plugin "index" (record { plugin_id = "store"; version = "1"; optional = false } ∷ []),
      )
      ∷ [];
  plugin_order = [];
  hooks = [];
  capabilities = [];
}

run : Unit {0}
unfolding go validate_dependencies missing missing_of resolve_dependencies detect_cycle
    topological_sort add_plugin add_dependency mandatory edges
run = tt

dependencies_present : validate_dependencies registry ≡ ok tt
unfolding run
dependencies_present = refl

names_differ : ("index" == "store") ≡ false
unfolding go
names_differ = refl

index-ne-store : ◌≢◌ {A = String} "index" "store"
index-ne-store = λ e. ground (arith, (eq_iff "index" "store").1 e, names_differ)

registry-IsKeyed : IsKeyed registry.plugins
registry-IsKeyed = (refl, refl, (index-ne-store, tt), (refl, refl, tt, tt))

abbrev resolved : PluginRegistry String (List String)
resolved = record registry { plugin_order = "index" ∷ "store" ∷ [] }

store_first_last : resolve_dependencies registry ≡ some (ok resolved)
unfolding run
store_first_last = refl

resolve_dependencies-dependents_example :
    All (λ (p : String × PluginInfo String (List String)). p.1.dependents ≡ []) resolved.plugins
resolve_dependencies-dependents_example =
    resolve_dependencies-dependents registry resolved registry-IsKeyed store_first_last
