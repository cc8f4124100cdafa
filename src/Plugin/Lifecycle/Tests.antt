-- ===== src/Plugin/Lifecycle/Tests.antt =====
-- A plugin that is loaded and one that has failed; the second provides a capability. A plugin is its name.
use bindxdb.Prelude.{
  pos, err, Dict, has_key, ◌≢◌, String, true, false, none, some, List, [], ◌∷◌, ◌≡◌, refl, lookup,
  ok, All, go,
}
use bindxdb.Plugin.Graph.{
  PluginMetadata, PluginState, loaded, started, failed, mandatory, add_plugin, add_dependency,
  detect_cycle, topological_sort, edges,
}
use bindxdb.Plugin.Registry.{
  PluginInfo, PluginRegistry, HookHandler, add_hook, execute_hooks, validate_dependencies,
  resolve_dependencies, missing, missing_of,
}
use bindxdb.Plugin.Loader.{Surroundings, Loader, unload_found}
use bindxdb.Plugin.Lifecycle.Unloaded.{execute_hooks-unload_found, start_found-unload_found}
use bindxdb.Plugin.Lifecycle.{
  LifecycleManager, StartupConfig, start_found, begin, begin_loaded, announce, put, provide,
  provide_one, provided_by, add_hooks, add_handlers,
}
use bindxdb.Plugin.Lifecycle.States.{Moves}
use bindxdb.Plugin.Lifecycle.Runs.{start_it, stop_it, step, run, step-Moves, run-failed}
use bindxdb.Plugin.Lifecycle.Outcomes.{Offers, start_found-Offers}

abbrev store_metadata : PluginMetadata
store_metadata = record {
  id = "store";
  name = "store";
  version = "1";
  dependencies = [];
  provides = "storage" ∷ [];
  requires = [];
}

abbrev store_in : PluginState → PluginInfo String (List String)
store_in s = record {
  metadata = store_metadata;
  instance_of = "store";
  state = s;
  hooks = [];
  dependents = [];
}

abbrev registry_of : PluginState → PluginRegistry String (List String)
registry_of s = record {
  plugins = ("store", store_in s) ∷ [];
  plugin_order = [];
  hooks = [];
  capabilities = ("storage", "disk" ∷ []) ∷ [];
}

abbrev manager : LifecycleManager String (List String) (Unit {0})
manager = record {
  ops = record {
    metadata = λ p. store_metadata;
    init = λ p c. (p, none);
    start = λ p. (p, none);
    stop = λ p. (p, none);
    get_hooks = λ p. [];
    ready = λ p. true;
  };
  config_provider = none;
  no_config = tt;
  sort = λ hs. hs;
  shutdown_data = [];
}

tested : Unit {0}
unfolding go validate_dependencies missing missing_of resolve_dependencies detect_cycle
    topological_sort add_plugin add_dependency mandatory edges start_found begin begin_loaded
    announce put provide provide_one provided_by add_hooks add_handlers unload_found add_hook
tested = tt

abbrev after_start : PluginRegistry String (List String)
after_start = record (registry_of started) {
  capabilities = ("storage", "disk" ∷ "store" ∷ []) ∷ [];
}

starts : start_found manager "store" (store_in loaded) (registry_of loaded) ≡ (after_start, ok tt)
unfolding tested
starts = refl

found : (s : PluginState) → lookup "store" (registry_of s).plugins ≡ some (store_in s)
unfolding tested
found s = refl

step-Moves_example :
    (info' : PluginInfo String (List String)) × (lookup "store"
        (step manager (start_it "store") (registry_of loaded)).plugins
      ≡ some info')
    × Moves loaded info'.state
    × (info'.metadata ≡ store_metadata)
step-Moves_example =
    step-Moves manager (start_it "store") (registry_of loaded) "store" (store_in loaded)
      (found loaded)

run-failed_example :
    (info' : PluginInfo String (List String)) × (lookup "store"
        (run manager (start_it "store" ∷ stop_it "store" ∷ []) (registry_of failed)).plugins
      ≡ some info')
    × (info'.state ≡ failed)
    × (info'.metadata ≡ store_metadata)
run-failed_example =
    run-failed manager (start_it "store" ∷ stop_it "store" ∷ []) (registry_of failed) "store"
      (store_in failed) (found failed) refl

abbrev config : StartupConfig
config = record { auto_discover = false; plugin_dir = ""; health_check = true }

abbrev ordered : PluginRegistry String (List String)
ordered = record (registry_of loaded) { plugin_order = "store" ∷ [] }

dependencies_present : validate_dependencies (registry_of loaded) ≡ ok tt
unfolding tested
dependencies_present = refl

resolved : resolve_dependencies (registry_of loaded) ≡ some (ok ordered)
unfolding tested
resolved = refl

idle : ◌≢◌ {A = PluginState} loaded started
idle = λ e. cc

start_found-Offers_example : All (λ c. Offers after_start "store" c) ("storage" ∷ [])
start_found-Offers_example =
    start_found-Offers manager "store" (store_in loaded) (registry_of loaded) after_start idle
      starts

abbrev surroundings : Surroundings String
surroundings = record {
  read_file = λ path. err "no such file";
  unmarshal = λ text. err "no JSON";
  is_not_exist = λ path. true;
  read_dir = λ d. ok [];
  open_plugin = λ path. err "no such file";
  join = λ d name. name;
  dir = λ path. path;
  base = λ path. path;
}

abbrev noted : Dict String
noted = ("store", "p/store.manifest.json") ∷ []

-- The handler notes the plugin that it is called for.
abbrev handler : HookHandler (List String)
handler = λ id called. (none, id ∷ called)

abbrev hooked : PluginRegistry String (List String)
hooked = record (registry_of started) {
  plugins = ("store", record (store_in started) { hooks = ("query", handler ∷ []) ∷ [] }) ∷ [];
  hooks =
      ("query", (record { plugin_id = "store"; handler = handler; priority = pos 10 }) ∷ []) ∷ [];
}

hook_added : add_hook (λ hs. hs) "store" "query" handler (pos 10) (registry_of started) ≡ ok hooked
unfolding tested
hook_added = refl

abbrev without : PluginRegistry String (List String) → Loader String (List String)
without r = record { registry = record r { plugins = [] }; loaded = [] }

unloaded_hooked :
    unload_found surroundings manager.ops "store"
      (store_in started)
      (record { registry = hooked; loaded = noted })
    ≡ (without hooked, some "store", ok tt)
unfolding tested
unloaded_hooked = refl

no_hooks : lookup "query" (registry_of started).hooks ≡ none
unfolding tested
no_hooks = refl

execute_hooks-unload_found_example :
    (has_key "store" (without hooked).registry.plugins ≡ false)
    × ((execute_hooks "query" [] (without hooked).registry).1 ≡ "store" ∷ [])
execute_hooks-unload_found_example =
    execute_hooks-unload_found surroundings manager.ops (λ hs. hs) "store" "query" handler (pos 10)
      (registry_of started) hooked noted (store_in started) (without hooked) (some "store") []
      (λ one. refl) no_hooks hook_added unloaded_hooked

unloaded_started :
    unload_found surroundings manager.ops "store"
      (store_in started)
      (record { registry = after_start; loaded = noted })
    ≡ (without after_start, some "store", ok tt)
unfolding tested
unloaded_started = refl

start_found-unload_found_example :
    (has_key "store" (without after_start).registry.plugins ≡ false)
    × All (λ c. Offers (without after_start).registry "store" c) ("storage" ∷ [])
start_found-unload_found_example =
    start_found-unload_found manager surroundings "store" (store_in loaded) (store_in started)
      (registry_of loaded) after_start noted (without after_start) (some "store") idle starts
      unloaded_started
