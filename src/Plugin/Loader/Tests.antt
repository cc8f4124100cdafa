-- ===== src/Plugin/Loader/Tests.antt =====
-- A directory with one manifest, of a plugin without dependencies. A plugin is its name.
use bindxdb.Prelude.{
  String, true, false, none, some, List, [], ◌∷◌, ◌≡◌, refl, lookup, has_key, ok, err, go,
  strip_suffix, if◌then◌else◌, ◌==◌,
}
use bindxdb.Plugin.Graph.{PluginMetadata, loaded}
use bindxdb.Plugin.Registry.{PluginInfo, new_plugin_registry, register_plugin}
use bindxdb.Plugin.Loader.{
  PluginManifest, PluginOps, value, Surroundings, Loader, new_loader, read_manifest, load_plugin,
  load_plugins_from_dir, unload_found,
}
use bindxdb.Plugin.Loader.Loading.{
  Consistent, new_loader-Consistent, Consistent-kept, load_plugin_ok,
}

abbrev store_metadata : PluginMetadata
store_metadata = record {
  id = "store";
  name = "store";
  version = "1";
  dependencies = [];
  provides = [];
  requires = [];
}

abbrev on_disk : PluginManifest
on_disk = record { metadata = store_metadata; entry_point = ""; path = "store.so"; type = "" }

abbrev surroundings : Surroundings String
surroundings = record {
  read_file = λ path. if path == "p/store.manifest.json" then ok "{}" else err "no such file";
  unmarshal = λ text. ok on_disk;
  is_not_exist = λ path. false;
  read_dir = λ d. ok ((record { name = "store.manifest.json"; is_dir = false }) ∷ []);
  open_plugin = λ path. ok (λ name. ok (value "store"));
  join = λ d name. "p/store.manifest.json";
  dir = λ path. "p";
  base = λ path. "store.manifest.json";
}

abbrev ops : PluginOps String (List String) (Unit {0})
ops = record {
  metadata = λ p. store_metadata;
  init = λ p c. (p, none);
  start = λ p. (p, none);
  stop = λ p. (p, none);
  get_hooks = λ p. [];
  ready = λ p. true;
}

abbrev empty : Loader String (List String)
empty = new_loader new_plugin_registry

abbrev store : PluginInfo String (List String)
store = record {
  metadata = store_metadata;
  instance_of = "store";
  state = loaded;
  hooks = [];
  dependents = [];
}

abbrev with_store : Loader String (List String)
with_store = record {
  registry = record {
    plugins = ("store", store) ∷ [];
    plugin_order = [];
    hooks = [];
    capabilities = [];
  };
  loaded = ("store", "p/store.manifest.json") ∷ [];
}

tested : Unit {0}
unfolding go read_manifest load_plugin load_plugins_from_dir unload_found new_plugin_registry
    register_plugin strip_suffix
tested = tt

manifest_read :
    read_manifest surroundings "p/store.manifest.json" ≡ ok (record on_disk { type = "go" })
unfolding tested
manifest_read = refl

store_loaded : load_plugin surroundings ops "p/store.manifest.json" empty ≡ (with_store, ok tt)
unfolding tested
store_loaded = refl

dir_loaded : load_plugins_from_dir surroundings ops "p" empty ≡ (with_store, ok tt)
unfolding tested
dir_loaded = refl

Consistent-kept_example :
    Consistent (load_plugin surroundings ops "p/store.manifest.json" empty).0
    × Consistent (load_plugins_from_dir surroundings ops "p" empty).0
    × Consistent (unload_found surroundings ops "store" store empty).0
Consistent-kept_example =
    Consistent-kept surroundings ops "p/store.manifest.json" "p" "store" store empty
      (new_loader-Consistent new_plugin_registry)

load_plugin_ok_example :
    (m : PluginManifest) × (info : PluginInfo String (List String)) × (read_manifest surroundings
        "p/store.manifest.json"
      ≡ ok m)
    × (m.type ≡ "go")
    × (has_key m.metadata.id empty.loaded ≡ false)
    × (has_key m.metadata.id empty.registry.plugins ≡ false)
    × (lookup m.metadata.id with_store.loaded ≡ some "p/store.manifest.json")
    × (lookup m.metadata.id with_store.registry.plugins ≡ some info)
    × (info.state ≡ loaded)
load_plugin_ok_example =
    load_plugin_ok surroundings ops "p/store.manifest.json" empty with_store store_loaded
