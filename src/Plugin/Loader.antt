-- ===== src/Plugin/Loader.antt =====
-- The loader of pkg/plugin/loader.go. The JSON decoder, the file system, filepath and Go's plugin package are parameters.
pub mod Manifests
pub mod Loading
mod Tests
use Prim.Native.String.{◌++◌ as append_text}
use bindxdb.Prelude.{
  ℕ, suc, String, Bool, true, false, not, ◌&&◌, Option, none, some, List, [], ◌∷◌, ◌++◌, Dict,
  lookup, insert, delete, has_key, ◌==◌, if◌then◌else◌, Result, ok, err, strip_suffix,
}
use bindxdb.Plugin.Graph.{PluginMetadata, PluginState, started}
use bindxdb.Plugin.Lock.{Lock, Run, blocked, fatal, done, get_plugin_info}
use bindxdb.Plugin.Registry.{
  PluginInfo, PluginRegistry, HookHandler, RegistryError, plugin_not_found, register_plugin,
}

pub record PluginManifest : Type 0 where
  pub metadata : PluginMetadata
  pub entry_point : String
  pub path : String
  pub type : String

-- The methods of a plugin; one that changes the plugin gives it as it is afterwards, and its error.
pub record PluginOps (P D C : Type 0) : Type 0 where
  pub metadata : P → PluginMetadata
  pub init : P → C → P × Option String
  pub start : P → P × Option String
  pub stop : P → P × Option String
  pub get_hooks : P → Dict (List (HookHandler D))
  pub ready : P → Bool

-- A symbol of an opened plugin, by its Go type.
pub data Symbol (P : Type 0) : Type 0 where
  pointer value constructor : P → Symbol P
  fallible_constructor : Result String P → Symbol P
  other_symbol : Symbol P

pub record DirEntry : Type 0 where
  pub name : String
  pub is_dir : Bool

-- What the loader asks of its surroundings: ReadFile, Unmarshal, os.IsNotExist of os.Stat, ReadDir,
-- plugin.Open with Lookup, and Join, Dir and Base of filepath.
pub record Surroundings (P : Type 0) : Type 0 where
  pub read_file : String → Result String String
  pub unmarshal : String → Result String PluginManifest
  pub is_not_exist : String → Bool
  pub read_dir : String → Result String (List DirEntry)
  pub open_plugin : String → Result String (String → Result String (Symbol P))
  pub join : String → String → String
  pub dir : String → String
  pub base : String → String

pub data LoadError : Type 0 where
  unreadable bad_manifest unsupported_type not_loadable : String → LoadError
  missing_id missing_name missing_version no_file no_support unexpected_symbol id_mismatch :
      LoadError
  already_loaded not_loaded : String → LoadError
  of_registry : RegistryError → LoadError
  has_dependents : String → LoadError

pub data DirError : Type 0 where
  unreadable_dir : String → DirError
  some_failed : List (String × LoadError) → DirError

pub record Loader (P D : Type 0) : Type 0 where
  pub registry : PluginRegistry P D
  pub loaded : Dict String

abbrev pub new_loader : {P D : Type 0} → PluginRegistry P D → Loader P D
new_loader registry = record { registry = registry; loaded = [] }

abbrev manifest_suffix : String
manifest_suffix = ".manifest.json"

-- strings.TrimSuffix
trim_suffix : String → String → String
trim_suffix s suffix = elim (strip_suffix suffix s) [ none ↦ s | some rest ↦ rest ]

module _ {P : Type 0} (os : Surroundings P) where
  open os use {read_file, unmarshal, is_not_exist, read_dir, open_plugin, join, dir, base}

  -- The defaults that readManifest fills in.
  default_type : PluginManifest → PluginManifest
  default_type m = if m.type == "" then record m { type = "go" } else m

  default_path : String → PluginManifest → PluginManifest
  unfolding trim_suffix
  default_path path m =
      if m.path == "" && m.type == "go"
      then record m {
        path = join (dir path) (append_text (trim_suffix (base path) manifest_suffix) ".so");
      }
      else m

  pub read_manifest : String → Result LoadError PluginManifest
  unfolding default_type default_path
  read_manifest path = elim (read_file path) [
    | err e ↦ err (unreadable e)
    | ok text ↦ elim (unmarshal text) [
      | err e ↦ err (bad_manifest e)
      | ok m ↦
          if m.metadata.id == ""
          then err missing_id
          else if m.metadata.name == ""
          then err missing_name
          else if m.metadata.version == ""
          then err missing_version
          else ok (default_path path (default_type m))
    ]
  ]

  -- The loop over the two names: the first symbol found, or the last error.
  default_symbol : (String → Result String (Symbol P)) → Result String (Symbol P)
  default_symbol find = elim (find "Plugin") [ ok s ↦ ok s | err e ↦ find "NewPlugin" ]

  find_symbol : (String → Result String (Symbol P)) → String → Result String (Symbol P)
  unfolding default_symbol
  find_symbol find entry_point = if entry_point == "" then default_symbol find else find entry_point

  instance_of_symbol : Symbol P → Result LoadError P
  instance_of_symbol (pointer p) = ok p
  instance_of_symbol (value p) = ok p
  instance_of_symbol (constructor p) = ok p
  instance_of_symbol (fallible_constructor (ok p)) = ok p
  instance_of_symbol (fallible_constructor (err e)) = err (not_loadable e)
  instance_of_symbol other_symbol = err unexpected_symbol

  open_symbol : PluginManifest → Result LoadError P
  unfolding find_symbol instance_of_symbol
  open_symbol m = elim (open_plugin m.path) [
    | err e ↦ err (not_loadable e)
    | ok find ↦ elim (find_symbol find m.entry_point) [
      | err e ↦ err (not_loadable e)
      | ok symbol ↦ instance_of_symbol symbol
    ]
  ]

module _ {P D C : Type 0} (os : Surroundings P) (ops : PluginOps P D C) where
  load_go_plugin : PluginManifest → Result LoadError P
  unfolding open_symbol
  load_go_plugin m = if os.is_not_exist m.path then err no_file else elim (open_symbol os m) [
    | err e ↦ err e
    | ok p ↦ if (ops.metadata p).id == m.metadata.id then ok p else err id_mismatch
  ]

  -- The switch of LoadPlugin; loadWASMPlugin and loadExternalPlugin only fail.
  pub load_instance : PluginManifest → Result LoadError P
  unfolding load_go_plugin
  load_instance m =
      if m.type == "go"
      then load_go_plugin m
      else if m.type == "wasm"
      then err no_support
      else if m.type == "external"
      then err no_support
      else err (unsupported_type m.type)

  -- LoadPlugin from the manifest on.
  load_manifest : String → PluginManifest → Loader P D → Loader P D × Result LoadError (Unit {0})
  unfolding load_instance
  load_manifest path m l =
      if has_key m.metadata.id l.loaded
      then (l, err (already_loaded m.metadata.id))
      else elim (load_instance m) [
        | err e ↦ (l, err e)
        | ok p ↦ elim (register_plugin p (ops.metadata p) l.registry) [
          | err e ↦ (l, err (of_registry e))
          | ok r ↦ (record { registry = r; loaded = insert m.metadata.id path l.loaded }, ok tt)
        ]
      ]

  pub load_plugin : String → Loader P D → Loader P D × Result LoadError (Unit {0})
  unfolding load_manifest
  load_plugin path l = elim (read_manifest os path) [
    | err e ↦ (l, err e)
    | ok m ↦ load_manifest path m l
  ]

  is_manifest : DirEntry → Bool
  is_manifest e =
      if e.is_dir
      then false
      else elim (strip_suffix manifest_suffix e.name) [ none ↦ false | some _ ↦ true ]

  note_failure :
      String → Result LoadError (Unit {0}) → List (String × LoadError) → List (String × LoadError)
  note_failure name (ok _) later = later
  note_failure name (err e) later = (name, e) ∷ later

  -- The loop of LoadPluginsFromDir: the loader, and the failures in order.
  pub load_entries : String → List DirEntry → Loader P D → Loader P D × List (String × LoadError)
  unfolding is_manifest note_failure
  load_entries d [] l = (l, [])
  load_entries d (e ∷ es) l = elim (is_manifest e) [
    | false ↦ load_entries d es l
    | true ↦
        let (l', result) = load_plugin (os.join d e.name) l in
        let (l'', later) = load_entries d es l' in (l'', note_failure e.name result later)
  ]

  pub load_plugins_from_dir : String → Loader P D → Loader P D × Result DirError (Unit {0})
  unfolding load_entries
  load_plugins_from_dir d l = elim (os.read_dir d) [
    | err e ↦ (l, err (unreadable_dir e))
    | ok entries ↦
        let (l', failures) = load_entries d entries l in
        (l', elim failures [ [] ↦ ok tt | f ∷ fs ↦ err (some_failed (f ∷ fs)) ])
  ]

  -- The plugin as Stop leaves it, where it was running.
  stop_running : PluginInfo P D → Option P
  stop_running info = elim info.state [ started ↦ some (ops.stop info.instance_of).0 | _ ↦ none ]

  -- UnloadPlugin once the plugin is found, with the instance that it has stopped; a failure of Stop is only
  -- logged, and the hooks and capabilities of the plugin stay in the registry.
  unfoldable pub unload_found :
      String → PluginInfo P D → Loader P D → Loader P D × Option P × Result LoadError (Unit {0})
  unfolding stop_running
  unload_found id info l = elim info.dependents [
    | d ∷ ds ↦ (l, none, err (has_dependents id))
    | [] ↦ (
      record {
        registry = record l.registry { plugins = delete id l.registry.plugins };
        loaded = delete id l.loaded;
      },
      stop_running info,
      ok tt,
    )
  ]

  pub unload_plugin :
      Lock → String → Loader P D → Run (Loader P D × Option P × Result LoadError (Unit {0}))
  unfolding unload_found get_plugin_info
  unload_plugin lock id l =
      if has_key id l.loaded
      then elim (get_plugin_info lock l.registry id) [
        | blocked ↦ blocked
        | fatal ↦ fatal
        | done (err e) ↦ done (l, none, err (of_registry e))
        | done (ok info) ↦ done (unload_found id info l)
      ]
      else done (l, none, err (not_loaded id))
