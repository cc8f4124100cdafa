-- ===== src/Plugin/Lifecycle.antt =====
-- The lifecycle manager of pkg/plugin/lifecycle.go. A method first looks its plugin up by GetPluginInfo; what it
-- does with a plugin that is found stands here, as a function on the registry; the methods are in Methods. Configuration is of
-- type `C`; the context, the timeout, times and logs are left out, and so is ParallelStart, which nothing reads.
pub mod Methods
pub mod States
pub mod Runs
pub mod Outcomes
pub mod Unloaded
mod Tests
use mathlib.Core.List.{reverse}
use bindxdb.Prelude.{
  ℕ, String, Bool, true, false, Option, none, some, List, [], ◌∷◌, ◌++◌, Dict, lookup, insert,
  if◌then◌else◌, ◌==◌, ◌&&◌, not, Result, ok, err, ℤ, pos,
}
use bindxdb.Plugin.Graph.{
  PluginMetadata, PluginState, unknown, loaded, initialized, started, stopped, failed,
}
use bindxdb.Plugin.Registry.{
  PluginInfo, PluginRegistry, HookHandler, HookRegistration, RegistryError, add_hook, execute_hooks,
  validate_dependencies, resolve_dependencies,
}
use bindxdb.Plugin.Lock.{Lock, Run, blocked, fatal, done, and_then, get_plugin_info}
use bindxdb.Plugin.Loader.{
  PluginOps, Surroundings, Loader, LoadError, DirError, load_plugin, load_plugins_from_dir,
  unload_plugin,
}

pub record StartupConfig : Type 0 where
  pub auto_discover : Bool
  pub plugin_dir : String
  pub health_check : Bool

pub data Unhealthy : Type 0 where
  wrong_state not_ready : String → Unhealthy

pub data LifecycleError : Type 0 where
  of_registry : RegistryError → LifecycleError
  of_discovery : DirError → LifecycleError
  of_loader : LoadError → LifecycleError
  in_failed_state : String → LifecycleError
  init_failed start_failed stop_failed : (id message : String) → LifecycleError
  still_running : (id : String) → List String → LifecycleError
  plugins_unhealthy : List Unhealthy → LifecycleError
  not_from_manifest : String → LifecycleError

abbrev pub Outcome : Type 0 → Type 0
Outcome S = S × Result LifecycleError (Unit {0})

-- What LifecycleManager reaches: GetPluginConfig of the provider, if there is one, the sort of AddHook, and the data
-- of the shutdown hook.
pub record LifecycleManager (P D C : Type 0) : Type 0 where
  pub ops : PluginOps P D C
  pub config_provider : Option (String → Result String C)
  pub no_config : C
  pub sort : List (HookRegistration D) → List (HookRegistration D)
  pub shutdown_data : D

-- What a map of lists has for a key.
pub provided_by : String → Dict (List String) → List String
provided_by capability capabilities = elim (lookup capability capabilities) [
  | none ↦ []
  | some ids ↦ ids
]

module _ {P D C : Type 0} (lm : LifecycleManager P D C) where
  open lm use {ops, config_provider, no_config, sort, shutdown_data}

  -- The configuration of a plugin; an error of the provider is only logged.
  pub config_of : String → C
  config_of id = elim config_provider [
    | none ↦ no_config
    | some get ↦ elim (get id) [ ok c ↦ c | err e ↦ no_config ]
  ]

  -- *info = …, through the pointer that the registry holds.
  pub put : String → PluginInfo P D → PluginRegistry P D → PluginRegistry P D
  put id info r = record r { plugins = insert id info r.plugins }

  -- AddHook with priority 101 for each handler; an error is only logged.
  pub add_handlers :
      String → String → List (HookHandler D) → PluginRegistry P D → PluginRegistry P D
  add_handlers id hook_type [] r = r
  add_handlers id hook_type (h ∷ hs) r =
      add_handlers id hook_type hs
        (elim (add_hook sort id hook_type h (pos 101) r) [ ok r' ↦ r' | err e ↦ r ])

  pub add_hooks : String → Dict (List (HookHandler D)) → PluginRegistry P D → PluginRegistry P D
  unfolding add_handlers
  add_hooks id [] r = r
  add_hooks id ((hook_type, handlers) ∷ rest) r =
      add_hooks id rest (add_handlers id hook_type handlers r)

  -- capabilities[capability] = append(capabilities[capability], pluginID)
  pub provide_one : String → String → PluginRegistry P D → PluginRegistry P D
  unfolding provided_by
  provide_one id capability r = record r {
    capabilities =
        insert capability (provided_by capability r.capabilities ++ id ∷ []) r.capabilities;
  }

  pub provide : String → List String → PluginRegistry P D → PluginRegistry P D
  unfolding provide_one
  provide id [] r = r
  provide id (capability ∷ rest) r = provide id rest (provide_one id capability r)

  -- What follows a successful Start.
  pub announce : String → PluginInfo P D → PluginRegistry P D → PluginRegistry P D
  unfolding add_hooks provide
  announce id info r =
      provide id info.metadata.provides
        (add_hooks id (ops.get_hooks info.instance_of) (put id info r))

  -- StartPlugin from the call of Start on.
  pub begin : String → PluginInfo P D → PluginRegistry P D → Outcome (PluginRegistry P D)
  unfolding announce put
  begin id info r =
      let (p, failure) = ops.start info.instance_of in
      elim failure [
        | some e ↦
            (put id (record info { instance_of = p; state = failed }) r, err (start_failed id e))
        | none ↦ (announce id (record info { instance_of = p; state = started }) r, ok tt)
      ]

  -- The call of Init before it, on a plugin that is only loaded.
  pub begin_loaded : String → PluginInfo P D → PluginRegistry P D → Outcome (PluginRegistry P D)
  unfolding begin config_of
  begin_loaded id info r =
      let (p, failure) = ops.init info.instance_of (config_of id) in
      elim failure [
        | some e ↦
            (put id (record info { instance_of = p; state = failed }) r, err (init_failed id e))
        | none ↦ begin id (record info { instance_of = p; state = initialized }) r
      ]

  -- StartPlugin for a plugin that is found.
  pub start_found : String → PluginInfo P D → PluginRegistry P D → Outcome (PluginRegistry P D)
  unfolding begin_loaded begin
  start_found id info r = elim info.state [
    | started ↦ (r, ok tt)
    | failed ↦ (r, err (in_failed_state id))
    | loaded ↦ begin_loaded id info r
    | _ ↦ begin id info r
  ]

  -- StopPlugin from the call of Stop on.
  pub stop_alone : String → PluginInfo P D → PluginRegistry P D → Outcome (PluginRegistry P D)
  unfolding put
  stop_alone id info r =
      let (p, failure) = ops.stop info.instance_of in
      elim failure [
        | some e ↦
            (put id (record info { instance_of = p; state = failed }) r, err (stop_failed id e))
        | none ↦ (put id (record info { instance_of = p; state = stopped }) r, ok tt)
      ]
