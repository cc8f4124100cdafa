-- ===== src/Plugin/Lifecycle/Methods.antt =====
-- The methods of the lifecycle manager, with the look-ups that they make.
use mathlib.Core.List.{reverse}
use bindxdb.Prelude.{
  String, Bool, true, false, none, some, List, [], ◌∷◌, Dict, lookup, if◌then◌else◌, ◌==◌, ◌&&◌,
  not, Result, ok, err,
}
use bindxdb.Plugin.Graph.{PluginState, started}
use bindxdb.Plugin.Registry.{
  PluginInfo, PluginRegistry, execute_hooks, validate_dependencies, resolve_dependencies,
}
use bindxdb.Plugin.Lock.{Lock, Run, blocked, done, and_then, get_plugin_info}
use bindxdb.Plugin.Lifecycle.{
  StartupConfig, Unhealthy, wrong_state, not_ready, LifecycleError, of_registry, of_discovery,
  of_loader, still_running, plugins_unhealthy, not_from_manifest, Outcome, LifecycleManager,
  start_found, stop_alone,
}
use bindxdb.Plugin.Loader.{Surroundings, Loader, load_plugin, load_plugins_from_dir, unload_plugin}

-- Whether a plugin is in the started state.
abbrev pub is_started : PluginState → Bool
is_started started = true
is_started _ = false

module _ {P D C : Type 0} (lm : LifecycleManager P D C) where
  unfoldable pub start_plugin :
      Lock → String → PluginRegistry P D → Run (Outcome (PluginRegistry P D))
  unfolding start_found
  start_plugin lock id r = and_then (get_plugin_info lock r id) (λ found. elim found [
    | err e ↦ done (r, err (of_registry e))
    | ok info ↦ done (start_found lm id info r)
  ])

  -- The loop of StopPlugin over the dependents: those that are running.
  pub running_dependents : Lock → PluginRegistry P D → List String → Run (List String)
  running_dependents lock r [] = done []
  running_dependents lock r (id ∷ ids) = and_then (get_plugin_info lock r id) (λ found.
      and_then (running_dependents lock r ids) (λ rest. elim found [
        | err e ↦ done rest
        | ok info ↦ done (if is_started info.state then id ∷ rest else rest)
      ]))

  pub stop_found :
      Lock → String → PluginInfo P D → PluginRegistry P D → Run (Outcome (PluginRegistry P D))
  unfolding stop_alone running_dependents
  stop_found lock id info r =
      if is_started info.state
      then and_then (running_dependents lock r info.dependents) (λ running. elim running [
        | [] ↦ done (stop_alone lm id info r)
        | d ∷ ds ↦ done (r, err (still_running id (d ∷ ds)))
      ])
      else done (r, ok tt)

  unfoldable pub stop_plugin :
      Lock → String → PluginRegistry P D → Run (Outcome (PluginRegistry P D))
  unfolding stop_found
  stop_plugin lock id r = and_then (get_plugin_info lock r id) (λ found. elim found [
    | err e ↦ done (r, err (of_registry e))
    | ok info ↦ stop_found lock id info r
  ])

  -- The loop of StartPlugins: the first error ends it.
  unfoldable pub start_each :
      Lock → List String → PluginRegistry P D → Run (Outcome (PluginRegistry P D))
  unfolding start_plugin
  start_each lock [] r = done (r, ok tt)
  start_each lock (id ∷ ids) r =
      and_then (start_plugin lock id r)
        (λ (r', result). elim result [ err e ↦ done (r', err e) | ok _ ↦ start_each lock ids r' ])

  -- The loop of HealthCheck over the plugins.
  unfoldable pub unhealthy : Dict (PluginInfo P D) → List Unhealthy
  unhealthy [] = []
  unhealthy ((id, info) ∷ rest) =
      let later = unhealthy rest in
      if is_started info.state
      then if lm.ops.ready info.instance_of then later else not_ready info.metadata.id ∷ later
      else wrong_state info.metadata.id ∷ later

  unfoldable pub health_check : PluginRegistry P D → Result LifecycleError (Unit {0})
  unfolding unhealthy
  health_check r = elim (unhealthy r.plugins) [
    | [] ↦ ok tt
    | u ∷ us ↦ err (plugins_unhealthy (u ∷ us))
  ]

  -- StartPlugins after the plugins are started.
  check_health : StartupConfig → Outcome (PluginRegistry P D) → Outcome (PluginRegistry P D)
  unfolding health_check
  check_health config (r, err e) = (r, err e)
  check_health config (r, ok _) = (r, if config.health_check then health_check r else ok tt)

  -- StartPlugins after the plugins are discovered. A search out of fuel, which does not happen, is `blocked`.
  unfoldable pub start_discovered :
      Lock → StartupConfig → PluginRegistry P D → Run (Outcome (PluginRegistry P D))
  unfolding start_each check_health
  start_discovered lock config r = elim (validate_dependencies r) [
    | err e ↦ done (r, err (of_registry e))
    | ok _ ↦ elim (resolve_dependencies r) [
      | none ↦ blocked
      | some (err e) ↦ done (r, err (of_registry e))
      | some (ok r') ↦
          and_then (start_each lock r'.plugin_order r')
            (λ outcome. done (check_health config outcome))
    ]
  ]

  pub start_plugins :
      Surroundings P
      → Lock
      → StartupConfig
      → Loader P D
      → Run (Loader P D × Result LifecycleError (Unit {0}))
  unfolding start_discovered
  start_plugins os lock config l =
      let (l', discovered) =
        if config.auto_discover && not (config.plugin_dir == "")
        then load_plugins_from_dir os lm.ops config.plugin_dir l
        else (l, ok tt) in
      elim discovered [
        | err e ↦ done (l', err (of_discovery e))
        | ok _ ↦
            and_then (start_discovered lock config l'.registry)
              (λ (r, result). done (record l' { registry = r }, result))
      ]

  -- The loop of StopPlugins, over the order from its end; the failures in order.
  unfoldable pub stop_each :
      Lock
      → List String
      → PluginRegistry P D
      → Run (PluginRegistry P D × List (String × LifecycleError))
  unfolding stop_plugin
  stop_each lock [] r = done (r, [])
  stop_each lock (id ∷ ids) r = and_then (stop_plugin lock id r) (λ (r', result).
      and_then (stop_each lock ids r') (λ (r'', later). elim result [
        | ok _ ↦ done (r'', later)
        | err e ↦ done (r'', (id, e) ∷ later)
      ]))

  -- The registry, the data that the shutdown hooks leave, and the failures; an error of a hook is only logged.
  unfoldable pub stop_plugins :
      Lock → PluginRegistry P D → Run (PluginRegistry P D × D × List (String × LifecycleError))
  unfolding stop_each
  stop_plugins lock r = elim r.plugin_order [
    | [] ↦ done (r, lm.shutdown_data, [])
    | id ∷ ids ↦
        and_then (stop_each lock (reverse (id ∷ ids)) r)
          (λ (r', failures). done (r', (execute_hooks "shutdown" lm.shutdown_data r).1, failures))
  ]

  unfoldable pub restart_plugin :
      Lock → String → PluginRegistry P D → Run (Outcome (PluginRegistry P D))
  unfolding start_plugin stop_plugin
  restart_plugin lock id r =
      and_then (stop_plugin lock id r)
        (λ (r', result). elim result [ err e ↦ done (r', err e) | ok _ ↦ start_plugin lock id r' ])

  -- ReloadPlugin after the plugin is unloaded.
  load_again :
      Surroundings P
      → Lock
      → String
      → String
      → Loader P D
      → Run (Loader P D × Result LifecycleError (Unit {0}))
  unfolding start_plugin
  load_again os lock id path l =
      let (l', result) = load_plugin os lm.ops path l in
      elim result [
        | err e ↦ done (l', err (of_loader e))
        | ok _ ↦
            and_then (start_plugin lock id l'.registry)
              (λ (r, started_result). done (record l' { registry = r }, started_result))
      ]

  -- An error of StopPlugin is only logged.
  unfoldable pub reload_plugin :
      Surroundings P
      → Lock
      → String
      → Loader P D
      → Run (Loader P D × Result LifecycleError (Unit {0}))
  unfolding stop_plugin load_again
  reload_plugin os lock id l = elim (lookup id l.loaded) [
    | none ↦ done (l, err (not_from_manifest id))
    | some path ↦ and_then (stop_plugin lock id l.registry) (λ (r, _).
        and_then (unload_plugin os lm.ops lock id (record l { registry = r })) (λ (l', _, result).
          elim result [
            | err e ↦ done (l', err (of_loader e))
            | ok _ ↦ load_again os lock id path l'
          ]))
  ]
