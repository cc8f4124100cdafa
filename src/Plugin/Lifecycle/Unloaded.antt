-- ===== src/Plugin/Lifecycle/Unloaded.antt =====
-- What a plugin leaves in the registry when the loader unloads it.
use bindxdb.Prelude.{
  String, false, List, [], ◌∷◌, ◌≡◌, ◌≢◌, sym, ◌∙◌, ap, Dict, lookup, has_key, Option, none, Result,
  ok, All, ℤ,
}
use mathlib.Core.Path.{subst}
use bindxdb.Plugin.Graph.{started}
use bindxdb.Plugin.Registry.{
  PluginInfo, PluginRegistry, HookHandler, HookRegistration, RegistryError, add_hook, execute_hooks,
}
use bindxdb.Plugin.Registry.Hooks.{execute_hooks-hooks, execute_hooks-add_hook}
use bindxdb.Plugin.Loader.Loading.{unload_found_ok, has_key-unload_found}
use bindxdb.Plugin.Loader.{PluginOps, Surroundings, Loader, unload_found}
use bindxdb.Plugin.Lifecycle.{LifecycleManager, start_found}
use bindxdb.Plugin.Lifecycle.Outcomes.{Offers, start_found-Offers}

module _ {P D C : Type 0} (os : Surroundings P) (ops : PluginOps P D C) where
  -- Where AddHook registers a handler of a plugin, the first one of its type, and UnloadPlugin of the plugin then
  -- succeeds, the plugin is no longer registered and yet ExecuteHooks of the type calls its handler, where sorting one
  -- registration changes nothing.
  pub execute_hooks-unload_found :
      (sort : List (HookRegistration D) → List (HookRegistration D)) (id hook_type : String)
      (h : HookHandler D) (priority : ℤ) (r s : PluginRegistry P D) (loaded : Dict String)
      (info : PluginInfo P D) (l' : Loader P D) (stop : Option P) (d : D)
      → ((one : HookRegistration D) → sort (one ∷ []) ≡ one ∷ [])
      → lookup hook_type r.hooks ≡ none
      → add_hook sort id hook_type h priority r ≡ ok s
      → unload_found os ops id info (record { registry = s; loaded = loaded }) ≡ (l', stop, ok tt)
      → (has_key id l'.registry.plugins ≡ false)
        × ((execute_hooks hook_type d l'.registry).1 ≡ (h id d).1)
  execute_hooks-unload_found sort id hook_type h priority r s loaded info l' stop d single fresh
        added unloaded =
      let l : Loader P D = record { registry = s; loaded = loaded } in
      (
        has_key-unload_found os ops id info l l' stop unloaded,
        ap (λ (o : Result RegistryError (Unit {0}) × D). o.1)
              (execute_hooks-hooks hook_type d l'.registry s (
                ap (λ (q : PluginRegistry P D). q.hooks)
                  (unload_found_ok os ops id info l l' stop unloaded)))
            ∙ execute_hooks-add_hook sort id hook_type h priority r s d single fresh added,
      )

-- Where StartPlugin starts a plugin that is found and is not running, and UnloadPlugin of it then succeeds, the plugin is
-- no longer registered and yet listed under each of the capabilities that its metadata provides.
pub start_found-unload_found :
    {P D C : Type 0} (lm : LifecycleManager P D C) (os : Surroundings P) (id : String)
    (info info' : PluginInfo P D) (r s : PluginRegistry P D) (loaded : Dict String)
    (l' : Loader P D) (stop : Option P)
    → info.state ≢ started
    → start_found lm id info r ≡ (s, ok tt)
    → unload_found os lm.ops id info' (record { registry = s; loaded = loaded }) ≡ (l', stop, ok tt)
    → (has_key id l'.registry.plugins ≡ false)
      × All (λ c. Offers l'.registry id c) info.metadata.provides
start_found-unload_found {P = P} {D = D} lm os id info info' r s loaded l' stop idle started_it
      unloaded =
    let l : Loader P D = record { registry = s; loaded = loaded } in
    (
      has_key-unload_found os lm.ops id info' l l' stop unloaded,
      subst (λ (q : PluginRegistry P D). All (λ c. Offers q id c) info.metadata.provides)
          (sym (unload_found_ok os lm.ops id info' l l' stop unloaded))
          (start_found-Offers lm id info r s idle started_it),
    )
