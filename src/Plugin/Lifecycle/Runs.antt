-- ===== src/Plugin/Lifecycle/Runs.antt =====
-- Sequences of starts and stops of plugins, by the bodies of StartPlugin and StopPlugin.
use bindxdb.Prelude.{
  String, true, false, none, some, List, [], ◌∷◌, ◌≡◌, refl, ◌∙◌, lookup, Bool-cases, Option-cases,
  inl, inr, Bool, ◌&&◌, ◌||◌, not, arith,
}
use bindxdb.Plugin.Graph.{PluginState, started, failed, loaded, unknown, initialized, stopped}
use bindxdb.Plugin.Registry.{PluginInfo, PluginRegistry}
use bindxdb.Plugin.Lifecycle.{LifecycleManager, start_found, stop_alone}
use bindxdb.Plugin.Lifecycle.Methods.{is_started}
use bindxdb.Plugin.Lifecycle.States.{
  Moves, stays, runs, halts, breaks, MovesIn, MovesIn-refl, start_found-MovesIn, stop_alone-MovesIn,
}

-- A plugin is started, or stopped where it runs and no dependent of it does.
pub data Event : Type 0 where
  start_it stop_it : String → Event

module _ {P D C : Type 0} (lm : LifecycleManager P D C) where
  -- Whether one of the plugins is found and running.
  some_running : PluginRegistry P D → List String → Bool
  some_running r [] = false
  some_running r (id ∷ ids) =
      let later = some_running r ids in
      elim (lookup id r.plugins) [ none ↦ later | some info ↦ is_started info.state || later ]

  -- A plugin with a running dependent is not stopped.
  stop_if_running : String → PluginInfo P D → PluginRegistry P D → PluginRegistry P D
  unfolding some_running
  stop_if_running id info r = elim (is_started info.state && not (some_running r info.dependents)) [
    | true ↦ (stop_alone lm id info r).0
    | false ↦ r
  ]

  -- A plugin that is not found is left aside, as the methods do.
  unfoldable pub step : Event → PluginRegistry P D → PluginRegistry P D
  unfolding stop_if_running
  step (start_it id) r = elim (lookup id r.plugins) [
    | none ↦ r
    | some info ↦ (start_found lm id info r).0
  ]
  step (stop_it id) r = elim (lookup id r.plugins) [
    | none ↦ r
    | some info ↦ stop_if_running id info r
  ]

  unfoldable pub run : List Event → PluginRegistry P D → PluginRegistry P D
  unfolding step
  run [] r = r
  run (e ∷ es) r = run es (step e r)

pub is_started_lem : (s : PluginState) → is_started s ≡ true → s ≡ started
is_started_lem started e = refl
is_started_lem unknown e = cc
is_started_lem loaded e = cc
is_started_lem initialized e = cc
is_started_lem stopped e = cc
is_started_lem failed e = cc

Moves-failed : {s t : PluginState} → Moves s t → s ≡ failed → t ≡ failed
Moves-failed (stays e) f = e ∙ f
Moves-failed (runs a b e) f = absurd (b f)
Moves-failed (halts a e) f = absurd (cc)
Moves-failed (breaks a e) f = e

module _ {P D C : Type 0} (lm : LifecycleManager P D C) where
  stop_if_running-MovesIn :
      (id : String) (info : PluginInfo P D) (r : PluginRegistry P D) (j : String)
      → lookup id r.plugins ≡ some info
      → MovesIn r (stop_if_running lm id info r) j
  unfolding stop_if_running
  stop_if_running-MovesIn id info r j found =
      elim (Bool-cases (is_started info.state && not (some_running lm r info.dependents))) [
        | inl t ↦
            rw (stop_if_running, t)
              (stop_alone-MovesIn lm id info r j found
                (is_started_lem info.state (ground (arith, t))))
        | inr f ↦ rw (stop_if_running, f) (MovesIn-refl r j)
      ]

  -- A start or a stop of a plugin, where that plugin is found, keeps every registered plugin in the registry with its
  -- metadata, and moves its state only from one that is neither started nor failed to started, from started to
  -- stopped, or from one that is not failed to failed.
  pub step-Moves :
      (e : Event) (r : PluginRegistry P D) (id : String) (info : PluginInfo P D)
      → lookup id r.plugins ≡ some info
      → (info' : PluginInfo P D) × (lookup id (step lm e r).plugins ≡ some info')
        × Moves info.state info'.state
        × (info'.metadata ≡ info.metadata)
  unfolding step
  step-Moves (start_it i) r id = elim (Option-cases (lookup i r.plugins)) [
    | inl e ↦ rw (step, e) (MovesIn-refl r id)
    | inr (info, e) ↦ rw (step, e) (start_found-MovesIn lm i info r id e)
  ]
  step-Moves (stop_it i) r id = elim (Option-cases (lookup i r.plugins)) [
    | inl e ↦ rw (step, e) (MovesIn-refl r id)
    | inr (info, e) ↦ rw (step, e) (stop_if_running-MovesIn i info r id e)
  ]

  -- After any starts and stops of plugins, a plugin that was in the failed state is still registered, still in
  -- that state, and with the same metadata.
  pub run-failed :
      (es : List Event) (r : PluginRegistry P D) (id : String) (info : PluginInfo P D)
      → lookup id r.plugins ≡ some info
      → info.state ≡ failed
      → (info' : PluginInfo P D) × (lookup id (run lm es r).plugins ≡ some info')
        × (info'.state ≡ failed)
        × (info'.metadata ≡ info.metadata)
  unfolding run
  run-failed [] r id info e f = (info, e, f, refl)
  run-failed (ev ∷ es) r id info e f =
      let (i, e', m, md) = step-Moves ev r id info e in
      let (i', e'', f', md') = run-failed es (step lm ev r) id i e' (Moves-failed m f) in
      (i', e'', f', md' ∙ md)
