-- ===== src/Plugin/Lifecycle/States.antt =====
-- The states that a plugin goes through, by the bodies of StartPlugin and StopPlugin.
use mathlib.Core.Path.{subst}
use bindxdb.Prelude.{
  ap, ◌⊎◌, String, some, List, [], ◌∷◌, ◌≡◌, ◌≢◌, refl, sym, ◌∙◌, Dict, lookup, lookup-insert, ◌==◌,
  eq_iff, arith, Bool-cases, Option-cases, Result-cases, inl, inr, pos,
}
use bindxdb.Plugin.Graph.{PluginState, unknown, loaded, initialized, started, stopped, failed}
use bindxdb.Plugin.Registry.{PluginInfo, PluginRegistry, HookHandler, add_hook}
use bindxdb.Plugin.Registry.Hooks.{Keeps, Keeps-refl, Keeps-trans, add_hook-Keeps}
use bindxdb.Plugin.Lifecycle.{
  LifecycleManager, put, add_handlers, add_hooks, provide, provide_one, announce, begin,
  begin_loaded, start_found, stop_alone, config_of,
}

-- How a plugin's state may change: it stays, a plugin that is neither running nor failed starts to run, a running
-- one stops, and one that has not failed fails.
pub data Moves (s t : PluginState) : Type 0 where
  stays : t ≡ s → Moves s t
  runs : s ≢ started → s ≢ failed → t ≡ started → Moves s t
  halts : s ≡ started → t ≡ stopped → Moves s t
  breaks : s ≢ failed → t ≡ failed → Moves s t

-- What StartPlugin does in a state, by the four cases of its switch and the test after it.
pub state-cases :
    (s : PluginState)
    → (s ≡ started) ⊎ (s ≡ failed) ⊎ (s ≡ loaded) ⊎ ((s ≢ started) × (s ≢ failed) × (s ≢ loaded))
state-cases unknown = inr (inr (inr (λ e. cc, λ e. cc, λ e. cc)))
state-cases loaded = inr (inr (inl refl))
state-cases initialized = inr (inr (inr (λ e. cc, λ e. cc, λ e. cc)))
state-cases started = inl refl
state-cases stopped = inr (inr (inr (λ e. cc, λ e. cc, λ e. cc)))
state-cases failed = inr (inl refl)

module _ {P D : Type 0} where
  -- A plugin of the first registry is in the second one, its state has moved, and its metadata is the same.
  abbrev pub MovesIn : PluginRegistry P D → PluginRegistry P D → String → Type 0
  MovesIn r s j =
      (info : PluginInfo P D)
      → lookup j r.plugins ≡ some info
      → (info' : PluginInfo P D) × (lookup j s.plugins ≡ some info')
        × Moves info.state info'.state
        × (info'.metadata ≡ info.metadata)

  pub MovesIn-refl : (r : PluginRegistry P D) (j : String) → MovesIn r r j
  MovesIn-refl r j info e = (info, e, stays refl, refl)

module _ {P D C : Type 0} (lm : LifecycleManager P D C) where
  add_handlers-Keeps :
      (id hook_type : String) (hs : List (HookHandler D)) (r : PluginRegistry P D) (j : String)
      → Keeps r (add_handlers lm id hook_type hs r) j
  unfolding add_handlers
  add_handlers-Keeps id hook_type [] r j = Keeps-refl r j
  add_handlers-Keeps id hook_type (h ∷ hs) r j =
      elim (Result-cases (add_hook lm.sort id hook_type h (pos 101) r)) [
        | inl (s, added) ↦
            rw (add_handlers, added)
              (Keeps-trans r s (add_handlers lm id hook_type hs s) j
                (add_hook-Keeps lm.sort id hook_type h (pos 101) r s j added)
                (add_handlers-Keeps id hook_type hs s j))
        | inr (x, refused) ↦ rw (add_handlers, refused) (add_handlers-Keeps id hook_type hs r j)
      ]

  add_hooks-Keeps :
      (id : String) (hooks : Dict (List (HookHandler D))) (r : PluginRegistry P D) (j : String)
      → Keeps r (add_hooks lm id hooks r) j
  unfolding add_hooks
  add_hooks-Keeps id [] r j = Keeps-refl r j
  add_hooks-Keeps id ((hook_type, hs) ∷ rest) r j =
      let s = add_handlers lm id hook_type hs r in
      Keeps-trans r s (add_hooks lm id rest s) j (add_handlers-Keeps id hook_type hs r j)
        (add_hooks-Keeps id rest s j)

  provide-plugins :
      (id : String) (capabilities : List String) (r : PluginRegistry P D)
      → (provide lm id capabilities r).plugins ≡ r.plugins
  unfolding provide
  provide-plugins id [] r = refl
  provide-plugins id (c ∷ cs) r = provide-plugins id cs (provide_one lm id c r)

  put-MovesIn :
      (id : String) (old new : PluginInfo P D) (r : PluginRegistry P D) (j : String)
      → lookup id r.plugins ≡ some old
      → Moves old.state new.state
      → new.metadata ≡ old.metadata
      → MovesIn r (put lm id new r) j
  unfolding put
  put-MovesIn id old new r j found m same info e = elim (Bool-cases (id == j)) [
    | inl t ↦
        let here : info ≡ old = ground (arith, found, e, eq_iff id j, t) in
        (
          new,
          (rw (lookup-insert id j new r.plugins, t) refl),
          subst (λ (i : PluginInfo P D). Moves i.state new.state) (sym here) m,
          subst (λ (i : PluginInfo P D). new.metadata ≡ i.metadata) (sym here) same,
        )
    | inr f ↦ (info, (rw (lookup-insert id j new r.plugins, f) e), stays refl, refl)
  ]

  announce-MovesIn :
      (id : String) (old new : PluginInfo P D) (r : PluginRegistry P D) (j : String)
      → lookup id r.plugins ≡ some old
      → Moves old.state new.state
      → new.metadata ≡ old.metadata
      → MovesIn r (announce lm id new r) j
  unfolding announce
  announce-MovesIn id old new r j found m same info e =
      let (i, e', mv, md) = put-MovesIn id old new r j found m same info e in
      let s = add_hooks lm id (lm.ops.get_hooks new.instance_of) (put lm id new r) in
      let (i', e'', st, md') =
        add_hooks-Keeps id (lm.ops.get_hooks new.instance_of) (put lm id new r) j i e' in
      (
        i',
        ap (λ (ps : Dict (PluginInfo P D)). lookup j ps)
              (provide-plugins id new.metadata.provides s)
            ∙ e'',
        subst (λ (q : PluginState). Moves info.state q) (sym st) mv,
        md' ∙ md,
      )

  -- `info` is the plugin as Init has left it.
  begin-MovesIn :
      (id : String) (old info : PluginInfo P D) (r : PluginRegistry P D) (j : String)
      → lookup id r.plugins ≡ some old
      → old.state ≢ started
      → old.state ≢ failed
      → info.metadata ≡ old.metadata
      → MovesIn r (begin lm id info r).0 j
  unfolding begin
  begin-MovesIn id old info r j found a b same =
      elim (Option-cases (lm.ops.start info.instance_of).1) [
        | inl e ↦
            rw (begin, e)
              (announce-MovesIn id old
                (record info { instance_of = (lm.ops.start info.instance_of).0; state = started }) r
                j found (runs a b refl) same)
        | inr (x, e) ↦
            rw (begin, e)
              (put-MovesIn id old
                (record info { instance_of = (lm.ops.start info.instance_of).0; state = failed }) r
                j found (breaks b refl) same)
      ]

  begin_loaded-MovesIn :
      (id : String) (info : PluginInfo P D) (r : PluginRegistry P D) (j : String)
      → lookup id r.plugins ≡ some info
      → info.state ≡ loaded
      → MovesIn r (begin_loaded lm id info r).0 j
  unfolding begin_loaded
  begin_loaded-MovesIn id info r j found is_loaded =
      elim (Option-cases (lm.ops.init info.instance_of (config_of lm id)).1) [
        | inl e ↦
            rw (begin_loaded, e)
              (begin-MovesIn id info
                (record info {
                  instance_of = (lm.ops.init info.instance_of (config_of lm id)).0;
                  state = initialized;
                })
                r j found (ground (arith, is_loaded)) (ground (arith, is_loaded)) refl)
        | inr (x, e) ↦
            rw (begin_loaded, e)
              (put-MovesIn id info
                (record info {
                  instance_of = (lm.ops.init info.instance_of (config_of lm id)).0;
                  state = failed;
                })
                r j found (breaks (ground (arith, is_loaded)) refl) refl)
      ]

  pub start_found-begin :
      (id : String) (info : PluginInfo P D) (r : PluginRegistry P D)
      → info.state ≢ started
      → info.state ≢ failed
      → info.state ≢ loaded
      → start_found lm id info r ≡ begin lm id info r
  unfolding start_found
  start_found-begin id info r a b c = ground (arith, a, b, c)

  pub start_found-MovesIn :
      (id : String) (info : PluginInfo P D) (r : PluginRegistry P D) (j : String)
      → lookup id r.plugins ≡ some info
      → MovesIn r (start_found lm id info r).0 j
  unfolding start_found
  start_found-MovesIn id info r j found = elim (state-cases info.state) [
    | inl e ↦ rw (start_found, e) (MovesIn-refl r j)
    | inr (inl e) ↦ rw (start_found, e) (MovesIn-refl r j)
    | inr (inr (inl e)) ↦ rw (start_found, e) (begin_loaded-MovesIn id info r j found e)
    | inr (inr (inr (a, b, c))) ↦
        rw (start_found-begin id info r a b c) (begin-MovesIn id info info r j found a b refl)
  ]

  pub stop_alone-MovesIn :
      (id : String) (info : PluginInfo P D) (r : PluginRegistry P D) (j : String)
      → lookup id r.plugins ≡ some info
      → info.state ≡ started
      → MovesIn r (stop_alone lm id info r).0 j
  unfolding stop_alone
  stop_alone-MovesIn id info r j found running =
      elim (Option-cases (lm.ops.stop info.instance_of).1) [
        | inl e ↦
            rw (stop_alone, e)
              (put-MovesIn id info
                (record info { instance_of = (lm.ops.stop info.instance_of).0; state = stopped }) r
                j found (halts running refl) refl)
        | inr (x, e) ↦
            rw (stop_alone, e)
              (put-MovesIn id info
                (record info { instance_of = (lm.ops.stop info.instance_of).0; state = failed }) r j
                found (breaks (ground (arith, running)) refl) refl)
      ]
