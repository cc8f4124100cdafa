-- ===== src/Plugin/Lifecycle/Outcomes.antt =====
-- What the methods of the lifecycle manager come to.
use mathlib.Core.List.{reverse, reverse-cons}
use mathlib.Core.Path.{subst}
use bindxdb.Plugin.Lifecycle.States.{state-cases, start_found-begin}
use bindxdb.Plugin.Lifecycle.Runs.{is_started_lem}
use bindxdb.Prelude.{
  ℕ, String, true, some, List, [], ◌∷◌, ◌++◌, ◌≡◌, ◌≢◌, ◌↔◌, refl, sym, ◌∙◌, Dict, lookup,
  lookup-insert, ◌==◌, eq_iff, eq_self, contains, contains-append, All, arith, Bool-cases,
  Option-cases, List-cases, inl, inr, ok,
}
use bindxdb.Plugin.Graph.{PluginState, started, initialized}
use bindxdb.Plugin.Registry.{
  PluginInfo, PluginRegistry, validate_dependencies, resolve_dependencies,
}
use bindxdb.Plugin.Lock.{readers, fatal, get_plugin_info}
use bindxdb.Plugin.Lifecycle.{
  LifecycleManager, StartupConfig, provided_by, provide_one, provide, announce, begin, begin_loaded,
  start_found, config_of, put, add_hooks,
}
use bindxdb.Plugin.Lifecycle.Methods.{
  is_started, start_plugin, stop_plugin, start_each, unhealthy, health_check, start_discovered,
  stop_each, stop_plugins,
}

module _ {P D C : Type 0} (lm : LifecycleManager P D C) where
  stop_each-fatal :
      (n : ℕ) (id : String) (ids : List String) (r : PluginRegistry P D)
      → stop_each lm (readers n) (id ∷ ids) r ≡ fatal
  unfolding stop_each stop_plugin get_plugin_info
  stop_each-fatal n id ids r = refl

  stop_each-append :
      (n : ℕ) (ids : List String) (id : String) (r : PluginRegistry P D)
      → stop_each lm (readers n) (ids ++ id ∷ []) r ≡ fatal
  stop_each-append n [] id r = stop_each-fatal n id [] r
  stop_each-append n (i ∷ ids) id r = stop_each-fatal n i (ids ++ id ∷ []) r

  -- While the lock is not held by a writer, a StopPlugins with a plugin in the order, and a StartPlugins that puts one
  -- in the order and has discovered its plugins, end the process.
  pub start_discovered-fatal :
      (n : ℕ) (config : StartupConfig) (r s : PluginRegistry P D) (first : String)
      (later : List String)
      → validate_dependencies r ≡ ok tt
      → resolve_dependencies r ≡ some (ok s)
      → s.plugin_order ≡ first ∷ later
      → (start_discovered lm (readers n) config r ≡ fatal) × (stop_plugins lm (readers n) s ≡ fatal)
  unfolding start_discovered start_each start_plugin get_plugin_info stop_plugins
  start_discovered-fatal n config r s first later valid resolved order = (
    rw (start_discovered, valid, resolved, order) refl,
    rw (stop_plugins, order, reverse-cons first later, stop_each-append n (reverse later) first s)
        refl,
  )

is_started_iff : (s : PluginState) → (is_started s ≡ true) ↔ (s ≡ started)
is_started_iff s = (is_started_lem s, λ e. rw e refl)

module _ {P D : Type 0} where
  -- A plugin that is listed under a capability.
  abbrev pub Offers : PluginRegistry P D → String → String → Type 0
  Offers r id capability =
      (ids : List String) × (lookup capability r.capabilities ≡ some ids) × (contains id ids ≡ true)

module _ {P D C : Type 0} (lm : LifecycleManager P D C) where
  provide_one-Offers :
      (id capability : String) (r : PluginRegistry P D)
      → Offers (provide_one lm id capability r) id capability
  unfolding provide_one contains
  provide_one-Offers id capability r =
      let ids = provided_by capability r.capabilities in
      (
        ids ++ id ∷ [],
        ground (
          arith,
          lookup-insert capability capability (ids ++ id ∷ []) r.capabilities,
          eq_self capability,
        ),
        ground (arith, contains-append id ids (id ∷ []), eq_self id),
      )

  provide_one_keep :
      (id at capability other : String) (r : PluginRegistry P D)
      → Offers r id other
      → Offers (provide_one lm at capability r) id other
  unfolding provide_one provided_by
  provide_one_keep id at capability other r (ids, found, mem) =
      elim (Bool-cases (capability == other)) [
        | inl t ↦ (
          ids ++ at ∷ [],
          (rw
              (
                lookup-insert capability other (provided_by capability r.capabilities ++ at ∷ [])
                    r.capabilities,
                t,
              )
              (rw ((eq_iff capability other).0 t, provided_by, found) refl)),
          ground (arith, contains-append id ids (at ∷ []), mem),
        )
        | inr n ↦ (
          ids,
          rw
              (
                lookup-insert capability other (provided_by capability r.capabilities ++ at ∷ [])
                    r.capabilities,
                n,
              )
              found,
          mem,
        )
      ]

  provide_keep :
      (id other : String) (cs : List String) (r : PluginRegistry P D)
      → Offers r id other
      → Offers (provide lm id cs r) id other
  unfolding provide
  provide_keep id other [] r h = h
  provide_keep id other (c ∷ cs) r h =
      provide_keep id other cs (provide_one lm id c r) (provide_one_keep id id c other r h)

  provide-Offers :
      (id : String) (cs : List String) (r : PluginRegistry P D)
      → All (λ c. Offers (provide lm id cs r) id c) cs
  unfolding provide
  provide-Offers id [] r = tt
  provide-Offers id (c ∷ cs) r = (
    provide_keep id c cs (provide_one lm id c r) (provide_one-Offers id c r),
    provide-Offers id cs (provide_one lm id c r),
  )

  begin-Offers :
      (id : String) (info : PluginInfo P D) (r s : PluginRegistry P D)
      → begin lm id info r ≡ (s, ok tt)
      → All (λ c. Offers s id c) info.metadata.provides
  unfolding begin announce
  begin-Offers id info r s e = elim (Option-cases (lm.ops.start info.instance_of).1) [
    | inl f ↦
        let i = record info { instance_of = (lm.ops.start info.instance_of).0; state = started } in
        let same : announce lm id i r ≡ s = ground (arith, e, f) in
        subst (λ (q : PluginRegistry P D). All (λ c. Offers q id c) info.metadata.provides) same
          (provide-Offers id info.metadata.provides
            (add_hooks lm id (lm.ops.get_hooks i.instance_of) (put lm id i r)))
    | inr (x, f) ↦ absurd (ground (arith, e, f))
  ]

  unhealthy_nil :
      (ps : Dict (PluginInfo P D))
      → (unhealthy lm ps ≡ [])
        ↔ All
            (λ (p : String × PluginInfo P D).
              (p.1.state ≡ started) × (lm.ops.ready p.1.instance_of ≡ true))
            ps
  unfolding unhealthy
  unhealthy_nil [] = ground arith
  unhealthy_nil ((id, info) ∷ rest) = ground (
    arith,
    unhealthy_nil rest,
    is_started_iff info.state,
    Bool-cases (is_started info.state),
    Bool-cases (lm.ops.ready info.instance_of),
  )

  -- Where StartPlugin starts a plugin that is found and is not running, the plugin is afterwards listed under each of
  -- the capabilities that its metadata, as registered before, provides.
  pub start_found-Offers :
      (id : String) (info : PluginInfo P D) (r s : PluginRegistry P D)
      → info.state ≢ started
      → start_found lm id info r ≡ (s, ok tt)
      → All (λ c. Offers s id c) info.metadata.provides
  unfolding start_found begin_loaded
  start_found-Offers id info r s idle e = elim (state-cases info.state) [
    | inl a ↦ absurd (idle a)
    | inr (inl a) ↦ absurd (ground (arith, e, a))
    | inr (inr (inl a)) ↦ elim (Option-cases (lm.ops.init info.instance_of (config_of lm id)).1) [
      | inl f ↦
          begin-Offers id
            (record info {
              instance_of = (lm.ops.init info.instance_of (config_of lm id)).0;
              state = initialized;
            })
            r s (ground (arith, e, a, f))
      | inr (x, f) ↦ absurd (ground (arith, e, a, f))
    ]
    | inr (inr (inr (a, b, c))) ↦
        begin-Offers id info r s (sym (start_found-begin lm id info r a b c) ∙ e)
  ]

  -- HealthCheck returns no error exactly when every registered plugin is started and answers Ready with true.
  pub health_check_iff :
      (r : PluginRegistry P D)
      → (health_check lm r ≡ ok tt)
        ↔ All
            (λ (p : String × PluginInfo P D).
              (p.1.state ≡ started) × (lm.ops.ready p.1.instance_of ≡ true))
            r.plugins
  unfolding health_check
  health_check_iff r = ground (arith, unhealthy_nil r.plugins, List-cases (unhealthy lm r.plugins))
