-- ===== src/Plugin/Registry/Hooks.antt =====
-- What RegisterPlugin and AddHook write, and what they leave as it was.
use bindxdb.Prelude.{
  ap, String, true, false, none, some, List, [], ◌∷◌, ◌++◌, ◌≡◌, refl, Dict, lookup, insert,
  lookup-insert, ◌==◌, eq_iff, eq_self, has_key-insert, has_key, if◌then◌else◌, arith, Bool-cases,
  Option-cases, inl, inr, ok, ℤ, ◌∙◌,
}
use bindxdb.Plugin.Graph.{PluginMetadata, loaded}
use bindxdb.Plugin.Registry.{
  register_plugin, execute_hooks, run_hooks, registered, PluginInfo, PluginRegistry, HookHandler,
  HookRegistration, add_hook, note_hook,
}

run_hooks-one :
    {D : Type 0} (hook_type : String) (one : HookRegistration D) (d : D)
    → (run_hooks hook_type (one ∷ []) d).1 ≡ (one.handler one.plugin_id d).1
unfolding run_hooks
run_hooks-one hook_type one d = elim (Option-cases (one.handler one.plugin_id d).0) [
  | inl e ↦ rw (run_hooks, e) refl
  | inr (x, e) ↦ rw (run_hooks, e) refl
]

module _ {P D : Type 0} where
  -- RegisterPlugin only succeeds for a new id, and adds that plugin in the loaded state.
  pub register_plugin-plugins :
      (p : P) (metadata : PluginMetadata) (r s : PluginRegistry P D)
      → register_plugin p metadata r ≡ ok s
      → (has_key metadata.id r.plugins ≡ false)
        × ((j : String)
            → has_key j s.plugins ≡ (if metadata.id == j then true else has_key j r.plugins))
        × (info : PluginInfo P D) × (lookup metadata.id s.plugins ≡ some info)
        × (info.state ≡ loaded)
        × (info.instance_of ≡ p)
        × (info.metadata ≡ metadata)
  unfolding register_plugin
  register_plugin-plugins p metadata r s added = elim (Bool-cases (has_key metadata.id r.plugins)) [
    | inl t ↦ absurd (ground (arith, added, t))
    | inr n ↦
        let info : PluginInfo P D = record {
          metadata = metadata;
          instance_of = p;
          state = loaded;
          hooks = [];
          dependents = [];
        } in
        let same : s.plugins ≡ insert metadata.id info r.plugins = ground (arith, added, n) in
        (
          n,
          (λ j. rw (same) (has_key-insert metadata.id j info r.plugins)),
          info,
          rw (same) (
              ground
                (arith, lookup-insert metadata.id metadata.id info r.plugins, eq_self metadata.id)),
          refl,
          refl,
          refl,
        )
  ]

  -- A plugin that the first registry has is in the second one, in the same state and with the same metadata.
  abbrev pub Keeps : PluginRegistry P D → PluginRegistry P D → String → Type 0
  Keeps r s id =
      (info : PluginInfo P D)
      → lookup id r.plugins ≡ some info
      → (info' : PluginInfo P D) × (lookup id s.plugins ≡ some info')
        × (info'.state ≡ info.state)
        × (info'.metadata ≡ info.metadata)

  pub Keeps-refl : (r : PluginRegistry P D) (id : String) → Keeps r r id
  Keeps-refl r id info e = (info, e, refl, refl)

  pub Keeps-trans :
      (r s t : PluginRegistry P D) (id : String) → Keeps r s id → Keeps s t id → Keeps r t id
  Keeps-trans r s t id f g info e =
      let (info', e', st, md) = f info e in
      let (info'', e'', st', md') = g info' e' in (info'', e'', st' ∙ st, md' ∙ md)

  pub note_hook-state :
      (hook_type : String) (h : HookHandler D) (info : PluginInfo P D)
      → ((note_hook hook_type h info).state ≡ info.state)
        × ((note_hook hook_type h info).metadata ≡ info.metadata)
  unfolding note_hook
  note_hook-state hook_type h info = ground arith

  -- AddHook only succeeds for a registered plugin, and writes that plugin alone.
  pub add_hook-plugins :
      (sort : List (HookRegistration D) → List (HookRegistration D)) (id hook_type : String)
      (h : HookHandler D) (priority : ℤ) (r s : PluginRegistry P D)
      → add_hook sort id hook_type h priority r ≡ ok s
      → (old : PluginInfo P D) × (lookup id r.plugins ≡ some old)
        × (s.plugins ≡ insert id (note_hook hook_type h old) r.plugins)
  unfolding add_hook
  add_hook-plugins sort id hook_type h priority r s added =
      elim (Option-cases (lookup id r.plugins)) [
        | inl e ↦ ground (arith, added, e)
        | inr (old, e) ↦ (old, e, ground (arith, added, e))
      ]

  pub add_hook-Keeps :
      (sort : List (HookRegistration D) → List (HookRegistration D)) (id hook_type : String)
      (h : HookHandler D) (priority : ℤ) (r s : PluginRegistry P D) (other : String)
      → add_hook sort id hook_type h priority r ≡ ok s
      → Keeps r s other
  add_hook-Keeps sort id hook_type h priority r s other added info e =
      let (old, f, w) = add_hook-plugins sort id hook_type h priority r s added in
      elim (Bool-cases (id == other)) [
        | inl t ↦ (
          note_hook hook_type h info,
          ground (
            arith,
            w,
            lookup-insert id other (note_hook hook_type h old) r.plugins,
            t,
            eq_iff id other,
            f,
            e,
          ),
          (note_hook-state hook_type h info).0,
          (note_hook-state hook_type h info).1,
        )
        | inr n ↦ (
          info,
          ground (arith, w, lookup-insert id other (note_hook hook_type h old) r.plugins, n, e),
          refl,
          refl,
        )
      ]

  -- ExecuteHooks reads the hooks alone.
  pub execute_hooks-hooks :
      (hook_type : String) (d : D) (r s : PluginRegistry P D)
      → r.hooks ≡ s.hooks
      → execute_hooks hook_type d r ≡ execute_hooks hook_type d s
  unfolding execute_hooks
  execute_hooks-hooks hook_type d r s e =
      ap
        (λ (hs : Dict (List (HookRegistration D))). run_hooks hook_type (registered hook_type hs) d)
        e

  -- A handler that AddHook registers as the first of its type is the one that ExecuteHooks then calls.
  pub execute_hooks-add_hook :
      (sort : List (HookRegistration D) → List (HookRegistration D)) (id hook_type : String)
      (h : HookHandler D) (priority : ℤ) (r s : PluginRegistry P D) (d : D)
      → ((one : HookRegistration D) → sort (one ∷ []) ≡ one ∷ [])
      → lookup hook_type r.hooks ≡ none
      → add_hook sort id hook_type h priority r ≡ ok s
      → (execute_hooks hook_type d s).1 ≡ (h id d).1
  unfolding add_hook execute_hooks registered
  execute_hooks-add_hook sort id hook_type h priority r s d single fresh added =
      elim (Option-cases (lookup id r.plugins)) [
        | inl e ↦ absurd (ground (arith, added, e))
        | inr (old, e) ↦
            let one : HookRegistration D = record {
              plugin_id = id;
              handler = h;
              priority = priority;
            } in
            let there : s.hooks
                ≡ insert hook_type (sort (registered hook_type r.hooks ++ one ∷ [])) r.hooks =
              ground (arith, added, e) in
            let alone : registered hook_type r.hooks ++ one ∷ [] ≡ one ∷ [] =
              rw (registered, fresh) refl in
            let found : registered hook_type s.hooks ≡ one ∷ [] =
              rw
                (
                  there,
                  registered,
                  lookup-insert hook_type hook_type
                      (sort (registered hook_type r.hooks ++ one ∷ [])) r.hooks,
                  eq_self hook_type,
                )
                (ap sort alone ∙ single one) in
            ap (λ (hs : List (HookRegistration D)). (run_hooks hook_type hs d).1) found
            ∙ run_hooks-one hook_type one d
      ]
