-- ===== src/Plugin/Loader/Loading.antt =====
-- What the loader loads, and what it holds afterwards.
use mathlib.Core.Path.{subst}
use bindxdb.Plugin.Registry.Hooks.{register_plugin-plugins}
use bindxdb.Prelude.{
  String, Option, true, false, some, List, [], ◌∷◌, ◌≡◌, refl, sym, ap, ◌∙◌, lookup, insert, delete,
  has_key, has_key-insert, ◌⊎◌, has_key-delete, lookup-insert, ◌==◌, eq_iff, eq_self, arith,
  Bool-cases, Result-cases, List-cases, inl, inr, ok, err, Result, has_key-nil,
}
use bindxdb.Plugin.Graph.{loaded}
use bindxdb.Plugin.Registry.{PluginInfo, PluginRegistry, register_plugin}
use bindxdb.Plugin.Loader.{
  PluginManifest, PluginOps, Surroundings, DirEntry, Loader, LoadError, already_loaded, of_registry,
  open_symbol, new_loader, read_manifest, load_go_plugin, load_instance, load_manifest, load_plugin,
  is_manifest, load_entries, load_plugins_from_dir, unload_found,
}

-- Every loaded plugin is registered.
abbrev pub Consistent : {P D : Type 0} → Loader P D → Type 0
Consistent l = (id : String) → has_key id l.loaded ≡ true → has_key id l.registry.plugins ≡ true

pub new_loader-Consistent : {P D : Type 0} (r : PluginRegistry P D) → Consistent (new_loader r)
new_loader-Consistent r id e = absurd (ground (arith, e, has_key-nil String id))

module _ {P D C : Type 0} (os : Surroundings P) (ops : PluginOps P D C) where
  load_instance_id :
      (m : PluginManifest) (p : P)
      → load_instance os ops m ≡ ok p
      → (m.type ≡ "go") × ((ops.metadata p).id ≡ m.metadata.id)
  unfolding load_instance load_go_plugin
  load_instance_id m p e = ground (
    arith,
    e,
    eq_iff m.type "go",
    Result-cases (open_symbol os m),
    eq_iff m.type "wasm",
    eq_iff m.type "external",
    Bool-cases (os.is_not_exist m.path),
    eq_iff (ops.metadata p).id m.metadata.id,
  )

  -- A manifest is refused and the loader left as it was, or its plugin is registered and noted.
  load_manifest-cases :
      (path : String) (m : PluginManifest) (l : Loader P D)
      → ((x : LoadError) × (load_manifest os ops path m l ≡ (l, err x)))
        ⊎ ((p : P) × (r : PluginRegistry P D) × (has_key m.metadata.id l.loaded ≡ false)
            × (load_instance os ops m ≡ ok p)
            × (register_plugin p (ops.metadata p) l.registry ≡ ok r)
            × (load_manifest os ops path m l
                ≡ (record { registry = r; loaded = insert m.metadata.id path l.loaded }, ok tt)))
  unfolding load_manifest
  load_manifest-cases path m l = elim (Bool-cases (has_key m.metadata.id l.loaded)) [
    | inl t ↦ inl (already_loaded m.metadata.id, rw (load_manifest, t) refl)
    | inr n ↦ elim (Result-cases (load_instance os ops m)) [
      | inr (x, f) ↦ inl (x, rw (load_manifest, n, f) refl)
      | inl (p, f) ↦ elim (Result-cases (register_plugin p (ops.metadata p) l.registry)) [
        | inr (x, g) ↦ inl (of_registry x, rw (load_manifest, n, f, g) refl)
        | inl (r, g) ↦ inr (p, r, n, f, g, rw (load_manifest, n, f, g) refl)
      ]
    ]
  ]

  load_manifest-Consistent :
      (path : String) (m : PluginManifest) (l : Loader P D)
      → Consistent l
      → Consistent (load_manifest os ops path m l).0
  load_manifest-Consistent path m l h id here = elim (load_manifest-cases path m l) [
    | inl (x, e) ↦
        rw
          (ap (λ (o : Loader P D × Result LoadError (Unit {0})). has_key id o.0.registry.plugins) e)
          (h id (
            sym (ap (λ (o : Loader P D × Result LoadError (Unit {0})). has_key id o.0.loaded) e)
            ∙ here))
    | inr (p, r, n, f, g, e) ↦
        let registered = register_plugin-plugins p (ops.metadata p) l.registry r g in
        let here' : has_key id (insert m.metadata.id path l.loaded) ≡ true =
          sym (ap (λ (o : Loader P D × Result LoadError (Unit {0})). has_key id o.0.loaded) e)
          ∙ here in
        (ap (λ (o : Loader P D × Result LoadError (Unit {0})). has_key id o.0.registry.plugins) e)
        ∙ (ground (
          arith,
          registered.1 id,
          (load_instance_id m p f).1,
          has_key-insert m.metadata.id id path l.loaded,
          here',
          Bool-cases (has_key id l.loaded),
          h id,
        ))
  ]

  -- A failed LoadPlugin leaves the loader as it was.
  load_plugin-cases :
      (path : String) (l : Loader P D)
      → ((x : LoadError) × (load_plugin os ops path l ≡ (l, err x)))
        ⊎ ((m : PluginManifest) × (read_manifest os path ≡ ok m)
            × (load_plugin os ops path l ≡ load_manifest os ops path m l))
  unfolding load_plugin
  load_plugin-cases path l = elim (Result-cases (read_manifest os path)) [
    | inr (x, f) ↦ inl (x, rw (load_plugin, f) refl)
    | inl (m, f) ↦ inr (m, f, rw (load_plugin, f) refl)
  ]

  load_plugin-Consistent :
      (path : String) (l : Loader P D) → Consistent l → Consistent (load_plugin os ops path l).0
  load_plugin-Consistent path l h = elim (load_plugin-cases path l) [
    | inl (x, e) ↦
        subst (λ (o : Loader P D × Result LoadError (Unit {0})). Consistent o.0) (sym e) h
    | inr (m, f, e) ↦
        subst (λ (o : Loader P D × Result LoadError (Unit {0})). Consistent o.0) (sym e)
          (load_manifest-Consistent path m l h)
  ]

  load_entries-Consistent :
      (d : String) (es : List DirEntry) (l : Loader P D)
      → Consistent l
      → Consistent (load_entries os ops d es l).0
  unfolding load_entries
  load_entries-Consistent d [] l h = h
  load_entries-Consistent d (e ∷ es) l h = elim (Bool-cases (is_manifest os ops e)) [
    | inl t ↦
        rw (load_entries, t)
          (load_entries-Consistent d es (load_plugin os ops (os.join d e.name) l).0
            (load_plugin-Consistent (os.join d e.name) l h))
    | inr n ↦ rw (load_entries, n) (load_entries-Consistent d es l h)
  ]

  load_plugins_from_dir-Consistent :
      (d : String) (l : Loader P D) → Consistent l → Consistent (load_plugins_from_dir os ops d l).0
  unfolding load_plugins_from_dir
  load_plugins_from_dir-Consistent d l h = elim (Result-cases (os.read_dir d)) [
    | inr (x, e) ↦ rw (load_plugins_from_dir, e) h
    | inl (es, e) ↦ rw (load_plugins_from_dir, e) (load_entries-Consistent d es l h)
  ]

  unload_found-Consistent :
      (id : String) (info : PluginInfo P D) (l : Loader P D)
      → Consistent l
      → Consistent (unload_found os ops id info l).0
  unfolding unload_found
  unload_found-Consistent id info l h j = elim (List-cases info.dependents) [
    | inl e ↦
        rw (unload_found, e)
          (λ here. ground (
            arith,
            has_key-delete id j l.loaded,
            has_key-delete id j l.registry.plugins,
            here,
            h j,
            Bool-cases (id == j),
          ))
    | inr (y, ys, e) ↦ rw (unload_found, e) (h j)
  ]

  -- Where every loaded plugin is registered, that is still so after LoadPlugin of any manifest, after
  -- LoadPluginsFromDir, and after UnloadPlugin of a plugin that is found.
  pub Consistent-kept :
      (path d id : String) (info : PluginInfo P D) (l : Loader P D)
      → Consistent l
      → Consistent (load_plugin os ops path l).0
        × Consistent (load_plugins_from_dir os ops d l).0
        × Consistent (unload_found os ops id info l).0
  Consistent-kept path d id info l h = (
    load_plugin-Consistent path l h,
    load_plugins_from_dir-Consistent d l h,
    unload_found-Consistent id info l h,
  )

  -- LoadPlugin only succeeds for a manifest of type go whose id is neither loaded nor registered; the plugin is then
  -- noted with the path of its manifest, and registered in the loaded state under that id.
  pub load_plugin_ok :
      (path : String) (l l' : Loader P D)
      → load_plugin os ops path l ≡ (l', ok tt)
      → (m : PluginManifest) × (info : PluginInfo P D) × (read_manifest os path ≡ ok m)
        × (m.type ≡ "go")
        × (has_key m.metadata.id l.loaded ≡ false)
        × (has_key m.metadata.id l.registry.plugins ≡ false)
        × (lookup m.metadata.id l'.loaded ≡ some path)
        × (lookup m.metadata.id l'.registry.plugins ≡ some info)
        × (info.state ≡ loaded)
  load_plugin_ok path l l' e = elim (load_plugin-cases path l) [
    | inl (x, f) ↦ absurd (ground (arith, e, f))
    | inr (m, read, f) ↦ elim (load_manifest-cases path m l) [
      | inl (x, g) ↦ absurd (ground (arith, e, f, g))
      | inr (p, r, fresh, inst, reg, g) ↦
          let (ty, same_id) = load_instance_id m p inst in
          let done' = register_plugin-plugins p (ops.metadata p) l.registry r reg in
          let a : l'.loaded ≡ insert m.metadata.id path l.loaded = ground (arith, e, f, g) in
          let b : l'.registry ≡ r = ground (arith, e, f, g) in
          (
            m,
            done'.2,
            read,
            ty,
            fresh,
            ap (λ (i : String). has_key i l.registry.plugins) (sym same_id) ∙ done'.0,
            rw (a) (
                ground (
                  arith,
                  lookup-insert m.metadata.id m.metadata.id path l.loaded,
                  eq_self m.metadata.id,
                )),
            ap (λ (q : PluginRegistry P D). lookup m.metadata.id q.plugins) b
                ∙ ap (λ (i : String). lookup i r.plugins) (sym same_id)
                ∙ done'.3,
            done'.4,
          )
    ]
  ]

  -- Where UnloadPlugin succeeds, it deletes the plugin from the registry, and leaves the rest of it.
  pub unload_found_ok :
      (id : String) (info : PluginInfo P D) (l l' : Loader P D) (stop : Option P)
      → unload_found os ops id info l ≡ (l', stop, ok tt)
      → l'.registry ≡ (record (l.registry) { plugins = delete id l.registry.plugins })
  unfolding unload_found
  unload_found_ok id info l l' stop e = elim (List-cases info.dependents) [
    | inl f ↦ ground (arith, e, f)
    | inr (y, ys, f) ↦ absurd (ground (arith, e, f))
  ]

  pub has_key-unload_found :
      (id : String) (info : PluginInfo P D) (l l' : Loader P D) (stop : Option P)
      → unload_found os ops id info l ≡ (l', stop, ok tt)
      → has_key id l'.registry.plugins ≡ false
  has_key-unload_found id info l l' stop e =
      ap (λ (r : PluginRegistry P D). has_key id r.plugins) (unload_found_ok id info l l' stop e)
      ∙ ground (arith, has_key-delete id id l.registry.plugins, eq_self id)
