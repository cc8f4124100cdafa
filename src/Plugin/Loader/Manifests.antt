-- ===== src/Plugin/Loader/Manifests.antt =====
-- What readManifest asks of a manifest, and the defaults that it fills in.
use mathlib.Core.Path.{subst}
use bindxdb.Prelude.{
  go, String, false, ◌≡◌, ◌≢◌, refl, sym, ◌∙◌, ◌&&◌, ◌==◌, eq_iff, arith, Bool-cases, Result-cases,
  inl, inr, ok,
}
use bindxdb.Plugin.Graph.{PluginMetadata}
use bindxdb.Plugin.Loader.{PluginManifest, Surroundings, read_manifest, default_type, default_path}

go_nonempty : ("go" == "") ≡ false
unfolding go
go_nonempty = refl

module _ {P : Type 0} (os : Surroundings P) where
  default_path_keeps :
      (path : String) (m : PluginManifest)
      → ((default_path os path m).metadata ≡ m.metadata) × ((default_path os path m).type ≡ m.type)
  unfolding default_path
  default_path_keeps path m = elim (Bool-cases ((m.path == "") && (m.type == "go"))) [
    | inl t ↦ (rw (default_path, t) refl, rw (default_path, t) refl)
    | inr t ↦ (rw (default_path, t) refl, rw (default_path, t) refl)
  ]

  default_type_keeps :
      (m : PluginManifest)
      → ((default_type os m).metadata ≡ m.metadata) × ((default_type os m).type ≢ "")
  unfolding default_type
  default_type_keeps m = elim (Bool-cases (m.type == "")) [
    | inl t ↦ (
      rw (default_type, t) refl,
      rw (default_type, t) (λ e. ground (arith, (eq_iff "go" "").1 e, go_nonempty)),
    )
    | inr n ↦ (
      rw (default_type, n) refl,
      rw (default_type, n) (λ e. ground (arith, (eq_iff m.type "").1 e, n)),
    )
  ]

  -- The defaults change neither the metadata nor a type to an empty one.
  defaults_keep :
      (path : String) (d : PluginManifest)
      → ((default_path os path (default_type os d)).metadata ≡ d.metadata)
        × ((default_path os path (default_type os d)).type ≢ "")
  defaults_keep path d =
      let (a, b) = default_path_keeps path (default_type os d) in
      let (a', b') = default_type_keeps d in (a ∙ a', λ e. b' (sym b ∙ e))

  -- A manifest that is read has an id, a name, a version and a type.
  pub read_manifest_complete :
      (path : String) (m : PluginManifest)
      → read_manifest os path ≡ ok m
      → (m.metadata.id ≢ "") × (m.metadata.name ≢ "") × (m.metadata.version ≢ "") × (m.type ≢ "")
  unfolding read_manifest
  read_manifest_complete path m e = elim (Result-cases (os.read_file path)) [
    | inr (x, f) ↦ absurd (ground (arith, e, f))
    | inl (text, f) ↦ elim (Result-cases (os.unmarshal text)) [
      | inr (x, g) ↦ absurd (ground (arith, e, f, g))
      | inl (d, g) ↦
          let (a, b, c, same) : (d.metadata.id ≢ "")
              × (d.metadata.name ≢ "")
              × (d.metadata.version ≢ "")
              × (default_path os path (default_type os d) ≡ m) =
            ground (
              arith,
              e,
              f,
              g,
              eq_iff d.metadata.id "",
              eq_iff d.metadata.name "",
              eq_iff d.metadata.version "",
            ) in
          subst
            (λ (k : PluginManifest).
              (k.metadata.id ≢ "")
              × (k.metadata.name ≢ "")
              × (k.metadata.version ≢ "")
              × (k.type ≢ ""))
            same
            (subst
              (λ (k : PluginMetadata).
                (k.id ≢ "")
                × (k.name ≢ "")
                × (k.version ≢ "")
                × ((default_path os path (default_type os d)).type ≢ ""))
              (sym (defaults_keep path d).0) (a, b, c, (defaults_keep path d).1))
    ]
  ]
