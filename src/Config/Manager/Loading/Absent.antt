-- ===== src/Config/Manager/Loading/Absent.antt =====
-- What Load leaves alone: the validators, and a key that no source provides.
use bindxdb.Prelude.{
  String, some, List, [], ◌∷◌, ◌≡◌, refl, sym, ◌∙◌, ap, Dict, lookup, ℤ, leb_ℤ, Any, Any-map, arith,
  Option-cases, Result-cases, Bool-cases, inl, inr, insert,
}
use bindxdb.Go.Value.{Value, object}
use bindxdb.Config.Types.{ConfigManager, ConfigValue, Source}
use bindxdb.Config.Manager.{
  put_leaf, apply_config, load_source, load_sources, load_defaults, load_values, default_value,
}
use bindxdb.Config.Manager.Loading.{leaves, put_leaves, flatten-leaves}
use bindxdb.Config.Manager.Loading.Precedence.{
  Provides, Gives, load_sources-Covered, load_sources-origin,
}

module _ {F S W : Type 0} where
  put_leaf-validators :
      (p : ℤ) (k : String) (v : Value F) (m : ConfigManager F S W)
      → (put_leaf p k v m).validators ≡ m.validators
  unfolding put_leaf
  put_leaf-validators p k v m = elim (Option-cases (lookup k m.values)) [
    | inl e ↦ rw (put_leaf, e) refl
    | inr (cv, e) ↦ elim (Bool-cases (leb_ℤ p cv.source)) [
      | inl t ↦ rw (put_leaf, e, t) refl
      | inr n ↦ rw (put_leaf, e, n) refl
    ]
  ]

  put_leaves-validators :
      (p : ℤ) (ls : List (String × Value F)) (m : ConfigManager F S W)
      → (put_leaves p ls m).validators ≡ m.validators
  put_leaves-validators p [] m = refl
  put_leaves-validators p ((k, v) ∷ ls) m =
      put_leaves-validators p ls (put_leaf p k v m) ∙ put_leaf-validators p k v m

  load_source-validators :
      (s : Source F) (m : ConfigManager F S W) → (load_source s m).validators ≡ m.validators
  unfolding load_source apply_config
  load_source-validators s m = elim (Result-cases s.loaded) [
    | inl (config, e) ↦
        rw (load_source, e)
          (ap (λ (n : ConfigManager F S W). n.validators)
              (flatten-leaves s.priority "" (object config) m)
            ∙ put_leaves-validators s.priority (leaves "" (object config)) m)
    | inr (x, e) ↦ rw (load_source, e) refl
  ]

  load_sources-validators :
      (ss : List (Source F)) (m : ConfigManager F S W)
      → (load_sources ss m).validators ≡ m.validators
  unfolding load_sources
  load_sources-validators [] m = refl
  load_sources-validators (s ∷ ss) m =
      load_sources-validators ss (load_source s m) ∙ load_source-validators s m

  load_defaults-validators :
      (ds : Dict (Value F)) (m : ConfigManager F S W)
      → (load_defaults ds m).validators ≡ m.validators
  unfolding load_defaults
  load_defaults-validators [] m = refl
  load_defaults-validators ((k, v) ∷ ds) m =
      load_defaults-validators ds (record m { values = insert k (default_value v) m.values })

  pub load_values-validators : (m : ConfigManager F S W) → (load_values m).validators ≡ m.validators
  unfolding load_values
  load_values-validators m =
      load_sources-validators m.sources (load_defaults m.defaults m)
      ∙ load_defaults-validators m.defaults m

  load_sources_absent :
      (j : String) (ss : List (Source F)) (m : ConfigManager F S W) (cv : ConfigValue F)
      → lookup j m.values ≡ some cv
      → ¬ Any (Provides j) ss
      → lookup j (load_sources ss m).values ≡ some cv
  load_sources_absent j ss m cv e absent =
      let covered = load_sources-Covered j cv.source ss m (cv, e, omega arith) in
      elim (load_sources-origin j ss m covered.0 covered.1) [
        | inl g ↦ covered.1 ∙ sym g ∙ e
        | inr given ↦ absurd (
            absent (
              Any-map {P = Gives j covered.0} {Q = Provides j}
                (λ s (config, l, from, h).
                  (config, l, Any-map (λ l' (k, w). k) (leaves "" (object config)) h))
                ss given))
      ]

  -- A key that has a value once the defaults are loaded, and that no source provides, has that value after Load.
  pub load_values_absent :
      (j : String) (m : ConfigManager F S W) (cv : ConfigValue F)
      → lookup j (load_defaults m.defaults m).values ≡ some cv
      → ¬ Any (Provides j) m.sources
      → lookup j (load_values m).values ≡ some cv
  unfolding load_values
  load_values_absent j m cv e absent =
      load_sources_absent j m.sources (load_defaults m.defaults m) cv e absent
