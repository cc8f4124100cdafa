-- ===== src/Config/Manager/Loading/Precedence.antt =====
-- What Load makes of the values: which source a value comes from, and when it stays.
use bindxdb.Prelude.{
  String, false, some, List, [], ◌∷◌, ◌≡◌, refl, sym, ◌∙◌, arith, Dict, lookup, insert, has_key,
  lookup-insert, ok, err, ℤ, ◌≤ℤ◌, ◌⊎◌, inl, inr, Result-cases, All, Any,
}
use mathlib.Core.Path.{subst}
use bindxdb.Go.Value.{Value, Fields, object}
use bindxdb.Config.Types.{ConfigManager, ConfigValue, Source}
use bindxdb.Config.Manager.{
  put_leaf, apply_config, load_defaults, load_source, load_sources, load_values, default_value,
}
use bindxdb.Config.Manager.Loading.{
  leaves, put_leaves, flatten-leaves, put_leaf-keeps, put_leaf-Covered, put_leaf-Covered_self,
  put_leaf-origin, Covered,
}

module _ {F : Type 0} where
  -- A source has loaded a tree with a value, that is no map, at the key.
  abbrev pub Provides : String → Source F → Type 0
  Provides j s =
      (config : Fields F) × (s.loaded ≡ ok config)
      × Any (λ (l : String × Value F). l.0 ≡ j) (leaves "" (object config))

  -- The value is one that the source has loaded for the key, with its priority.
  abbrev pub Gives : String → ConfigValue F → Source F → Type 0
  Gives j cv s =
      (config : Fields F) × (s.loaded ≡ ok config)
      × (cv.source ≡ s.priority)
      × Any (λ (l : String × Value F). (l.0 ≡ j) × (cv.value ≡ l.1)) (leaves "" (object config))

module _ {F S W : Type 0} where
  put_leaves-keeps :
      (p : ℤ) (j : String) (ls : List (String × Value F)) (m : ConfigManager F S W)
      (cv : ConfigValue F)
      → lookup j m.values ≡ some cv
      → p ≤ℤ cv.source
      → lookup j (put_leaves p ls m).values ≡ some cv
  put_leaves-keeps p j [] m cv e le = e
  put_leaves-keeps p j ((k, v) ∷ ls) m cv e le =
      put_leaves-keeps p j ls (put_leaf p k v m) cv (put_leaf-keeps p k j v m cv e le) le

  put_leaves-Covered :
      (p q : ℤ) (j : String) (ls : List (String × Value F)) (m : ConfigManager F S W)
      → Covered m j q
      → Covered (put_leaves p ls m) j q
  put_leaves-Covered p q j [] m c = c
  put_leaves-Covered p q j ((k, v) ∷ ls) m c =
      put_leaves-Covered p q j ls (put_leaf p k v m) (put_leaf-Covered p q k j v m c)

  put_leaves-Covered_self :
      (p : ℤ) (j : String) (ls : List (String × Value F)) (m : ConfigManager F S W)
      → Any (λ (l : String × Value F). l.0 ≡ j) ls
      → Covered (put_leaves p ls m) j p
  put_leaves-Covered_self p j [] m h = elim h [ ]
  put_leaves-Covered_self p j ((k, v) ∷ ls) m (inl e) =
      put_leaves-Covered p p j ls (put_leaf p k v m)
        (subst (λ (x : String). Covered (put_leaf p k v m) x p) e (put_leaf-Covered_self p k v m))
  put_leaves-Covered_self p j ((k, v) ∷ ls) m (inr h) =
      put_leaves-Covered_self p j ls (put_leaf p k v m) h

  put_leaves-origin :
      (p : ℤ) (j : String) (ls : List (String × Value F)) (m : ConfigManager F S W)
      (cv : ConfigValue F)
      → lookup j (put_leaves p ls m).values ≡ some cv
      → (lookup j m.values ≡ some cv)
        ⊎ ((cv.source ≡ p) × Any (λ (l : String × Value F). (l.0 ≡ j) × (cv.value ≡ l.1)) ls)
  put_leaves-origin p j [] m cv h = inl h
  put_leaves-origin p j ((k, v) ∷ ls) m cv h =
      elim (put_leaves-origin p j ls (put_leaf p k v m) cv h) [
        | inr (s, a) ↦ inr (s, inr a)
        | inl e ↦ elim (put_leaf-origin p k j v m cv e) [
          | inl before ↦ inl before
          | inr (ke, se, ve) ↦ inr (se, inl (ke, ve))
        ]
      ]

  load_source-ok :
      (s : Source F) (m : ConfigManager F S W) (config : Fields F)
      → s.loaded ≡ ok config
      → load_source s m ≡ put_leaves s.priority (leaves "" (object config)) m
  unfolding load_source apply_config
  load_source-ok s m config e = rw (load_source, e) (flatten-leaves s.priority "" (object config) m)

  load_source-err :
      (s : Source F) (m : ConfigManager F S W) (e : String) → s.loaded ≡ err e → load_source s m ≡ m
  unfolding load_source
  load_source-err s m e h = rw (load_source, h) refl

  load_sources-keeps :
      (j : String) (ss : List (Source F)) (m : ConfigManager F S W) (cv : ConfigValue F)
      → lookup j m.values ≡ some cv
      → All (λ (s : Source F). s.priority ≤ℤ cv.source) ss
      → lookup j (load_sources ss m).values ≡ some cv
  unfolding load_sources
  load_sources-keeps j [] m cv e h = e
  load_sources-keeps j (s ∷ ss) m cv e (p, h) = elim (Result-cases s.loaded) [
    | inl (config, l) ↦
        load_sources-keeps j ss (load_source s m) cv
          (rw (load_source-ok s m config l)
            (put_leaves-keeps s.priority j (leaves "" (object config)) m cv e p))
          h
    | inr (x, l) ↦ load_sources-keeps j ss (load_source s m) cv (rw (load_source-err s m x l) e) h
  ]

  load_source-Covered :
      (j : String) (q : ℤ) (s : Source F) (m : ConfigManager F S W)
      → Covered m j q
      → Covered (load_source s m) j q
  load_source-Covered j q s m c = elim (Result-cases s.loaded) [
    | inl (config, l) ↦
        rw (load_source-ok s m config l)
          (put_leaves-Covered s.priority q j (leaves "" (object config)) m c)
    | inr (x, l) ↦ rw (load_source-err s m x l) c
  ]

  pub load_sources-Covered :
      (j : String) (q : ℤ) (ss : List (Source F)) (m : ConfigManager F S W)
      → Covered m j q
      → Covered (load_sources ss m) j q
  unfolding load_sources
  load_sources-Covered j q [] m c = c
  load_sources-Covered j q (s ∷ ss) m c =
      load_sources-Covered j q ss (load_source s m) (load_source-Covered j q s m c)

  -- After the sources are loaded, each of them that provides a key is covered there.
  load_sources-Covered_each :
      (j : String) (ss : List (Source F)) (m : ConfigManager F S W)
      → All (λ (s : Source F). Provides j s → Covered (load_sources ss m) j s.priority) ss
  unfolding load_sources
  load_sources-Covered_each j [] m = tt
  load_sources-Covered_each j (s ∷ ss) m = (
    λ (config, l, h). load_sources-Covered j s.priority ss (load_source s m) (
        rw (load_source-ok s m config l)
          (put_leaves-Covered_self s.priority j (leaves "" (object config)) m h)),
    load_sources-Covered_each j ss (load_source s m),
  )

  pub load_sources-origin :
      (j : String) (ss : List (Source F)) (m : ConfigManager F S W) (cv : ConfigValue F)
      → lookup j (load_sources ss m).values ≡ some cv
      → (lookup j m.values ≡ some cv) ⊎ Any (Gives j cv) ss
  unfolding load_sources
  load_sources-origin j [] m cv h = inl h
  load_sources-origin j (s ∷ ss) m cv h = elim (load_sources-origin j ss (load_source s m) cv h) [
    | inr a ↦ inr (inr a)
    | inl e ↦ elim (Result-cases s.loaded) [
      | inr (x, l) ↦ inl (
          subst (λ (n : ConfigManager F S W). lookup j n.values ≡ some cv) (load_source-err s m x l)
            e)
      | inl (config, l) ↦
          elim (put_leaves-origin s.priority j (leaves "" (object config)) m cv (
            subst (λ (n : ConfigManager F S W). lookup j n.values ≡ some cv)
              (load_source-ok s m config l) e)) [
                | inl before ↦ inl before
                | inr (p, a) ↦ inr (inl (config, l, p, a))
              ]
    ]
  ]

  load_defaults-lookup :
      (j : String) (ds : Dict (Value F)) (m : ConfigManager F S W)
      → has_key j ds ≡ false
      → lookup j (load_defaults ds m).values ≡ lookup j m.values
  unfolding load_defaults has_key lookup
  load_defaults-lookup j [] m h = refl
  load_defaults-lookup j ((k, v) ∷ ds) m h = ground (
    arith,
    h,
    load_defaults-lookup j ds (record m { values = insert k (default_value v) m.values }),
    lookup-insert k j (default_value v) m.values,
  )

  -- After Load, each source that provides a key stands there or has given way to a value from a source
  -- of at least its priority, in whatever order the sources are.
  pub load_values-Covered :
      (m : ConfigManager F S W) (key : String)
      → All (λ (s : Source F). Provides key s → Covered (load_values m) key s.priority) m.sources
  unfolding load_values
  load_values-Covered m key = load_sources-Covered_each key m.sources (load_defaults m.defaults m)

  -- A value that Load leaves at a key without a default is the one that stood there before, or one that a
  -- source has loaded for the key, with the priority of that source.
  pub load_values-origin :
      (m : ConfigManager F S W) (key : String) (cv : ConfigValue F)
      → has_key key m.defaults ≡ false
      → lookup key (load_values m).values ≡ some cv
      → (lookup key m.values ≡ some cv) ⊎ Any (Gives key cv) m.sources
  unfolding load_values
  load_values-origin m key cv plain h =
      elim (load_sources-origin key m.sources (load_defaults m.defaults m) cv h) [
        | inl e ↦ inl (sym (load_defaults-lookup key m.defaults m plain) ∙ e)
        | inr a ↦ inr a
      ]

  -- Load leaves the value of a key without a default as it is, where no source has a higher priority than
  -- the one the value came from: a source that is loaded again changes no such value of its own.
  pub load_values-keeps :
      (m : ConfigManager F S W) (key : String) (cv : ConfigValue F)
      → has_key key m.defaults ≡ false
      → lookup key m.values ≡ some cv
      → All (λ (s : Source F). s.priority ≤ℤ cv.source) m.sources
      → lookup key (load_values m).values ≡ some cv
  unfolding load_values
  load_values-keeps m key cv plain e h =
      load_sources-keeps key m.sources (load_defaults m.defaults m) cv
        (load_defaults-lookup key m.defaults m plain ∙ e) h
