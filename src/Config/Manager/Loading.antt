-- ===== src/Config/Manager/Loading.antt =====
-- The tree of a configuration as the list of its values, and what applyConfig makes of one of them.
pub mod Precedence
pub mod Absent
use bindxdb.Prelude.{
  String, Bool, true, false, Option, none, some, List, [], ◌∷◌, ◌++◌, ◌≡◌, ◌≢◌, refl, sym, ◌∙◌, ap,
  arith, Dict, lookup, insert, has_key, ◌==◌, eq_iff, eq_self, lookup-insert, if◌then◌else◌, Result,
  ok, err, ℤ, ◌≤ℤ◌, leb_ℤ, leb_ℤ_iff, ◌⊎◌, inl, inr, Option-cases, Bool-cases, Result-cases, All,
  Any, Any-map, Any-append_left, Any-append_right, Any-append_cases,
}
use bindxdb.Go.Value.{
  Value, Fields, null, bool, int, int64, float32, float64, number, duration, string, list, strings,
  object, no_fields, field,
}
use bindxdb.Config.Types.{ConfigManager, ConfigValue, Source}
use bindxdb.Config.Manager.{
  put_leaf, applied, flatten, flatten_fields, apply_config, load_defaults, load_source,
  load_sources, load_values, default_value, sub_key,
}

module _ {F : Type 0} where
  -- The values of a tree that are no maps, each with the dotted key that leads to it.
  unfoldable mutual
    pub leaves : String → Value F → List (String × Value F)
    leaves prefix (object fs) = leaves_fields prefix fs
    leaves prefix v = (prefix, v) ∷ []

    pub leaves_fields : String → Fields F → List (String × Value F)
    leaves_fields prefix no_fields = []
    leaves_fields prefix (field k v fs) = leaves (sub_key prefix k) v ++ leaves_fields prefix fs

module _ {F S W : Type 0} where
  abbrev pub put_leaves : ℤ → List (String × Value F) → ConfigManager F S W → ConfigManager F S W
  put_leaves p [] m = m
  put_leaves p ((k, v) ∷ ls) m = put_leaves p ls (put_leaf p k v m)

  put_leaves-append :
      (p : ℤ) (ks ls : List (String × Value F)) (m : ConfigManager F S W)
      → put_leaves p (ks ++ ls) m ≡ put_leaves p ls (put_leaves p ks m)
  put_leaves-append p [] ls m = refl
  put_leaves-append p ((k, v) ∷ ks) ls m = put_leaves-append p ks ls (put_leaf p k v m)

  mutual
    unfolding flatten leaves

    pub flatten-leaves :
        (p : ℤ) (prefix : String) (v : Value F) (m : ConfigManager F S W)
        → flatten p prefix v m ≡ put_leaves p (leaves prefix v) m
    flatten-leaves p prefix (object fs) m = flatten_fields-leaves p prefix fs m
    flatten-leaves p prefix v m = refl

    flatten_fields-leaves :
        (p : ℤ) (prefix : String) (fs : Fields F) (m : ConfigManager F S W)
        → flatten_fields p prefix fs m ≡ put_leaves p (leaves_fields prefix fs) m
    flatten_fields-leaves p prefix no_fields m = refl
    flatten_fields-leaves p prefix (field k v fs) m =
        rw (put_leaves-append p (leaves (sub_key prefix k) v) (leaves_fields prefix fs) m) (
          flatten_fields-leaves p prefix fs (flatten p (sub_key prefix k) v m)
          ∙ ap (λ n. put_leaves p (leaves_fields prefix fs) n)
              (flatten-leaves p (sub_key prefix k) v m))

same-lookup {ℓ} :
    {A : Type ℓ} (k j : String) (m : Dict A) → (k == j) ≡ true → lookup k m ≡ lookup j m
same-lookup k j m t = ap (λ x. lookup x m) ((eq_iff k j).0 t)

module _ {F S W : Type 0} where
  -- What stands at a key after applyConfig met a leaf of it, by what stood there before.
  abbrev winner :
      ConfigManager F S W → ℤ → String → Value F → Option (ConfigValue F) → ConfigValue F
  winner m p k v none = applied m p k v
  winner m p k v (some existing) = if leb_ℤ p existing.source then existing else applied m p k v

  winner-source :
      (m : ConfigManager F S W) (p : ℤ) (k : String) (v : Value F) (found : Option (ConfigValue F))
      → p ≤ℤ (winner m p k v found).source
  unfolding applied
  winner-source m p k v none = omega arith
  winner-source m p k v (some cv) = ground (arith, leb_ℤ_iff p cv.source)

  winner-source_mono :
      (m : ConfigManager F S W) (p q : ℤ) (k : String) (v : Value F) (cv : ConfigValue F)
      → q ≤ℤ cv.source
      → q ≤ℤ (winner m p k v (some cv)).source
  unfolding applied
  winner-source_mono m p q k v cv le = elim (Bool-cases (leb_ℤ p cv.source)) [
    | inl t ↦ rw t le
    | inr f ↦ rw f (ground (arith, leb_ℤ_iff p cv.source, f, le))
  ]

  winner-origin :
      (m : ConfigManager F S W) (p : ℤ) (k : String) (v : Value F) (found : Option (ConfigValue F))
      → (found ≡ some (winner m p k v found))
        ⊎ (((winner m p k v found).source ≡ p) × ((winner m p k v found).value ≡ v))
  unfolding applied
  winner-origin m p k v none = inr (refl, refl)
  winner-origin m p k v (some cv) = elim (Bool-cases (leb_ℤ p cv.source)) [
    | inl le ↦ inl (rw le refl)
    | inr gt ↦ inr (rw gt (refl, refl))
  ]

  put_leaf-lookup :
      (p : ℤ) (k j : String) (v : Value F) (m : ConfigManager F S W)
      → lookup j (put_leaf p k v m).values
        ≡ (if k == j then some (winner m p k v (lookup k m.values)) else lookup j m.values)
  unfolding put_leaf
  put_leaf-lookup p k j v m = elim (Option-cases (lookup k m.values)) [
    | inl e ↦ rw (put_leaf, e) (lookup-insert k j (applied m p k v) m.values)
    | inr (cv, e) ↦ elim (Bool-cases (leb_ℤ p cv.source)) [
      | inl le ↦ rw (put_leaf, e, le) (ground (arith, same-lookup k j m.values, e))
      | inr gt ↦ rw (put_leaf, e, gt) (lookup-insert k j (applied m p k v) m.values)
    ]
  ]

  -- The key has a value, from a source of at least the given priority.
  abbrev pub Covered : ConfigManager F S W → String → ℤ → Type 0
  Covered m j p = (cv : ConfigValue F) × (lookup j m.values ≡ some cv) × (p ≤ℤ cv.source)

  pub put_leaf-keeps :
      (p : ℤ) (k j : String) (v : Value F) (m : ConfigManager F S W) (cv : ConfigValue F)
      → lookup j m.values ≡ some cv
      → p ≤ℤ cv.source
      → lookup j (put_leaf p k v m).values ≡ some cv
  put_leaf-keeps p k j v m cv e le =
      rw (put_leaf-lookup p k j v m)
        (ground (arith, same-lookup k j m.values, e, le, leb_ℤ_iff p cv.source))

  pub put_leaf-Covered :
      (p q : ℤ) (k j : String) (v : Value F) (m : ConfigManager F S W)
      → Covered m j q
      → Covered (put_leaf p k v m) j q
  put_leaf-Covered p q k j v m (cv, e, le) = elim (Bool-cases (k == j)) [
    | inl t ↦ (
      winner m p k v (some cv),
      (rw (put_leaf-lookup p k j v m, t, same-lookup k j m.values t, e) refl),
      winner-source_mono m p q k v cv le,
    )
    | inr f ↦ (cv, (rw (put_leaf-lookup p k j v m, f) e), le)
  ]

  pub put_leaf-Covered_self :
      (p : ℤ) (k : String) (v : Value F) (m : ConfigManager F S W) → Covered (put_leaf p k v m) k p
  put_leaf-Covered_self p k v m = (
    winner m p k v (lookup k m.values),
    (rw (put_leaf-lookup p k k v m, eq_self k) refl),
    winner-source m p k v (lookup k m.values),
  )

  pub put_leaf-origin :
      (p : ℤ) (k j : String) (v : Value F) (m : ConfigManager F S W) (cv : ConfigValue F)
      → lookup j (put_leaf p k v m).values ≡ some cv
      → (lookup j m.values ≡ some cv) ⊎ ((k ≡ j) × (cv.source ≡ p) × (cv.value ≡ v))
  put_leaf-origin p k j v m cv h = elim (Bool-cases (k == j)) [
    | inr f ↦ inl (ground (arith, put_leaf-lookup p k j v m, f, h))
    | inl t ↦
        let here : some (winner m p k v (lookup k m.values)) ≡ some cv =
          ground (arith, put_leaf-lookup p k j v m, t, h) in
        elim (winner-origin m p k v (lookup k m.values)) [
          | inl e ↦ inl (sym (same-lookup k j m.values t) ∙ e ∙ here)
          | inr (a, b) ↦
              let same : winner m p k v (lookup k m.values) ≡ cv = ground (arith, here) in
              inr (
                (eq_iff k j).0 t,
                sym (ap (λ c. c.source) same) ∙ a,
                sym (ap (λ c. c.value) same) ∙ b,
              )
        ]
  ]
