-- ===== src/Config/Manager/Values.antt =====
-- Get after Set, and what a change reaches.
use bindxdb.Prelude.{
  String, true, false, Option, none, some, [], ◌∷◌, ◌≡◌, ◌≢◌, refl, ap, inl, inr, Option-cases,
  arith, lookup, ◌==◌, eq_iff, eq_self, lookup-insert, map, ◌<◌, ◌++◌, if◌then◌else◌, ok, ℤ, length,
  Bool-cases, ◌≤◌, Result, err, Result-cases,
}
use bindxdb.Go.Value.{Value, string}
use bindxdb.Config.Schema.{is_secret_key}
use bindxdb.Config.Types.{ConfigManager, ConfigChange, SecretStore, ConfigValue, change_capacity}
use bindxdb.Config.Manager.{get, set, read_value, store_secret, notify, slice_at, old_value_of}

-- The answer, or a text in place of an error.
abbrev pub answer_or : {E : Type 0} → String → Result E String → String
answer_or s (ok t) = t
answer_or s (err e) = s

module _ (secret_store : SecretStore) {F : Type 0} where
  open secret_store use {Store, get_secret, set_secret}

  read_value-plain :
      (store : Option Store) (key : String) (v : ConfigValue F)
      → v.is_secret ≡ false
      → read_value secret_store store key v ≡ v.value
  unfolding read_value
  read_value-plain none key v plain = refl
  read_value-plain (some store) key v plain = ground (arith, plain)

  read_value-store_secret :
      (store : Option Store) (key other : String) (s : Value F) (v : ConfigValue F)
      → ((st : Store) (s : String) → get_secret (set_secret st key s) other ≡ get_secret st other)
      → read_value secret_store (store_secret secret_store store key s) other v
        ≡ read_value secret_store store other v
  unfolding read_value store_secret
  read_value-store_secret none key other s v apart = refl
  read_value-store_secret (some store) key other (string s) v apart = rw (apart store s) refl
  read_value-store_secret (some store) key other s v apart = refl

module _ (secret_store : SecretStore) {F W : Type 0} where
  open secret_store use {Store, get_secret, set_secret}

  abbrev stored : ConfigManager F Store W → String → Value F → ℤ → ConfigValue F
  stored m key v source = record {
    value = v;
    source = source;
    is_set = true;
    is_default = false;
    is_secret = is_secret_key m.schema key;
    is_dynamic = false;
  }

  set-lookup :
      (m : ConfigManager F Store W) (key other : String) (v : Value F) (source : ℤ)
      → lookup other (set secret_store key v source m).values
        ≡ (if key == other then some (stored m key v source) else lookup other m.values)
  unfolding set
  set-lookup m key other v source = lookup-insert key other (stored m key v source) m.values

  set-secrets :
      (m : ConfigManager F Store W) (key : String) (v : Value F) (source : ℤ)
      → (set secret_store key v source m).secrets ≡ (
          if is_secret_key m.schema key
          then store_secret secret_store m.secrets key v
          else m.secrets)
  unfolding set
  set-secrets m key v source = refl

  read_value-set :
      (m : ConfigManager F Store W) (key other : String) (v : Value F) (source : ℤ)
      (cv : ConfigValue F)
      → ((st : Store) (s : String) → get_secret (set_secret st key s) other ≡ get_secret st other)
      → read_value secret_store (set secret_store key v source m).secrets other cv
        ≡ read_value secret_store m.secrets other cv
  read_value-set m key other v source cv apart = elim (Bool-cases (is_secret_key m.schema key)) [
    | inl t ↦
        rw (set-secrets m key v source, t)
          (read_value-store_secret secret_store m.secrets key other v cv apart)
    | inr f ↦ rw (set-secrets m key v source, f) refl
  ]

  -- What Set stores at a key that the schema does not mark secret is what Get reads there.
  pub get-set :
      (m : ConfigManager F Store W) (key : String) (v : Value F) (source : ℤ)
      → is_secret_key m.schema key ≡ false
      → get secret_store (set secret_store key v source m) key ≡ ok v
  unfolding get read_value store_secret
  get-set m key v source plain =
      rw (get, set-lookup m key key v source, eq_self key)
        (ap ok (
          read_value-plain secret_store (set secret_store key v source m).secrets key
            (stored m key v source) plain))

  -- After Set of a string at a secret key, Get gives what the secret store answers for the key once it has been given
  -- the string, whatever that is, and the string itself, which the manager keeps beside it, where the secret store
  -- answers with an error.
  pub get-set_secret :
      (m : ConfigManager F Store W) (store : Store) (key s : String) (source : ℤ)
      → is_secret_key m.schema key ≡ true
      → m.secrets ≡ some store
      → get secret_store (set secret_store key (string s) source m) key
        ≡ ok (string (answer_or s (get_secret (set_secret store key s) key)))
  unfolding get read_value store_secret
  get-set_secret m store key s source secret e =
      rw
        (
          get,
          set-lookup m key key (string s) source,
          eq_self key,
          set-secrets m key (string s) source,
          secret,
          e,
        )
        (elim (Result-cases (get_secret (set_secret store key s) key)) [
          | inl (t, f) ↦ rw f refl
          | inr (x, f) ↦ rw f refl
        ])

  -- Set at one key leaves Get at every other key as it was, where the secret store keeps its keys apart.
  pub get-set_ne :
      (m : ConfigManager F Store W) (key other : String) (v : Value F) (source : ℤ)
      → key ≢ other
      → ((st : Store) (s : String) → get_secret (set_secret st key s) other ≡ get_secret st other)
      → get secret_store (set secret_store key v source m) other ≡ get secret_store m other
  unfolding get read_value store_secret
  get-set_ne m key other v source ne apart =
      let different : (key == other) ≡ false = ground (arith, eq_iff key other, ne) in
      elim (Option-cases (lookup other m.values)) [
        | inl e ↦ rw (get, set-lookup m key other v source, different, e) refl
        | inr (cv, e) ↦
            rw (get, set-lookup m key other v source, different, e)
              (ap ok (read_value-set m key other v source cv apart))
      ]

-- The change that Set reports.
abbrev pub change_of :
    {F S W : Type 0} → ConfigManager F S W → String → Value F → ℤ → ConfigChange F
change_of m key v source = record {
  key = key;
  old_value = old_value_of (lookup key m.values);
  new_value = v;
  source = source;
}

-- Where no goroutine is pending, the one that Set starts calls each watcher of the key, in order, with
-- the old and the new value; the change is sent on the channel where that is not full, and dropped where it is.
pub set-notify :
    (secret_store : SecretStore) {F W : Type 0} (m : ConfigManager F secret_store.Store W)
    (key : String) (v : Value F) (source : ℤ)
    → m.pending ≡ []
    → ((notify (set secret_store key v source m)).called
        ≡ m.called ++ map (λ w. (w, change_of m key v source)) (slice_at key m.watchers))
      × ((notify (set secret_store key v source m)).pending ≡ [])
      × (length m.on_change < change_capacity
          → (notify (set secret_store key v source m)).on_change
            ≡ m.on_change ++ change_of m key v source ∷ [])
      × (change_capacity ≤ length m.on_change
          → (notify (set secret_store key v source m)).on_change ≡ m.on_change)
unfolding set notify
set-notify secret_store m key v source e =
    rw (set, notify, e) (refl, refl, λ h. ground (arith, h), λ h. ground (arith, h))
