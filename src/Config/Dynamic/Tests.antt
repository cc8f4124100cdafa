-- ===== src/Config/Dynamic/Tests.antt =====
-- A manager with two values, and an updater that writes every value to the components and then refuses it.
use mathlib.Core.Path.{subst}
use bindxdb.Prelude.{
  ap, ℕ, ◌≡◌, ◌≢◌, refl, String, true, false, Option, none, some, [], ◌∷◌, pos, go, Dict, lookup,
  insert, lookup-insert, Result, ok, err, arith, eq_iff, ◌==◌,
}
use bindxdb.Go.Value.{Value, int, string}
use bindxdb.Config.Schema.{is_secret_key}
use bindxdb.Config.Types.{ConfigManager, SecretStore, new_config_manager, source_dynamic}
use bindxdb.Config.Manager.{set, get}
use bindxdb.Config.Dynamic.{
  DynamicUpdater, UpdateRequest, open_channel, DynamicConfigManager, new_dynamic_config_manager,
  apply_request, find_updater, process_updates,
}
use bindxdb.Config.Dynamic.Effects.{apply_request-undone, process_updates-get}

secret_in : Dict String → String → Result String String
secret_in m k = elim (lookup k m) [ none ↦ err "not found" | some s ↦ ok s ]

abbrev secrets : SecretStore
secrets = record { Store = Dict String; get_secret = secret_in; set_secret = λ m k s. insert k s m }

abbrev Watch : Type 0
Watch = Unit {0}

abbrev manager : ConfigManager ℕ (Dict String) Watch
manager =
    set secrets "port" (int (pos 80)) source_dynamic
      (set secrets "host" (string "db") source_dynamic (new_config_manager none))

abbrev Components : Type 0
Components = Dict (Value ℕ)

abbrev plain : DynamicConfigManager Components ℕ (Dict String) Watch
plain = new_dynamic_config_manager manager (("port", int (pos 80)) ∷ [])

abbrev refusing : DynamicUpdater Components ℕ
refusing = record {
  can_update = λ key. true;
  apply_update = λ key v c. (insert key v c, some "no");
  rollback_update = λ key old c. (insert key old c, none);
}

abbrev guarded : DynamicConfigManager Components ℕ (Dict String) Watch
guarded = record plain { updaters = ("server", refusing) ∷ [] }

abbrev request : UpdateRequest ℕ
request = record {
  key = "port";
  value = int (pos 81);
  source = source_dynamic;
  response = open_channel true;
}

tested : Unit {0}
unfolding go get set apply_request find_updater is_secret_key new_dynamic_config_manager
tested = tt

not_secret : is_secret_key plain.manager.schema "port" ≡ false
unfolding tested
not_secret = refl

updated : (apply_request secrets request plain).1.success ≡ true
unfolding tested
updated = refl

refused : (apply_request secrets request guarded).1.success ≡ false
unfolding tested
refused = refl

abbrev taken : Option (DynamicUpdater Components ℕ) → DynamicUpdater Components ℕ
taken none = refusing
taken (some u) = u

stored : get secrets guarded.manager "port" ≡ ok (int (pos 80))
unfolding tested
stored = refl

undoes :
    (u : DynamicUpdater Components ℕ) (old : Value ℕ)
    → find_updater guarded.updaters "port" ≡ some u
    → get secrets guarded.manager "port" ≡ ok old
    → (u.rollback_update "port" old (u.apply_update "port" (int (pos 81)) guarded.components).0).0
      ≡ guarded.components
unfolding tested
undoes u old e f =
    let same : int (pos 80) ≡ old = ground (arith, f, stored) in
    subst
      (λ (v : Value ℕ).
        (u.rollback_update "port" v (u.apply_update "port" (int (pos 81)) guarded.components).0).0
        ≡ guarded.components)
      same
      (subst
        (λ (w : DynamicUpdater Components ℕ).
          (w.rollback_update "port" (int (pos 80))
            (w.apply_update "port" (int (pos 81)) guarded.components).0).0
          ≡ guarded.components)
        (ap taken e) refl)

apply_request-undone_example : (apply_request secrets request guarded).0 ≡ guarded
apply_request-undone_example = apply_request-undone secrets request guarded undoes refused

names_differ : ("port" == "host") ≡ false
unfolding tested
names_differ = refl

port-ne-host : ◌≢◌ {A = String} "port" "host"
port-ne-host = λ e. ground (arith, (eq_iff "port" "host").1 e, names_differ)

apart :
    (st : Dict String) (key s : String)
    → key ≢ "host"
    → secret_in (insert key s st) "host" ≡ secret_in st "host"
unfolding secret_in
apart st key s ne = ground (arith, lookup-insert key "host" s st, eq_iff key "host", ne)

process_updates-get_example :
    get secrets (process_updates secrets (request ∷ request ∷ []) guarded).manager "host"
    ≡ get secrets guarded.manager "host"
process_updates-get_example =
    process_updates-get secrets (request ∷ request ∷ []) guarded "host"
      (port-ne-host, (port-ne-host, tt)) apart
