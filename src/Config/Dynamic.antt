-- ===== src/Config/Dynamic.antt =====
-- pkg/config/dynamic.go: the updates of values while the program runs. `E` is the state of the components that updaters
-- reach; one that itself calls Set is left out. Set returns no error, so that the branches on its error are not taken; logs and the timeout of a request, which
-- nothing reads, are left out.
pub mod Effects
mod Tests
use Prim.Native.String.{◌++◌ as append_text}
use bindxdb.Prelude.{
  String, Bool, true, false, Option, none, some, List, [], ◌∷◌, Dict, ◌==◌, ◌||◌, has_prefix,
  if◌then◌else◌, Result, ok, err, ℤ,
}
use bindxdb.Go.Value.{Value, null}
use bindxdb.Config.Types.{ConfigManager, ConfigError, SecretStore}
use bindxdb.Config.Manager.{get, set}

-- An update gives the components as it leaves them, and its error.
pub record DynamicUpdater (E F : Type 0) : Type 0 where
  pub can_update : String → Bool
  pub apply_update : String → Value F → E → E × Option String
  pub rollback_update : String → Value F → E → E × Option String

pub data UpdateError : Type 0 where
  not_read : ConfigError → UpdateError
  not_applied : String → UpdateError

pub record UpdateResponse (F : Type 0) : Type 0 where
  pub success : Bool
  pub error : Option UpdateError
  pub old_value : Value F
  pub new_value : Value F

-- The channel of a request: nil, closed, or open, with a receiver or room for the response or without.
pub data ResponseChannel : Type 0 where
  no_channel closed : ResponseChannel
  open_channel : (ready : Bool) → ResponseChannel

pub record UpdateRequest (F : Type 0) : Type 0 where
  pub key : String
  pub value : Value F
  pub source : ℤ
  pub response : ResponseChannel

-- What becomes of a response; a panic is of a send on a closed channel, or of the close of a nil one.
pub data Sent (F : Type 0) : Type 0 where
  panicked dropped : Sent F
  delivered : UpdateResponse F → Sent F

module _ {F : Type 0} where
  pub send_response : ResponseChannel → UpdateResponse F → Sent F
  send_response no_channel response = panicked
  send_response closed response = panicked
  send_response (open_channel ready) response = if ready then delivered response else dropped

  succeeded : (old new : Value F) → UpdateResponse F
  succeeded old new = record { success = true; error = none; old_value = old; new_value = new }

  failed_with : UpdateError → UpdateResponse F
  failed_with e = record { success = false; error = some e; old_value = null; new_value = null }

-- ComponentUpdater, whose functions may be nil.
pub record ComponentUpdater (E F : Type 0) : Type 0 where
  pub name : String
  pub keys : List String
  pub apply_func : Option (String → Value F → E → E × Option String)
  pub rollback_func : Option (String → Value F → E → E × Option String)

-- The loop of CanUpdate.
can_update_one : List String → String → Bool
can_update_one [] key = false
can_update_one (k ∷ ks) key =
    let later = can_update_one ks key in
    if (k == key) || has_prefix key (append_text k ".") then true else later

module _ {E F : Type 0} where
  call :
      Option (String → Value F → E → E × Option String) → String → Value F → E → E × Option String
  call none key v e = (e, none)
  call (some f) key v e = f key v e

  -- The methods of a ComponentUpdater.
  pub as_updater : ComponentUpdater E F → DynamicUpdater E F
  unfolding can_update_one call
  as_updater c = record {
    can_update = can_update_one c.keys;
    apply_update = call c.apply_func;
    rollback_update = call c.rollback_func;
  }

  -- The loop of processUpdate over the updaters: the first that takes the key.
  pub find_updater : Dict (DynamicUpdater E F) → String → Option (DynamicUpdater E F)
  find_updater [] key = none
  find_updater ((name, u) ∷ rest) key =
      let later = find_updater rest key in if u.can_update key then some u else later

-- The queue is the channel of 100 requests, which nothing in the package sends on.
pub record DynamicConfigManager (E F S W : Type 0) : Type 0 where
  pub manager : ConfigManager F S W
  pub components : E
  pub updaters : Dict (DynamicUpdater E F)
  pub update_queue : List (UpdateRequest F)
  pub cancelled : Bool

module _ {E F S W : Type 0} where
  pub new_dynamic_config_manager : ConfigManager F S W → E → DynamicConfigManager E F S W
  new_dynamic_config_manager manager components = record {
    manager = manager;
    components = components;
    updaters = [];
    update_queue = [];
    cancelled = false;
  }

  pub stop : DynamicConfigManager E F S W → DynamicConfigManager E F S W
  stop d = record d { cancelled = true }

module _ (secret_store : SecretStore) {E F W : Type 0} where
  open secret_store use {Store}

  -- processUpdate with an updater: where its ApplyUpdate fails it is rolled back, and the error of that is only logged.
  pub apply_with :
      DynamicUpdater E F
      → UpdateRequest F
      → Value F
      → DynamicConfigManager E F Store W
      → DynamicConfigManager E F Store W × UpdateResponse F
  unfolding succeeded failed_with
  apply_with u request old d =
      let (components, failure) = u.apply_update request.key request.value d.components in
      elim failure [
        | some e ↦ (
          record d { components = (u.rollback_update request.key old components).0 },
          failed_with (not_applied e),
        )
        | none ↦ (
          record d {
            components = components;
            manager = set secret_store request.key request.value request.source d.manager;
          },
          succeeded old request.value,
        )
      ]

  pub apply_request :
      UpdateRequest F
      → DynamicConfigManager E F Store W
      → DynamicConfigManager E F Store W × UpdateResponse F
  unfolding apply_with find_updater succeeded failed_with
  apply_request request d = elim (get secret_store d.manager request.key) [
    | err e ↦ (d, failed_with (not_read e))
    | ok old ↦ elim (find_updater d.updaters request.key) [
      | none ↦ (
        record d { manager = set secret_store request.key request.value request.source d.manager },
        succeeded old request.value,
      )
      | some u ↦ apply_with u request old d
    ]
  ]

  pub process_update :
      UpdateRequest F → DynamicConfigManager E F Store W → DynamicConfigManager E F Store W × Sent F
  unfolding apply_request send_response
  process_update request d =
      let (d', response) = apply_request request d in (d', send_response request.response response)

  -- The loop of processUpdates over requests that it receives before the context is done; a panic ends it.
  pub process_updates :
      List (UpdateRequest F) → DynamicConfigManager E F Store W → DynamicConfigManager E F Store W
  unfolding process_update
  process_updates [] d = d
  process_updates (request ∷ requests) d =
      let (d', sent) = process_update request d in
      let later = process_updates requests d' in
      elim sent [ panicked ↦ d' | dropped ↦ later | delivered response ↦ later ]
