-- ===== src/Config/Dynamic/Effects.antt =====
-- What an update changes.
use bindxdb.Prelude.{
  String, true, false, some, List, [], ◌∷◌, ◌≡◌, ◌≢◌, refl, ◌∙◌, ap, ok, All, arith, Option-cases,
  Result-cases, inl, inr, ◌⊎◌,
}
use bindxdb.Go.Value.{Value}
use bindxdb.Config.Schema.{is_secret_key}
use bindxdb.Config.Types.{ConfigManager, SecretStore}
use bindxdb.Config.Manager.{get, set}
use bindxdb.Config.Manager.Values.{get-set, get-set_ne}
use bindxdb.Config.Dynamic.{
  DynamicUpdater, UpdateRequest, UpdateResponse, Sent, panicked, dropped, delivered,
  DynamicConfigManager, find_updater, apply_with, apply_request, process_update, process_updates,
  succeeded, failed_with,
}

Sent-cases :
    {F : Type 0} (sent : Sent F)
    → (sent ≡ panicked) ⊎ (sent ≡ dropped) ⊎ ((r : UpdateResponse F) × (sent ≡ delivered r))
Sent-cases panicked = inl refl
Sent-cases dropped = inr (inl refl)
Sent-cases (delivered r) = inr (inr (r, refl))

module _ (secret_store : SecretStore) {E F W : Type 0} where
  open secret_store use {Store, get_secret, set_secret}

  -- An update sets the value and answers with success, or leaves the manager as it was and answers with an error.
  apply_request-cases :
      (request : UpdateRequest F) (d : DynamicConfigManager E F Store W)
      → (((apply_request secret_store request d).0.manager
            ≡ set secret_store request.key request.value request.source d.manager)
          × ((apply_request secret_store request d).1.success ≡ true))
        ⊎ (((apply_request secret_store request d).0.manager ≡ d.manager)
            × ((apply_request secret_store request d).1.success ≡ false))
  unfolding apply_request apply_with succeeded failed_with
  apply_request-cases request d = elim (Result-cases (get secret_store d.manager request.key)) [
    | inr (x, e) ↦ inr (rw (apply_request, e) (refl, refl))
    | inl (old, e) ↦ elim (Option-cases (find_updater d.updaters request.key)) [
      | inl f ↦ inl (rw (apply_request, e, f) (refl, refl))
      | inr (u, f) ↦ elim (Option-cases (u.apply_update request.key request.value d.components).1) [
        | inl g ↦ inl (rw (apply_request, e, f, apply_with, g) (refl, refl))
        | inr (x, g) ↦ inr (rw (apply_request, e, f, apply_with, g) (refl, refl))
      ]
    ]
  ]

  -- Where processUpdate answers with success for a key that the schema does not mark secret, Get of the key then gives
  -- the value of the request.
  pub apply_request-get :
      (request : UpdateRequest F) (d : DynamicConfigManager E F Store W)
      → is_secret_key d.manager.schema request.key ≡ false
      → (apply_request secret_store request d).1.success ≡ true
      → get secret_store (apply_request secret_store request d).0.manager request.key
        ≡ ok request.value
  apply_request-get request d plain done = elim (apply_request-cases request d) [
    | inl (e, s) ↦
        ap (λ (m : ConfigManager F Store W). get secret_store m request.key) e
        ∙ get-set secret_store d.manager request.key request.value request.source plain
    | inr (e, s) ↦ absurd (ground (arith, done, s))
  ]

  -- Where a RollbackUpdate to the value that Get gave before undoes a failed ApplyUpdate of the updater that takes the key,
  -- an update that processUpdate answers with an error leaves the manager, the components and the rest as they were.
  pub apply_request-undone :
      (request : UpdateRequest F) (d : DynamicConfigManager E F Store W)
      → ((u : DynamicUpdater E F) (old : Value F)
          → find_updater d.updaters request.key ≡ some u
          → get secret_store d.manager request.key ≡ ok old
          → (u.rollback_update request.key old
              (u.apply_update request.key request.value d.components).0).0
            ≡ d.components)
      → (apply_request secret_store request d).1.success ≡ false
      → (apply_request secret_store request d).0 ≡ d
  unfolding apply_request apply_with succeeded failed_with
  apply_request-undone request d undoes failed =
      elim (Result-cases (get secret_store d.manager request.key)) [
        | inr (x, e) ↦ rw (apply_request, e) refl
        | inl (old, e) ↦ elim (Option-cases (find_updater d.updaters request.key)) [
          | inl f ↦ absurd (ground (arith, failed, e, f))
          | inr (u, f) ↦
              elim (Option-cases (u.apply_update request.key request.value d.components).1) [
                | inl g ↦ absurd (ground (arith, failed, e, f, g))
                | inr (x, g) ↦
                    rw (apply_request, e, f, apply_with, g)
                      (ap (λ (c : E). record d { components = c }) (undoes u old f e))
              ]
        ]
      ]

  apply_request-keeps_get :
      (request : UpdateRequest F) (d : DynamicConfigManager E F Store W) (other : String)
      → request.key ≢ other
      → ((st : Store) (s : String)
          → get_secret (set_secret st request.key s) other ≡ get_secret st other)
      → get secret_store (apply_request secret_store request d).0.manager other
        ≡ get secret_store d.manager other
  apply_request-keeps_get request d other ne apart = elim (apply_request-cases request d) [
    | inl (e, s) ↦
        ap (λ (m : ConfigManager F Store W). get secret_store m other) e
        ∙ get-set_ne secret_store d.manager request.key other request.value request.source ne apart
    | inr (e, s) ↦ ap (λ (m : ConfigManager F Store W). get secret_store m other) e
  ]

  process_updates-step :
      (request : UpdateRequest F) (requests : List (UpdateRequest F))
      (d : DynamicConfigManager E F Store W)
      → (process_updates secret_store (request ∷ requests) d
          ≡ (apply_request secret_store request d).0)
        ⊎ (process_updates secret_store (request ∷ requests) d
            ≡ process_updates secret_store requests (apply_request secret_store request d).0)
  unfolding process_updates process_update
  process_updates-step request requests d =
      elim (Sent-cases (process_update secret_store request d).1) [
        | inl e ↦ inl (rw (process_updates, e) refl)
        | inr (inl e) ↦ inr (rw (process_updates, e) refl)
        | inr (inr (r, e)) ↦ inr (rw (process_updates, e) refl)
      ]

  -- However many requests processUpdates takes, with failures and panics among them, Get of a key that none of them names
  -- gives what it gave before, where the secret store keeps its keys apart.
  pub process_updates-get :
      (requests : List (UpdateRequest F)) (d : DynamicConfigManager E F Store W) (other : String)
      → All (λ (q : UpdateRequest F). q.key ≢ other) requests
      → ((st : Store) (key s : String)
          → key ≢ other
          → get_secret (set_secret st key s) other ≡ get_secret st other)
      → get secret_store (process_updates secret_store requests d).manager other
        ≡ get secret_store d.manager other
  unfolding process_updates
  process_updates-get [] d other named apart = refl
  process_updates-get (q ∷ qs) d other (ne, named) apart =
      let d' = (apply_request secret_store q d).0 in
      let first = apply_request-keeps_get q d other ne (λ st s. apart st q.key s ne) in
      elim (process_updates-step q qs d) [
        | inl e ↦
            ap (λ (x : DynamicConfigManager E F Store W). get secret_store x.manager other) e
            ∙ first
        | inr e ↦
            ap (λ (x : DynamicConfigManager E F Store W). get secret_store x.manager other) e
            ∙ process_updates-get qs d' other named apart
            ∙ first
      ]
