-- ===== src/Plugin/Lock.antt =====
-- The sync.RWMutex of the registry, and GetPluginInfo of pkg/plugin/registry.go, which takes the lock for
-- reading and gives it back as a writer would.
use bindxdb.Prelude.{ℕ, suc, String, Option, none, some, lookup, Result, ok, err}
use bindxdb.Plugin.Registry.{PluginInfo, PluginRegistry, RegistryError, plugin_not_found}

-- Held by so many readers (none: free), by so many readers for whose end a Lock waits, or by one writer.
pub data Lock : Type 0 where
  readers waiting : ℕ → Lock
  writer : Lock

-- A call that waits for a lock, ends the process, or returns.
pub data Run (A : Type 0) : Type 0 where
  blocked fatal : Run A
  done : A → Run A

-- The rest of a method, where a call has returned.
abbrev pub and_then : {A B : Type 0} → Run A → (A → Run B) → Run B
and_then blocked f = blocked
and_then fatal f = fatal
and_then (done a) f = f a

-- RLock; `none` waits, also behind a Lock that waits.
unfoldable pub r_lock : Lock → Option Lock
r_lock (readers n) = some (readers (suc n))
r_lock (waiting n) = none
r_lock writer = none

-- Unlock; `none` is Go's fatal error "sync: Unlock of unlocked RWMutex", which no recover stops. Where a Lock waits, its
-- announcement is taken back, so that new readers are let in and no error is raised.
unfoldable pub unlock : Lock → Option Lock
unlock (readers n) = none
unlock (waiting n) = some (readers n)
unlock writer = some (readers 0)

module _ {P D : Type 0} where
  abbrev pub find_info : PluginRegistry P D → String → Result RegistryError (PluginInfo P D)
  find_info r id = elim (lookup id r.plugins) [
    | none ↦ err (plugin_not_found id)
    | some info ↦ ok info
  ]

  -- GetPluginInfo, with the deferred Unlock at its end, where no other goroutine calls Lock between the two.
  unfoldable pub get_plugin_info :
      Lock → PluginRegistry P D → String → Run (Result RegistryError (PluginInfo P D))
  unfolding r_lock unlock
  get_plugin_info lock r id = elim (r_lock lock) [
    | none ↦ blocked
    | some held ↦ elim (unlock held) [ none ↦ fatal | some _ ↦ done (find_info r id) ]
  ]
