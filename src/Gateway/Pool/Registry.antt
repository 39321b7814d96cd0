-- ===== src/Gateway/Pool/Registry.antt =====
-- The pool as the set of the registered identifiers.
use apeiron.Base.{
  ℕ, ◌≡◌, Bool, false, not, ◌&&◌, ◌||◌, Option, none, some, arith, ◌==◌, if◌then◌else◌, is_some,
  Text,
}
use apeiron.Base.Outcome.{value}
use apeiron.Core.Id.{Uuid}
use apeiron.Gateway.Pool.{
  IndexMap, SandboxEntry, SandboxPool, new_pool, lock, create, remove, contains,
}

module _ (index_map : IndexMap SandboxEntry) where
  -- Whether an identifier is registered.
  unfoldable pub registered : SandboxPool index_map → Uuid → Bool
  registered pool id = is_some (index_map.get id pool.entries)

  some_insert :
      (k j : Uuid) (v : SandboxEntry) (o : Option SandboxEntry)
      → is_some (if k == j then some v else o) ≡ (k == j || is_some o)
  some_insert k j v o = ground arith

  some_remove :
      (k j : Uuid) (o : Option SandboxEntry)
      → is_some (if k == j then none else o) ≡ (not (k == j) && is_some o)
  some_remove k j o = ground arith

  -- Creating a sandbox in a pool that is not poisoned does not panic, returns the drawn identifier,
  -- does not poison the pool, and registers that identifier beside those before.
  pub create-registered :
      (id : Uuid) (now : ℕ) (runtime : Text) (pool : SandboxPool index_map)
      → pool.poisoned ≡ false
      → (after : SandboxPool index_map) × (create index_map id now runtime pool ≡ value (id, after))
        × (after.poisoned ≡ false)
        × ((j : Uuid) → registered after j ≡ (id == j || registered pool j))
  unfolding create lock registered
  create-registered id now runtime pool h =
      let entry : SandboxEntry = record { runtime = runtime; created_at = now } in
      (
        record pool { entries = index_map.insert id entry pool.entries },
        rw h,
        h,
        λ j. rw (index_map.get-insert id j entry pool.entries) (some_insert id j entry _),
      )

  pub remove-registered :
      (id : Uuid) (pool : SandboxPool index_map)
      → pool.poisoned ≡ false
      → (after : SandboxPool index_map) × (remove index_map id pool
          ≡ value (registered pool id, after))
        × (after.poisoned ≡ false)
        × ((j : Uuid) → registered after j ≡ (not (id == j) && registered pool j))
  unfolding remove lock registered
  remove-registered id pool h = (
    record pool { entries = (index_map.shift_remove id pool.entries).1 },
    rw (h, index_map.shift_remove_value id pool.entries),
    h,
    λ j. rw (index_map.get-shift_remove id j pool.entries) (some_remove id j _),
  )

  pub contains-registered :
      (id : Uuid) (pool : SandboxPool index_map)
      → pool.poisoned ≡ false
      → contains index_map id pool ≡ value (registered pool id)
  unfolding contains lock registered
  contains-registered id pool h = rw (h, index_map.contains_key-get id pool.entries)

  pub registered-new : (j : Uuid) → registered (new_pool index_map) j ≡ false
  unfolding registered new_pool
  registered-new j = rw (index_map.get-empty j)
