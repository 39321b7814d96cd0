-- ===== src/Suite/Pool.antt =====
-- The unit tests of forge-gateway/src/pool.rs. The identifiers that `Uuid::new_v4` draws, and the times, are
-- arguments.
use apeiron.Base.{
  ℕ, ◌≡◌, refl, arith, Bool, true, false, not, ◌&&◌, ◌||◌, List, [], ◌∷◌, ◌==◌, length, codes,
}
use apeiron.Base.Families.{eq_self}
use apeiron.Base.Outcome.{Outcome, value, ◌>>=◌}
use apeiron.Core.Id.{Uuid}
use apeiron.Gateway.Pool.Registry.{registered, create-registered}
use apeiron.Gateway.Pool.{
  SandboxEntry, IndexMap, SandboxPool, new_pool, create, remove, contains, lock,
}

-- `HashSet::insert`: whether the value was not there.
abbrev is_member : Uuid → List Uuid → Bool
is_member id [] = false
is_member id (x ∷ xs) = id == x || is_member id xs

module _ (index_map : IndexMap SandboxEntry) where
  unfoldable pub sandbox_pool_create_and_remove_lifecycle : Uuid → ℕ → Outcome Bool
  sandbox_pool_create_and_remove_lifecycle random now = do
    (id, pool) ← create index_map random now (codes "node") (new_pool index_map)
    exists ← contains index_map id pool
    (removed, pool') ← remove index_map id pool
    still ← contains index_map id pool'
    value (exists && removed && not still)

  unfoldable pub sandbox_pool_not_found_returns_false : Uuid → Outcome Bool
  sandbox_pool_not_found_returns_false unknown = do
    found ← contains index_map unknown (new_pool index_map)
    (removed, pool) ← remove index_map unknown (new_pool index_map)
    value (not found && not removed)

  unfoldable pub sandbox_pool_multiple_sandboxes_are_independent : Uuid → Uuid → ℕ → Outcome Bool
  sandbox_pool_multiple_sandboxes_are_independent random_a random_b now = do
    (id_a, pool) ← create index_map random_a now (codes "node") (new_pool index_map)
    (id_b, pool') ← create index_map random_b now (codes "python") pool
    a_exists ← contains index_map id_a pool'
    b_exists ← contains index_map id_b pool'
    (removed, pool'') ← remove index_map id_a pool'
    a_still ← contains index_map id_a pool''
    b_still ← contains index_map id_b pool''
    value (a_exists && b_exists && removed && not a_still && b_still)

  -- The creates take the lock one after the other, in the order of the list.
  unfoldable pub create_all :
      List Uuid → ℕ → SandboxPool index_map → Outcome (List Uuid × SandboxPool index_map)
  create_all [] now pool = value ([], pool)
  create_all (random ∷ randoms) now pool = do
    (id, pool') ← create index_map random now (codes "node") pool
    (ids, pool'') ← create_all randoms now pool'
    value (id ∷ ids, pool'')

all_new : List Uuid → List Uuid → Bool
all_new seen [] = true
all_new seen (id ∷ ids) = not (is_member id seen) && all_new (id ∷ seen) ids

module _ (index_map : IndexMap SandboxEntry) where
  unfoldable pub sandbox_pool_concurrent_create_all_unique : List Uuid → ℕ → Outcome Bool
  unfolding all_new
  sandbox_pool_concurrent_create_all_unique randoms now = do
    (ids, pool) ← create_all index_map randoms now (new_pool index_map)
    value (all_new [] ids && length ids == 16)

module _ (index_map : IndexMap SandboxEntry) where
  -- The test of the life of a sandbox passes, whatever identifier is drawn.
  pub lifecycle_test :
      (id : Uuid) (now : ℕ) → sandbox_pool_create_and_remove_lifecycle index_map id now ≡ value true
  unfolding sandbox_pool_create_and_remove_lifecycle create contains remove lock new_pool
  lifecycle_test id now = simp (
    index_map.contains_key-get, index_map.shift_remove_value, index_map.get-insert,
    index_map.get-shift_remove, eq_self,
  )

  pub not_found_test :
      (unknown : Uuid) → sandbox_pool_not_found_returns_false index_map unknown ≡ value true
  unfolding sandbox_pool_not_found_returns_false contains remove lock new_pool
  not_found_test unknown =
      simp (index_map.contains_key-get, index_map.shift_remove_value, index_map.get-empty)

  pub independent_test :
      (a b : Uuid) (now : ℕ)
      → (a == b) ≡ false
      → sandbox_pool_multiple_sandboxes_are_independent index_map a b now ≡ value true
  unfolding sandbox_pool_multiple_sandboxes_are_independent create contains remove lock new_pool
  independent_test a b now h =
      let h' : (b == a) ≡ false = ground arith in
      simp (
        index_map.contains_key-get, index_map.shift_remove_value, index_map.get-insert,
        index_map.get-shift_remove, eq_self, h, h',
      )

  -- In a pool that is not poisoned, creates do not panic, return the identifiers that were drawn, in
  -- their order, and register these beside those before.
  pub create_all-registered :
      (ids : List Uuid) (now : ℕ) (pool : SandboxPool index_map)
      → pool.poisoned ≡ false
      → (after : SandboxPool index_map) × (create_all index_map ids now pool ≡ value (ids, after))
        × ((j : Uuid)
            → registered index_map after j ≡ (is_member j ids || registered index_map pool j))
  unfolding create_all
  create_all-registered [] now pool h = (pool, refl, λ j. refl)
  create_all-registered (id ∷ ids) now pool h =
      let (pool', e, h', r) = create-registered index_map id now (codes "node") pool h in
      let (after, e', r') = create_all-registered ids now pool' h' in
      (after, rw (e, e'), λ j. ground (arith, r j, r' j))

  -- The test of the concurrent creates passes for every 16 identifiers, all different.
  unique_test :
      (ids : List Uuid) (now : ℕ)
      → all_new [] ids ≡ true
      → length ids ≡ 16
      → sandbox_pool_concurrent_create_all_unique index_map ids now ≡ value true
  unfolding sandbox_pool_concurrent_create_all_unique new_pool
  unique_test ids now h k =
      let (after, e, r) = create_all-registered ids now (new_pool index_map) refl in
      rw (e, h, k) refl
