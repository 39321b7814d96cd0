-- ===== src/Gateway/Pool.antt =====
-- forge-gateway/src/pool.rs. The crate `indexmap` is the parameter `IndexMap`; `get` is there to say
-- what its operations do.
pub mod Registry
use apeiron.Base.{ℕ, ◌≡◌, Bool, true, false, Option, none, some, ◌==◌, if◌then◌else◌, is_some, Text}
use apeiron.Base.Outcome.{Outcome, value, panic, ◌>>=◌}
use apeiron.Core.Id.{Uuid}

pub record SandboxEntry : Type 0 where
  pub runtime : Text
  pub created_at : ℕ

pub record IndexMap (V : Type 0) : Type 1 where
  pub Map : Type 0
  pub empty : Map
  pub insert : Uuid → V → Map → Map
  pub shift_remove : Uuid → Map → Option V × Map
  pub contains_key : Uuid → Map → Bool
  pub get : Uuid → Map → Option V
  pub get-empty : (k : Uuid) → get k empty ≡ none
  pub get-insert :
      (k j : Uuid) (v : V) (m : Map) → get j (insert k v m) ≡ (if k == j then some v else get j m)
  pub shift_remove_value : (k : Uuid) (m : Map) → (shift_remove k m).0 ≡ get k m
  pub get-shift_remove :
      (k j : Uuid) (m : Map) → get j (shift_remove k m).1 ≡ (if k == j then none else get j m)
  pub contains_key-get : (k : Uuid) (m : Map) → contains_key k m ≡ is_some (get k m)

module _ (index_map : IndexMap SandboxEntry) where
  -- The map behind the `RwLock`; a thread that panics while it holds the lock poisons it.
  pub record SandboxPool : Type 0 where
    pub entries : index_map.Map
    pub poisoned : Bool

  unfoldable pub new_pool : SandboxPool
  new_pool = record { entries = index_map.empty; poisoned = false }

  -- `self.entries.write().expect(…)`, `self.entries.read().expect(…)`
  unfoldable pub lock : SandboxPool → Outcome index_map.Map
  lock pool = if pool.poisoned then panic else value pool.entries

  -- The identifier of `Uuid::new_v4` and the time of `Instant::now` come first.
  unfoldable pub create : Uuid → ℕ → Text → SandboxPool → Outcome (Uuid × SandboxPool)
  create id now runtime pool = do
    entries ← lock pool
    let entry : SandboxEntry = record { runtime = runtime; created_at = now }
    value (id, record pool { entries = index_map.insert id entry entries })

  unfoldable pub remove : Uuid → SandboxPool → Outcome (Bool × SandboxPool)
  remove id pool = do
    entries ← lock pool
    (let (removed, rest) = index_map.shift_remove id entries in
        value (is_some removed, record pool { entries = rest }))

  unfoldable pub contains : Uuid → SandboxPool → Outcome Bool
  contains id pool = do entries ← lock pool; value (index_map.contains_key id entries)
