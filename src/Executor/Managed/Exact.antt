-- ===== src/Executor/Managed/Exact.antt =====
-- The orchestrator over Firecracker is exact: which processes are not dropped and which VMs are
-- registered, by the handles that the client has.
use apeiron.Base.{
  ℕ, suc, ◌+◌, ◌≡◌, ap, ◌∙◌, sym, Bool, true, false, ◌||◌, ◌==◌, List, ◌∷◌, map, arith, count,
  ==_iff, Bool-cases, inl, inr, length, if◌then◌else◌,
}
use apeiron.Core.Id.{Uuid}
use apeiron.Std.BTreeSet.{
  contains, IsAscending, contains-insert, insert-IsAscending, length-insert, insert,
}
use apeiron.Executor.Config.{Pid, VmHandle}
use apeiron.Executor.Action.{ok}
use apeiron.Executor.Host.{Env, Trace}
use apeiron.Executor.Firecracker.Processes.{undropped}
use apeiron.Executor.Firecracker.Identifiers.{drawn, NeverTwice, DrawsOne}
use apeiron.Executor.Orchestrator.{active_count}
use apeiron.Executor.Managed.{Client}

abbrev pub bit : Bool → ℕ
bit b = if b then 1 else 0

abbrev pub ids : List VmHandle → List Uuid
ids = map (λ (h : VmHandle). h.id)

abbrev pub pids : List VmHandle → List Pid
pids = map (λ (h : VmHandle). h.process)

bit-insert :
    (x a : Uuid) (xs : List Uuid)
    → contains a xs ≡ false
    → bit (contains x (insert a xs))
      ≡ (if a == x then suc (bit (contains x xs)) else bit (contains x xs))
bit-insert x a xs c = elim (Bool-cases (x == a)) [
  | inl q ↦
      (let e = ap (λ y. contains y xs) ((==_iff x a).0 q) in
        ground (arith, contains-insert x a xs, c, e))
  | inr q ↦ ground (arith, contains-insert x a xs)
]

-- Every process that is not dropped is that of one handle of the client's. The registry has each identifier of
-- a handle or of a failed terminate once, and no other; all of them were drawn.
pub record IsExact (env : Env) (s : Client) : Type 0 where
  pub ascending : IsAscending s.orch.active_vms
  pub known :
      (id : Uuid) → contains id s.orch.active_vms ≡ true → drawn env s.orch.governed id ≡ true
  pub registered :
      (id : Uuid) → bit (contains id s.orch.active_vms) ≡ count id (ids s.handles) + count id s.lost
  pub kept : (p : Pid) → count p (undropped s.orch.governed) ≡ count p (pids s.handles)
  pub number : length (undropped s.orch.governed) ≡ length s.handles
  pub counted : active_count s.orch ≡ length s.handles + length s.lost

-- The backend did something that neither starts nor ends a process.
pub kept-IsExact :
    (env : Env) (s : Client) (t : Trace)
    → undropped t ≡ undropped s.orch.governed
    → ((id : Uuid) → drawn env s.orch.governed id ≡ true → drawn env t id ≡ true)
    → IsExact env s
    → IsExact env (record s { orch = record { governed = t; active_vms = s.orch.active_vms } })
unfolding active_count
kept-IsExact env s t l d h = record {
  ascending = h.ascending;
  known = λ id c. d id (h.known id c);
  registered = h.registered;
  kept = λ p. ap (count p) l ∙ h.kept p;
  number = ap length l ∙ h.number;
  counted = h.counted;
}

module _ {env : Env} (never : NeverTwice env) where
  not_registered :
      (s : Client) (id : Uuid)
      → IsExact env s
      → id ≡ env.random s.orch.governed
      → contains id s.orch.active_vms ≡ false
  not_registered s id h p = elim (Bool-cases (contains id s.orch.active_vms)) [
    | inl c ↦ (let d = sym (h.known id c) ∙ ap (drawn env s.orch.governed) p ∙ never.unseen _ in cc)
    | inr c ↦ c
  ]

  pub returned-IsExact :
      (s : Client) (handle : VmHandle) (t : Trace)
      → DrawsOne env (ok handle, t) s.orch.governed
      → undropped t ≡ handle.process ∷ undropped s.orch.governed
      → IsExact env s
      → IsExact env (record {
        handles = handle ∷ s.handles;
        lost = s.lost;
        orch = record { governed = t; active_vms = insert handle.id s.orch.active_vms };
      })
  unfolding DrawsOne active_count
  returned-IsExact s handle t (p, d) l h =
      let c = not_registered s handle.id h p in
      let known_too : (id : Uuid)
          → contains id (insert handle.id s.orch.active_vms) ≡ true
          → (env.random s.orch.governed == id || drawn env s.orch.governed id) ≡ true =
        λ id e. ground (arith, contains-insert id handle.id s.orch.active_vms, p, h.known id, e) in
      record {
        ascending = insert-IsAscending handle.id s.orch.active_vms h.ascending;
        known = λ id e. d id ∙ known_too id e;
        registered =
            λ id. bit-insert id handle.id s.orch.active_vms c ∙ ground (arith, h.registered id);
        kept = λ q. ap (count q) l ∙ ground (arith, h.kept q);
        number = ap length l ∙ ap suc h.number;
        counted =
            ground (arith, length-insert handle.id s.orch.active_vms h.ascending, h.counted, c);
      }
