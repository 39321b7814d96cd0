-- ===== src/Tests/Sandboxes.antt =====
-- Requests of the gateway (forge-gateway/src/routes.rs) at concrete pools.
use apeiron.Base.{
  ◌+◌, ◌≡◌, refl, false, Option, none, some, List, [], ◌∷◌, arith, ◌==◌, if◌then◌else◌, is_some,
  length, Text, codes,
}
use apeiron.Base.Int.{pos}
use apeiron.Core.Id.{Uuid}
use apeiron.Std.Decimal.{show_ℕ}
use apeiron.Gateway.Pool.{SandboxEntry, IndexMap}
use apeiron.Gateway.Pool.Registry.{registered}
use apeiron.Gateway.Process.{Host, exited, signaled, ProcessOutput, finished}
use apeiron.Gateway.Routes.{
  State, Request, create_request, destroy_request, execute_request, serve, serve_all, new_state,
}
use apeiron.Gateway.Routes.Session.{AllAnswered, told_all, serve_all-told}
use apeiron.Gateway.Routes.Responses.{
  HasStatus, status_for, serve_status, deeds_for, serve_deeds, execute_code_any_runtime,
}

abbrev pub Assoc : Type 0
Assoc = List (Uuid × SandboxEntry)

-- A map as a list of its entries.
abbrev pub find_entry : Uuid → Assoc → Option SandboxEntry
find_entry k [] = none
find_entry k ((j, v) ∷ m) = if j == k then some v else find_entry k m

abbrev pub without : Uuid → Assoc → Assoc
without k [] = []
without k ((j, v) ∷ m) = let rest = without k m in if j == k then rest else (j, v) ∷ rest

pub find_entry-without :
    (k j : Uuid) (m : Assoc)
    → find_entry j (without k m) ≡ (if k == j then none else find_entry j m)
find_entry-without k j [] = ground arith
find_entry-without k j ((i, v) ∷ m) = ground (arith, find_entry-without k j m)

abbrev pub assoc : IndexMap SandboxEntry
assoc = record {
  Map = Assoc;
  empty = [];
  insert = λ k v m. (k, v) ∷ m;
  shift_remove = λ k m. (find_entry k m, without k m);
  contains_key = λ k m. is_some (find_entry k m);
  get = find_entry;
  get-empty = λ k. refl;
  get-insert = λ k j v m. refl;
  shift_remove_value = λ k m. refl;
  get-shift_remove = find_entry-without;
  contains_key-get = λ k m. refl;
}

-- A host whose programs print their code, and whose identifiers count what was done.
abbrev pub host : Host
host = record {
  random = λ past. length past + 1;
  instant = λ past. length past;
  run = λ past program.
      finished (record { status = exited (pos 0); stdout = program.code; stderr = [] });
  io_text = show_ℕ;
  uuid_text = show_ℕ;
}

abbrev sandbox : Text → Request assoc host
sandbox runtime = create_request (record { runtime = runtime })

abbrev python_code : Request assoc host
python_code = execute_request 1 (record { code = codes "print(1)"; runtime = codes "python" })

-- A sandbox is created, one is refused, code is run in the first, and it is destroyed twice.
abbrev session : List (Request assoc host)
session =
    sandbox (codes "node")
    ∷ sandbox (codes "ruby")
    ∷ python_code
    ∷ destroy_request 1
    ∷ destroy_request 1
    ∷ []

serve_all-told_example :
    AllAnswered (serve_all assoc host session (new_state assoc host [])).0
    × ((j : Uuid)
        → registered assoc (serve_all assoc host session (new_state assoc host [])).1.pool j
          ≡ told_all assoc host session
              (serve_all assoc host session (new_state assoc host [])).0
              (λ _. false)
              j)
serve_all-told_example = serve_all-told assoc host session []

-- A gateway with one sandbox, of the given runtime.
abbrev gateway : Text → State assoc host
gateway runtime = record {
  pool = record {
    entries = (1, record { runtime = runtime; created_at = 0 }) ∷ [];
    poisoned = false;
  };
  history = [];
}

serve_status_example :
    HasStatus
      (serve assoc host python_code (gateway (codes "node"))).0
      (status_for assoc host python_code (gateway (codes "node")))
serve_status_example = serve_status assoc host python_code (gateway (codes "node")) refl

serve_deeds_example :
    (serve assoc host python_code (gateway (codes "node"))).1.history
    ≡ deeds_for assoc host python_code (gateway (codes "node"))
serve_deeds_example = serve_deeds assoc host python_code (gateway (codes "node")) refl

execute_code_any_runtime_example :
    (serve assoc host python_code (gateway (codes "node"))).0
    ≡ (serve assoc host python_code (gateway (codes "python"))).0
unfolding registered
execute_code_any_runtime_example =
    execute_code_any_runtime assoc host 1
      (record { code = codes "print(1)"; runtime = codes "python" }) (gateway (codes "node"))
      (gateway (codes "python")) refl refl refl refl refl

abbrev killed : ProcessOutput
killed = record { status = signaled 9; stdout = []; stderr = [] }
