-- ===== src/Tests/Requests.antt =====
-- Requests that two tasks serve at the same time (forge-gateway/src/routes.rs).
use apeiron.Base.{
  ℕ, zero, suc, ◌+◌, ◌≤◌, ◌≡◌, refl, [], ◌∷◌, true, false, leb, ◌==◌, arith, if◌then◌else◌, length,
  codes,
}
use apeiron.Action.{Result, ok}
use apeiron.Action.Rules.{Fails}
use apeiron.Gateway.Pool.Registry.{registered}
use apeiron.Gateway.GatewayError.{GatewayError, created_201}
use apeiron.Gateway.Routes.{
  Response, Request, create_request, shell_request, created, reply, handle,
}
use apeiron.Gateway.Routes.Sections.{
  Pc, idle, received, answered, running_shell, section, sections, requests_alone,
}
use apeiron.Gateway.Routes.Concurrent.{
  FreshDraws, System, counted, start, is_running, run_section, at_place, request_step, section_step,
  answer_step, Steps, stop, then_step, Reachable,
}
use apeiron.Gateway.Routes.Concurrent.Safety.{destroyed_once, program_of_created}
use apeiron.Gateway.Routes.Concurrent.Race.{raced, destroy_race}
use apeiron.Gateway.Routes.Concurrent.Answers.{
  Run, no_move, own_section, other_move, request_answered,
}
use apeiron.Base.{inl}
use apeiron.Base.Int.{pos}
use apeiron.Base.Outcome.{value}
use apeiron.Std.Utf8.Encode.{encode}
use apeiron.Gateway.Process.{Host, finished, exited}
use apeiron.Gateway.GatewayError.{ok_200}
use apeiron.Gateway.Routes.{State, ShellBody, result, serve}
use apeiron.Gateway.Routes.Responses.{shell_program}
use apeiron.Gateway.Routes.Outputs.{told_of, elapsed, program_for, serve-output}
use apeiron.Tests.Sandboxes.{assoc, host}

-- The identifiers up to the length of the history were drawn.
draws : FreshDraws host
draws = record {
  used = λ past id. leb id (length past);
  draw_new = λ past. ground arith;
  draw_used = λ past. ground arith;
  deed_keeps = λ d past id h. ground arith;
}

-- Task 0 creates a sandbox, and its answer is sent.
abbrev node_request : Request assoc host
node_request = create_request (record { runtime = codes "node" })

abbrev created_one : System assoc host
created_one =
    run_section assoc host 0 (
      run_section assoc host 0
        (at_place assoc host 0 (received node_request) (start assoc host [])))

abbrev one_sandbox : System assoc host
one_sandbox = at_place assoc host 0 idle created_one

one_sandbox-Reachable : Reachable assoc host [] one_sandbox
unfolding start at_place run_section section apeiron.Base.text_eq apeiron.Gateway.Pool.create
    apeiron.Gateway.Pool.lock apeiron.Gateway.Routes.new_state
one_sandbox-Reachable =
    then_step
      (then_step (then_step (then_step stop (request_step 0 node_request refl)) (section_step 0))
        (section_step 0))
      (answer_step 0 (ok (reply created_201 (created (record { id = 1 })))) refl)

destroyed_once_example :
    (one_sandbox.created 1
      ≡ counted (registered assoc one_sandbox.site.pool 1) (one_sandbox.destroyed 1))
    × (one_sandbox.created 1 ≤ 1)
destroyed_once_example = destroyed_once draws [] one_sandbox 1 one_sandbox-Reachable

-- Task 0 is at running a program for it.
abbrev busy : System assoc host
busy = run_section assoc host 0 (
    at_place assoc host 0 (received (shell_request 1 (record { command = codes "ls" })))
      one_sandbox)

busy-Reachable : Reachable assoc host [] busy
unfolding at_place
busy-Reachable =
    then_step
      (then_step one_sandbox-Reachable
        (request_step 0 (shell_request 1 (record { command = codes "ls" })) refl))
      (section_step 0)

program_of_created_example : busy.created 1 ≡ 1
unfolding start at_place run_section section apeiron.Base.text_eq apeiron.Gateway.Pool.create
    apeiron.Gateway.Pool.lock apeiron.Gateway.Routes.new_state is_running
    apeiron.Gateway.Pool.contains apeiron.Gateway.Routes.Sections.checked
program_of_created_example = program_of_created draws [] busy 0 1 busy-Reachable refl

destroy_race_example :
    Steps assoc host one_sandbox (raced assoc host one_sandbox 0 1 1 (codes "ls"))
    × ((raced assoc host one_sandbox 0 1 1 (codes "ls")).tasks 0 ≡ running_shell 1 (codes "ls"))
    × (registered assoc (raced assoc host one_sandbox 0 1 1 (codes "ls")).site.pool 1 ≡ false)
unfolding start at_place run_section section apeiron.Base.text_eq apeiron.Gateway.Pool.create
    apeiron.Gateway.Pool.lock apeiron.Gateway.Routes.new_state registered
destroy_race_example =
    destroy_race draws [] one_sandbox 0 1 1 (codes "ls") one_sandbox-Reachable refl refl refl refl

alone_node : sections assoc host 2 (received node_request) one_sandbox.site ≡ (
  answered (handle assoc host node_request one_sandbox.site).0,
  (handle assoc host node_request one_sandbox.site).1,
)
alone_node = requests_alone assoc host node_request one_sandbox.site

-- Task 0 waits with a request, and task 1 takes one in between.
abbrev ls_request : Request assoc host
ls_request = shell_request 1 (record { command = codes "ls" })

abbrev waiting : System assoc host
waiting = at_place assoc host 0 (received ls_request) one_sandbox

abbrev both_in : System assoc host
both_in = at_place assoc host 1 (received ls_request) (run_section assoc host 0 waiting)

waiting-Reachable : Reachable assoc host [] waiting
unfolding at_place
waiting-Reachable = then_step one_sandbox-Reachable (request_step 0 ls_request refl)

two_sections : Run assoc host 0 waiting 2 (run_section assoc host 0 both_in)
unfolding start at_place run_section
two_sections = own_section (other_move (own_section no_move) (request_step 1 ls_request refl) refl)

request_answered_example :
    (answer : Result GatewayError Response) × ((run_section assoc host 0 both_in).tasks 0
      ≡ answered answer)
    × Fails (λ e. Unit {0}) answer
unfolding at_place
request_answered_example =
    request_answered assoc host 0 [] ls_request waiting (run_section assoc host 0 both_in)
      waiting-Reachable refl two_sections

-- A host whose programs print their code in UTF-8.
abbrev printing : Host
printing = record host {
  run = λ past program.
      finished (record { status = exited (pos 0); stdout = encode program.code; stderr = [] });
}

abbrev one_registered : State assoc printing
one_registered = record {
  pool = record {
    entries = (1, record { created_at = 0; runtime = codes "node" }) ∷ [];
    poisoned = false;
  };
  history = [];
}

-- It prints a letter, an accented letter and the euro sign.
abbrev euro : ShellBody
euro = record { command = 0x61 ∷ 0xe9 ∷ 0x20ac ∷ [] }

serve-output_example :
    (serve assoc printing (shell_request 1 euro) one_registered).0
    ≡ value (
        reply ok_200 (
          result (
            told_of
              (record { status = exited (pos 0); stdout = encode euro.command; stderr = [] })
              euro.command
              []
              (elapsed assoc printing (shell_program euro.command) []))))
unfolding registered program_for shell_program encode
serve-output_example =
    serve-output assoc printing (shell_request 1 euro) one_registered (shell_program euro.command)
      (record { status = exited (pos 0); stdout = encode euro.command; stderr = [] }) euro.command
      [] refl refl refl
      (record {
        stdout_is = refl;
        stderr_is = refl;
        stdout_scalar = (inl (omega arith), (inl (omega arith), (inl (omega arith), tt)));
        stderr_scalar = tt;
      })
