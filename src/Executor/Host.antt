-- ===== src/Executor/Host.antt =====
-- What lies outside the executor: the operating system, the Firecracker processes and the crates.
-- The history of what the executor did is the state; each answer of the outside is an arbitrary
-- function of that history, so a theorem for every `Env` holds whatever the outside does, and
-- whenever.
use apeiron.Base.Outcome.{Outcome, value, panic}
use apeiron.Base.{
  ℕ, ◌≡◌, refl, ◌⊎◌, inl, inr, Bool, String, Option, none, some, List, ◌∷◌, Bytes, Text,
}
use apeiron.Core.Id.{Uuid}
use apeiron.Core.Block.{DateTime}
use apeiron.Core.Execution.{Duration}
use apeiron.Std.FilePath.{PathBuf}
use apeiron.Executor.ExecutorError.{ExecutorError, IoError, io}
use apeiron.Executor.Config.{Pid}
use apeiron.Executor.Action.{Result, ok, err, panicked, Action}

-- A value of `json!`.
mutual
  pub data Json : Type 0 where
    text : Text → Json
    number : ℕ → Json
    boolean : Bool → Json
    object : Fields → Json

  pub data Fields : Type 0 where
    end : Fields
    field : String → Json → Fields → Fields

-- The methods of HTTP that the executor uses.
pub data Method : Type 0 where
  put patch : Method

pub record Request : Type 0 where
  pub method : Method
  pub uri_path : Text
  pub headers : List (Text × Text)
  pub body : Text

pub data Event : Type 0 where
  -- an identifier was drawn, the clock was read, a path was examined
  drew_uuid : Event
  read_clock : Event
  -- a directory was to be made, a file to be removed
  create_dir_all : PathBuf → Event
  remove_file : PathBuf → Event
  sleep : ℕ → Event
  -- a process was started; its end was awaited; its handle was dropped, which kills it
  started : Pid → PathBuf → PathBuf → Event
  killed : Pid → Event
  waited : Pid → Event
  dropped : Pid → Event
  read_output : Pid → Event
  -- a request of the Firecracker API was begun: socket, method, path, body
  api_call : PathBuf → Method → Text → Option Text → Event

-- Newest first.
abbrev pub Trace : Type 0
Trace = List Event

pub data Answer (A : Type 0) : Type 0 where
  done : A → Answer A
  failed : IoError → Answer A

pub Answer-cases :
    {A : Type 0} (answer : Answer A)
    → ((a : A) × (answer ≡ done a)) ⊎ ((e : IoError) × (answer ≡ failed e))
Answer-cases (done a) = inl (a, refl)
Answer-cases (failed e) = inr (e, refl)

-- A step of the crate `hyper`, or the text of its error.
pub data Step (A : Type 0) : Type 0 where
  passed : A → Step A
  broke : Text → Step A

pub data Output : Type 0 where
  timed_out : Output
  unreadable : IoError → Output
  complete : Bytes → Output

pub record Env : Type 0 where
  pub exists : Trace → PathBuf → Bool
  pub metadata : Trace → PathBuf → Answer (Unit {0})
  pub make_dirs : Trace → PathBuf → Answer (Unit {0})
  pub path_variable : Option Text
  pub random : Trace → Uuid
  pub now : Trace → DateTime
  -- `Command::new(binary).arg("--api-sock").arg(socket).spawn()`
  pub spawn : Trace → PathBuf → PathBuf → Answer Pid
  pub kill : Trace → Pid → Answer (Unit {0})
  -- the process's standard output up to its end, within the time
  pub read_to_end : Trace → Pid → Duration → Output
  -- the steps of a request of the crate `hyper`
  pub connect : Trace → PathBuf → Step (Unit {0})
  pub handshake : Trace → PathBuf → Step (Unit {0})
  pub parse_uri : Text → Step (Unit {0})
  pub build_request : Request → Step (Unit {0})
  pub send_request : Trace → Request → Step ℕ
  pub collect_body : Trace → Request → Step Bytes
  pub is_success : ℕ → Bool
  -- the texts that other crates give
  pub status_text : ℕ → Text
  pub uuid_text : Uuid → Text
  pub io_text : IoError → Text
  pub json_text : Json → Text
  -- `Path::to_str`: none for a path that is not UTF-8
  pub to_str : PathBuf → Option Text
  -- the decoder of the crate `base64`
  pub b64_decode : Bytes → Option Bytes

abbrev pub emit : Event → Action Trace (Unit {0})
emit e t = (ok tt, e ∷ t)

-- A path in `json!`: a path that is not UTF-8 cannot be serialized, and then `json!` panics.
unfoldable pub with_path : Env → PathBuf → (Json → Outcome Json) → Outcome Json
with_path env path rest = elim (env.to_str path) [ none ↦ panic | some s ↦ rest (text s) ]

-- `json!`, which may panic.
abbrev pub built : {A : Type 0} → Outcome A → Action Trace A
built (value a) t = (ok a, t)
built panic t = (panicked, t)

-- An answer that depends on the history.
abbrev pub ask : {A : Type 0} → (Trace → A) → Action Trace A
ask f t = (ok (f t), t)

-- `?` on a `std::io::Result`
abbrev pub or_io : {A : Type 0} → Answer A → Action Trace A
or_io (done a) t = (ok a, t)
or_io (failed e) t = (err (io e), t)

-- A local variable that holds a child process: when `m` leaves with an error, or panics, the handle
-- is dropped, and the process is killed (`kill_on_drop`).
abbrev pub drop_on_error : {A : Type 0} → Pid → Result A × Trace → Result A × Trace
drop_on_error pid (ok a, t) = (ok a, t)
drop_on_error pid (err e, t) = (err e, dropped pid ∷ t)
drop_on_error pid (panicked, t) = (panicked, dropped pid ∷ t)

abbrev pub holding : {A : Type 0} → Pid → Action Trace A → Action Trace A
holding pid m t = drop_on_error pid (m t)

-- The handle is dropped at the end of the scope in every case.
abbrev pub scoped : {A : Type 0} → Pid → Action Trace A → Action Trace A
scoped pid m t = let (r, t') = m t in (r, dropped pid ∷ t')

-- `Uuid::new_v4()` and `Utc::now()`
abbrev pub draw_uuid : Env → Action Trace Uuid
draw_uuid env t = (ok (env.random t), drew_uuid ∷ t)

abbrev pub clock : Env → Action Trace DateTime
clock env t = (ok (env.now t), read_clock ∷ t)

-- `tokio::fs::create_dir_all(path).await?`
abbrev pub make_directory : Env → PathBuf → Action Trace (Unit {0})
make_directory env path t = or_io (env.make_dirs t path) (create_dir_all path ∷ t)

-- Start the process that serves the API on a socket.
abbrev pub began : PathBuf → PathBuf → (IoError → ExecutorError) → Answer Pid → Action Trace Pid
began binary socket f (done pid) t = (ok pid, started pid binary socket ∷ t)
began binary socket f (failed e) t = (err (f e), t)

abbrev pub start : Env → PathBuf → PathBuf → (IoError → ExecutorError) → Action Trace Pid
start env binary socket f t = began binary socket f (env.spawn t binary socket) t
