-- ===== src/Lib.antt =====
-- Apeiron runs blocks of work in Firecracker microVMs and records what they gave. Its parts, with
-- the files of this library that model them:
--
-- forge-core: the data that the other crates share. forge-core/src/id.rs is Core/Id, trust.rs and
-- error.rs are Core/Trust and Core/CoreError, block.rs is Core/Block, execution.rs is
-- Core/Execution, examples.rs is Core/Examples.
-- forge-executor: brings VMs up and runs commands in them. config.rs and handle.rs are
-- Executor/Config, error.rs is Executor/ExecutorError, the trait of backend.rs is the record
-- Executor/Backend, unix_client.rs is Executor/UnixClient. firecracker.rs is Executor/Firecracker
-- with one module for each group of methods (Lifecycle, Snapshot, Execute), and its parser of the
-- serial console is Serial/Output. orchestrator.rs is Executor/Orchestrator, runner.rs is
-- Executor/Runner.
-- forge-gateway: the HTTP interface. pool.rs is Gateway/Pool, error.rs is Gateway/GatewayError,
-- routes.rs is Gateway/Routes with the programs that its handlers run in Gateway/Process, main.rs
-- is Gateway/Server.
-- The unit tests of the crates and the fuzz targets are the functions of Suite: what a test draws
-- at random is an argument, and the answer is whether its assertions hold. The integration tests of
-- forge-executor/tests are the actions of Suite/Vms, over the model of the Firecracker backend.
--
-- How they interact: a request reaches a handler of Gateway/Routes, which asks the pool of
-- sandboxes and runs a program on the host. A block is run by Executor/Runner, which gives a
-- command to a VmmBackend and hashes what comes back; Executor/Orchestrator keeps a registry of the
-- VMs that a VmmBackend brought up. Executor/Firecracker is the backend: it starts a process,
-- configures it through Executor/UnixClient, and reads the output with Serial/Output.
--
-- State is passed explicitly. A method is an Action: a function from a state to a result (ok, err
-- or panicked) and a state, so what was done before an error stays done. The state of the
-- Firecracker backend is the trace of what it did (Executor/Host); each answer of the operating
-- system, of the processes and of the other crates is an arbitrary function of that trace (the
-- record Env). A child process in a local variable is killed when it is dropped, since it is
-- started with kill_on_drop: `holding` and `scoped` of Executor/Host write these drops out. The
-- state of the orchestrator is the backend's state and the registry; that of the gateway is the
-- pool and the history of its host. A slice out of range, an unwrap of an error, a poisoned lock
-- and a json! with a path that is not UTF-8 panic, and the models say so (Base/Outcome).
--
-- Tasks that share an orchestrator are in Executor/Orchestrator/Interleaving: Sections cuts each
-- method into its calls of the backend and its looks and changes under the lock, and a step
-- relation runs the sections of any number of tasks in any order; Interleaving/Locking adds who has
-- the lock of the registry and who waits for it. Who may call with which handle is what the types
-- `&VmHandle` and `VmHandle` say: a snapshot borrows a handle, a terminate takes it. In the same
-- way Gateway/Routes/Sections cuts the handlers at the lock of the pool and at the start of a
-- program, and Gateway/Routes/Concurrent serves the requests of any number of tasks in any
-- interleaving.
--
-- Executor/Managed puts the orchestrator on the Firecracker backend: a client makes any calls with
-- the handles that it is given. Executor/Firecracker/Identifiers gives what the tasks rely on, that
-- no two handles of that backend have one identifier, where the host draws none twice.
--
-- Numbers are natural numbers; an i32 is an integer with its range as a predicate (Base/Int), and
-- parsing one refuses what is out of range. An f64 is its bit pattern, compared as IEEE 754 says.
-- Text is the list of its code points, bytes are a list of numbers, a path is a list of numbers,
-- with its text (Path::to_str) from Env, or none if it is not UTF-8; where an error names a path,
-- the text is the path as it is. Of the standard library, what the source uses is in Std: UTF-8,
-- trim, decimal numbers, the ordered set, paths.
--
-- Bounds: `wait_for_socket` polls at most 50 times, as the source does. The digits of n are printed
-- with the fuel n + 1, which is enough since each step divides by ten (Std/Decimal/RoundTrip). All
-- other recursion is structural.
--
-- Parameters for code of other crates: IndexMap (indexmap) in Gateway/Pool, Base64 (base64) in
-- Serial/Output/Report, Sha256 (sha2) in Executor/Runner, Clock (chrono, uuid), UuidText (uuid) in
-- Core/Id/Forms, Env (tokio, hyper, serde_json), Host (the programs that the gateway runs). Tests
-- has an instance of each.
--
-- Not modelled: the layers of the router, which are input and output; forge-auditor and forge-nix,
-- which are empty; the log lines; the derived serde code, and the tests of it; the tests that say
-- that two given outputs have different hashes or one known hash, which rest on SHA-256 itself; the
-- two fuzz targets that only run the parser of serde_json. A call of the backend, and a run of a
-- program, is one step of a task: what it does to the state that it governs, it does at one moment.
-- Waiting for the lock of the pool of sandboxes: a section under it always runs. That a process
-- ends by itself: the models say which processes were started and not dropped, and one of these may
-- have ended.
--
-- Base has the shared names, Action the actions and the rules about them, Tests the theorems used
-- at concrete inputs.
pub mod Base
pub mod Action
pub mod Std
pub mod Core
pub mod Serial
pub mod Executor
pub mod Gateway
pub mod Suite
pub mod Tests
