-- ===== src/Lib.antt =====
-- Codex Snooze: shell jobs that outlive the agent's turn, their results, and the delivery of these.
--
-- A job is a directory of JSON files. The command line submits it, a supervisor runs its command and
-- writes the result, recovery repairs the directory after a crash, and a controller delivers the
-- completion event: as a file, through `codex exec resume`, or through the App Server as a turn of a
-- live thread, for which a router keeps a second record. A gate decides by measured evidence which way
-- is open, and a ledger records which backend owns a job in the background.
--
-- Store.antt: snooze_core/models.py, store.py and `changed` of git_fingerprint.py. Store/States has the
-- enumerations and the two transition tables, Store/Records the objects in the files of a directory,
-- Store/Update the methods of JobStore as actions on one directory (`Job`), Store/Serial the text of a
-- specification and its reading. A file is missing, unreadable, or holds its object.
-- Delivery.antt: snooze_controller/controller.py, every method. Delivery/Commands has the calls an
-- operator can make, in any order, and the files under it what no such sequence does.
-- Logs.antt: snooze_core/logging.py, the writes of BoundedLogSet and the preview, on bytes as numbers.
-- Process.antt: `identity_matches` of snooze_core/process_identity.py.
-- Recovery.antt: snooze_core/recovery.py, `recover_job` and what it calls.
-- Supervisor.antt: `run_job`, `cancel_job` and `_write_terminal_failure` of snooze_core/supervisor.py;
-- Supervisor/Crash stops the three final writes at each point and recovers.
-- Gate.antt: snooze_controller/gate.py.
-- Ownership.antt: snooze_controller/v05_backend.py: the choice of a backend, the comparison of commands
-- and the ledger.
-- Router.antt: snooze_controller/completion_router.py.
-- AppServer.antt: snooze_controller/app_server_process.py: the lifecycle of the process and the waiters
-- of its requests. AppServer/Queues has the queues of the waiters, AppServer/Steps the step relation that
-- its threads make, AppServer/Waiters the invariant of the waiters, AppServer/Answers what a request is answered.
-- Registry.antt: snooze_controller/thread_registry.py. Registry/Writes says what one call may write,
-- Registry/Bindings what any calls keep, Registry/Recording what a recording and an update return.
-- Handoff.antt: HandoffController of snooze_controller/handoff.py, which uses the registry, the router
-- and the job's result; Handoff/EndToEnd puts the supervisor before it.
-- NativeBackend.antt: the wait of snooze_controller/native_backend.py over the event log of
-- app_server_process.py.
-- Protocol.antt: the messages of the App Server. Protocol/Json has the values, Protocol/Schema the types
-- of TypeScript and the test whether a value belongs to one, Protocol/Types the generated types of
-- probes/app-server-ts, one definition for each file, Protocol/Requests the parameters that
-- snooze_controller/agent.py, handoff.py, native_backend.py and app_server_process.py send, and
-- Protocol/Messages the whole messages against the union of all requests.
-- Examples.antt: concrete directories and runs.
--
-- An action (Prelude/Exec.antt) takes the state and gives a value or an error, and the state: what was
-- written before an exception stays written. A method of the store or of the ledger holds a lock, so it
-- is one step. The routes of the router hold theirs in blocks: Router/Traces takes each block as a step.
-- The end of a run of the supervisor, `resume_cli` and `AppServerProcess.stop` are one step each, with
-- nobody else acting in between, where a theorem does not say otherwise. What `utc_now()`, `uuid4()` and the digests return are arguments: a theorem about digests
-- holds for any function in their place. The processes of the host, the run of the command line, the end
-- of the child and what others write meanwhile are arguments too. Durations are texts, since nothing is
-- computed with them. There is no fuel: every function is total, and a wait with a
-- deadline is a recursion over what its polls see, a list of any length. The numbers are exit codes,
-- signals, counts of attempts and lengths, and the limits of the logs are arguments.
--
-- An object of TypeScript may have properties that its type does not name. `undefined`, which JSON does
-- not have, is no value; numbers are integers.
--
-- Not modelled: the command line, the opening of the log files and writes of them that fail, fsync
-- and rename of a write, the pipes of the App Server's process, its trace and the answers to its own
-- requests, the search for the marker of a handoff in the messages and the handoff tool, the reading of
-- responses in snooze_controller/agent.py, whose effects are on the outside; the JSON schemas and the
-- further copies of the generated types under results/; the index files, which only pass names on; the
-- probes.
pub mod Prelude
pub mod Store
pub mod Logs
pub mod Delivery
pub mod Process
pub mod Recovery
pub mod Supervisor
pub mod Protocol
pub mod Gate
pub mod Ownership
pub mod Router
pub mod AppServer
pub mod Registry
pub mod Handoff
pub mod NativeBackend
mod Examples
