-- ===== src/Lib.antt =====
-- GPTLink lets a model work on a paired device. The Gateway keeps a database of devices, pairing
-- codes, leases, request claims, jobs, approvals and audit events; it pairs devices, authenticates
-- them, admits mutations under a lease and once for each request id, and audits what it did. An
-- Agent on the device carries out what the Gateway sends.
--
-- The files and the code that they are about, with paths from the repository's root:
--   Prelude               tests, lists, integers and text that the other modules share
--   Common                src/gptlink/common/types.py and the exceptions; JSON values; `Action`, the
--                         state and exception monad of all stateful code (the state is kept beside
--                         the exception, and `transaction` rolls back); `Keeps`, invariants of actions
--   Common.Config         src/gptlink/common/config.py
--   Persistence           src/gptlink/persistence: `Tables` is the database, and each method of a
--                         repository is an action on it, with the unique, check and foreign keys
--   Gateway.App           src/gptlink/gateway/app.py, pairing_api.py and health.py
--   Gateway.Leases        src/gptlink/gateway/leases.py
--   Gateway.Auth          src/gptlink/gateway/auth.py: stored token hashes, authentication, claims
--   Gateway.Audit         src/gptlink/gateway/audit.py
--   Gateway.Pairing       src/gptlink/gateway/pairing.py
--   Protocol              src/gptlink/protocol/messages.py: messages, their constraints and tags
--   Agent.Paths           src/gptlink/agent/filesystem/paths.py
--   Agent.Files           src/gptlink/agent/filesystem/operations.py
--   Agent.Jobs            src/gptlink/agent/jobs.py: a job's phase is the state of its task, and calls,
--                         output, endings and cancellations are events on the list of jobs
--   Agent.Reads           src/gptlink/agent/read_operations.py
--   Agent.Dispatcher      src/gptlink/agent/dispatcher.py, over a record of the services' operations
--   Agent.Client          one connection of src/gptlink/agent/client.py
--   Agent.Credentials     the credential file and the pairing request of src/gptlink/agent/client.py
--   Agent.Reconnect       the loop over connections of src/gptlink/agent/client.py, and
--                         src/gptlink/agent/reconnect.py
--   Agent.Assembly        src/gptlink/agent/runtime.py, and build_local_runtime of
--                         src/gptlink/local/runtime.py
--   Agent.Executors       src/gptlink/agent/executors: shells, arguments, and what is read of a process
--   Agent.Windows         src/gptlink/agent/executors/windows_process.py: Job Objects, process list
--   Agent.Wsl             src/gptlink/agent/executors/wsl.py: where a command runs
--   Chat.Protocol         src/gptlink/chat/protocol.py: action blocks and result blocks
--   Chat.Orchestrator     src/gptlink/chat/orchestrator.py
--   Chat.Web2api          src/gptlink/chat/web2api.py
--   Chat.Prompt           src/gptlink/chat/prompt.py
--   Cli                   src/gptlink/cli/main.py: the commands on devices, and `Cli.Session`, a whole
--                         session of `gptlink local` over the chat, the context and the runtime
--   Gateway.Remote        src/gptlink/gateway/remote.py
--   Gateway.Socket        src/gptlink/gateway/websocket.py: a session of an Agent's socket
--   Mcp                   src/gptlink/mcp: the tools over the Gateway operations and the registry, and
--                         the bearer check of auth.py
--   Local                 src/gptlink/local: the session approver, and the runtime that carries out a
--                         chat's actions through the Agent's dispatcher
--   Gateway.Operations    src/gptlink/gateway/operations.py: `read`, `mutate` and what stands around
--                         them; `Operations.Service` has the operations answered by the Gateway itself
--   Gateway.Registry      src/gptlink/gateway/registry.py: `Registry` is the state of the class,
--                         `Requests.Event` its sections, `Requests.request` a request with its awaits
--
-- How the code is represented. UUIDs and timestamps are natural numbers, a TTL is an integer number
-- of microseconds. Clock readings, random draws and fresh UUIDs are arguments. Text that the code
-- only compares is a String, text that it takes apart is the list of its code points, and of the
-- methods of `str` the part for ASCII is written out. SHA-256, the password hasher, `str(UUID)` and
-- `isoformat` are parameters. Transactions are serialised, as SQLite's writer lock does it, so an
-- interleaving of clients is a list of calls. The authorization, the lease check and the claim of one
-- mutation are three transactions; no other client's transaction stands between them here. An audit
-- event is taken to be stored. A coroutine that the Gateway awaits (the remote call) is a parameter
-- that may change the database and its own part of the world, and may raise.
-- A datetime of a message is an instant with its offset; a timeout, a number of microseconds, is
-- finite. JSON text, the validation library, the file system, the operator's prompt and the Agent's
-- dispatcher are parameters, and a line is taken to reach the audit file.
-- In the registry of connections the code between two awaits, which the state lock and the event loop
-- keep together, is one event; what other tasks do while one awaits is a list of events.
-- `create_code` takes the list of its draws, at most twenty in the source; every loop is recursion
-- on a list or on the number of rounds left, and no fuel is used.
--
-- In the readers of a process, the loop over connections and the session of the command line too, what
-- the outside does (reads, connections, typed messages) is a list. Floating-point numbers are a record
-- of operations, and which exception class is a subclass of which is a parameter. Paths are those of
-- POSIX: Windows' drives and its comparison without case are left out. kernel32, the HTTP client and the creation of processes are parameters.
--
-- Not modelled: the engine and its schema set-up, the construction of the web application, the
-- reading of the environment, what the command line echoes, the Agent's heartbeat task, and the result
-- schemas and assembly of the MCP server.
mod Prelude
pub mod Common
pub mod Persistence
pub mod Gateway
pub mod Protocol
pub mod Agent
pub mod Chat
pub mod Local
pub mod Mcp
pub mod Cli
