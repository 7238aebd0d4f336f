-- ===== src/Lib.antt =====
-- leartech-go-common: a verification library of the Go packages pkg/agentloop, pkg/aigateway,
-- pkg/auth, pkg/mongo/migration, pkg/queue and pkg/lock.
--
-- pkg/agentloop is the core of an agent shell. A loop (loop.go) holds the conversation with a model:
-- events come in (what the user types, what the model streams, what tools return), and actions come
-- out (send a turn, run a tool, ask the operator). Every tool call passes a registry (tools.go),
-- whose policy (guard.go) allows it, refuses it or asks an approver, who reads a diff (diff.go) for
-- an edit. At a turn boundary the conversation is saved as a checkpoint in a chain of digests
-- (checkpoint.go), and a conversation that has grown too large is compacted into a new link of that
-- chain (compact.go). A runner (runner.go) carries the actions out and queues the events they give:
-- it sends the conversation to the gateway, whose stream pkg/aigateway/stream.go turns into chunks,
-- and it runs the tools. The file tools read and write below one directory (tools.go, write.go), and
-- a registry of files tells which scripts run now (execregistry.go). pkg/aigateway/client.go is the
-- client of the gateway's API. pkg/queue and pkg/lock are a queue and a lock over Redis. pkg/auth
-- decides what a verified token may do: the scopes and permissions of its claims (scopes.go,
-- permissions.go), the middleware (verifier.go), and the gate that a route puts on one scope, with
-- the report of which scopes the routes enforce (require_scope.go).
--
--   Base        shared names, tests, lists, bytes, Go's int (Base/Int), results (Base/Results),
--               path/filepath on Unix (Base/Paths)
--   Agent/Loop        loop.go: `Loop` is the record of the struct's fields, `step` is Step, and
--                     turn_ended, budget_answered, tool_returned, run_pending are the methods
--   Agent/Guard       guard.go: Policy, Decide (`decide`, `judge`, `tighten`), the rules
--   Agent/Tools       tools.go, the registry: `add`, `run` with its `gate`, `preview_of`
--   Agent/Checkpoint  checkpoint.go: `checkpoint`, `restore_checkpoint`, `compute_hash`
--   Agent/Compact     compact.go: Weigh (sizes), Select (which results, in which order), Passes (the
--                     two passes), Run (`compact`)
--   Agent/Diff        diff.go: `unified_diff`, `lcs`, `trim_context`, `render`
--   Agent/Runner      runner.go: Wire (toWire and the request of api.go), Ports (what a Runner is
--                     connected to), Drive/Turn (the events of a stream), Drive (drive, send,
--                     runTool), Session (Run, RunRestored, runWithLoop). Proofs: Queue, Live,
--                     Orderly, Adds, Quiet (drive), Session/Chain, Session/Total, Marks
--   Agent/Files       tools.go, the file tools: `read_under`, `read_range_under`, `list_under`,
--                     `resolve_under`. Proofs: Contained (what the tests let through), Reads, Lines
--   Agent/Files/Write write.go: `resolve_for_write`, `run_write`, `write_preview`. Proofs: Placed, Kept
--   Agent/Wait        wait.go and exec.go: `clamp_wait_timeout`, `clamp_exec_timeout`, `sh_single_quote`
--   Agent/Exec        execregistry.go: `record_entry`, `list_entries`, `kill_entry`. Proofs: Known
--   Gateway/Config    config.go: `load_config`
--   Gateway/Stream    stream.go: `scan_sse`, `emit_delta`, `send`, with ChatUsage of api.go
--   Gateway/Client    client.go: `new_request`, `status_error`, `reason`, `scrub`; `exchange` in Do is
--                     the method do. Proofs: Scrub, Answer
--   Gateway/Api       api.go: the calls (`list_keys` to `transform_session`) and the accessors
--   Gateway/Calls     version.go, handover.go, tools.go, websearch.go, webfetch.go
--   Auth/Scopes       scopes.go and permissions.go: the parsers and the any-of tests
--   Auth/Gate         verifier.go, discovery.go and require_scope.go: the two middlewares
--   Auth/Surface      require_scope.go: the gated scopes and the scope surface
--   Auth/Token        verifier.go, service_client.go and claims.go: `decode_token`, `serve`, and
--                     `serve_scope`, a route with a scope. Proofs: Accepted, Scoped
--   Auth/Audience     audience_token.go: `token_source_for`, `get_auth_token_for_audience`
--   Mongo/Migration   migration.go: `run_migrations`
--   Redis             the commands of a Redis client; Queue: queue.go, Lock: lock.go. Proofs: Fifo,
--                     Exclusive
--   Examples          the theorems at concrete inputs, and runs
--
-- A method that changes its receiver returns the new record. A Go string is the list of its bytes.
-- An int that the caller chooses (a ceiling, a grant, a target) is an integer, and the sum of a
-- ceiling and a grant wraps at 64 bits; an int that counts or measures what is in memory (`used`, a
-- length, a size) is a natural number, which such a count cannot exceed. An error value is data: a
-- constructor for each way to fail, with what its text names. `State` has the four named constants.
-- The lists of a map's keys stand for the map, and `sort.SliceStable`, as `sort.Slice`, is a stable
-- insertion sort. A loop over a slice is recursion on the list and ends without fuel. `decimal` has
-- fuel, and a number n has at most n + 1 digits. `drive` has fuel, one for each event that it takes
-- from its queue: a model that asks for calls without end, and an operator who grants them all, keep
-- it running. Agent/Runner/Quiet/Ends shows when some fuel is enough, and Agent/Runner/Session/Total
-- that a result does not depend on it then.
--
-- The channel of a stream is the list of the chunks delivered, and a function tells whether the
-- receiver takes the next one. The lines of a session are the list of what ReadLine returns.
-- `Session.written` is a history: the checkpoints that OnBoundary took.
--
-- Parameters: sha256 in hexadecimal, the JSON library (write and read a checkpoint), the verb %q,
-- the code of the tools and approvers with the state of everything outside, the functions and
-- interfaces in the fields of Runner (the gateway, the writer, the UI, the transcript, the hooks),
-- the JWT library that verifies a signature, the OAuth2 library's token sources, the collection of
-- the migrations, the HTTP client of the gateway with the JSON of its bodies, what the operating
-- system answers about paths, files and processes (`Disk`, `Writer`, `ExecPorts`), and the commands
-- of Redis. Three theorems on the file tools assume what is documented of EvalSymlinks: it gives a
-- clean path, and an absolute one for an absolute path. The theorems on the queue and the lock
-- assume the laws of Redis's lists and of SETNX and DEL (`ListLaws`, `KeyLaws`). Theorems that need
-- the JSON library to read back what it wrote say so.
--
-- Not modelled: the search, glob and remote tools, which walk a file tree or call an MCP library,
-- the processes of the wait and execution tools, the terminal output, the construction of the
-- service client of pkg/auth, pkg/forge, pkg/wshub, the connections of pkg/mongo and pkg/redis,
-- pkg/httptools, pkg/logger, pkg/tracing and ci. Most of them are calls of servers, processes or
-- third-party libraries.
pub mod Base
pub mod Agent
pub mod Gateway
pub mod Mongo
pub mod Redis
pub mod Auth
pub mod Examples
