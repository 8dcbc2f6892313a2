-- ===== src/Lib.antt =====
-- The dudes' daemon runs coding agents on a user's machine: it takes messages from a server over a
-- websocket, gives them to command-line agents as turns, and sends back what these say. This library
-- models the parts of src/ in which the daemon decides: who a message is from, whether it came
-- before, where it waits, when a turn may run, when a turn counts as hung, and what may be lost on
-- the way out.
--
-- A message arrives as an `agent:send` frame. `Principal` reads its provenance, `Dedup` refuses a
-- repeated delivery id, and `Inbound` holds it while its agent has no runner. The runner keeps it in
-- the queue of its `Session` until a turn starts, which needs a slot of the `Gate`. `Watchdog`
-- watches the turn; after a hard recover `Nudge` may put an automatic message into the session.
-- `Outbound` sends frames and keeps the critical ones while the socket is down. When an agent is
-- stopped, `Retained` keeps its queue for the next spawn. `Context` asks for a compaction when the
-- context of an agent fills up, `Latency` and `Health` measure turns, `Snapshot` shows the server
-- what waits, `SelfUpdate` lets one check for an update run at a time, `Sealing` encrypts what
-- leaves, `Delivery` reads what comes back from the server's queue, and `ToolGate` keeps the tools
-- and the requests of a turn within its role and its sender's rights. `EndTurn` is the close of a
-- turn's process, `RunnerPolicy` says which runners are available, and `BridgeRetry` repeats a request
-- to the bridge after a passing failure. `ModelPolicy` and `OpenCode` settle the context window and
-- the effort of a model. `SuitePark` ends abandoned `node --test` runs, and `Updater` puts a signed
-- bundle in place and waits for a moment to restart. `Host` is the part of the agent host that keeps
-- messages: it holds them while an agent is paused or drains, takes them over to the next process in
-- a spool file, and gives them to a runner when one is spawned; a runner is an interface.
--
--   Base        shared names, Boolean tests, lists, maps and sets as lists
--   Limits      src/runners/turn-limits.ts, and MAX_HOLD_MS of turn-gate.ts
--   Gate        src/runners/turn-gate.ts: a state with both pools; a closure that waits is a `Waiter`
--               and the variables of a release are a `Slot`; acquireTurnSlot, release and the timer are
--               functions of the state, and `step` takes them in any order
--   Dedup       src/inbound-dedup.ts, createDeliveryDeduper
--   Inbound     src/inbound-dedup.ts, createAgentInboundBuffer and loadDeliverySeen
--   Principal   src/runners/turn-security.ts
--   Session     src/runners/message-session.ts, PerMessageSessionState; the observer's calls are a log
--   Outbound    src/runners/outbound-delivery.ts
--   Nudge       src/runners/hang-nudge.ts
--   Watchdog    src/runners/turn-watchdog.ts, and isGrokFamily of src/runners/index.ts
--   Retained    src/queue-retained.ts, and entregarFilaRetida of src/agent-host.ts in Retained/Spawn
--   Context     src/runners/context-tracker.ts, ContextTracker and CumulativeUsageTracker
--   Health      src/health-monitor.ts
--   Latency     src/runners/turn-latency.ts: TurnTiming, and TurnLatency in Latency/Queue
--   ToolGate    src/bridge-tool-gate.ts
--   Snapshot    src/queue-live.ts, montarSnapshot
--   Delivery    src/runners/queue-delivery.ts
--   Sealing     src/queue-live.ts, selar and registroDoFrame, and src/queue-retained.ts, paraFio
--   SelfUpdate  src/self-update-gate.ts
--   SuitePark   src/suite-park.ts: Command and Tree find the test runs, Assess judges them, Reap kills
--               them, Ps reads the table, Sampler is the loop of the daemon, Cli the manual command
--   Updater     src/self-update.ts: Bundle verifies, Check swaps, ticks and plan_restart_when_idle wait for
--               the restart, Boot is the boot hash and the race before the exit
--   EndTurn     src/runners/turns/end-turn.ts, over Session
--   ModelPolicy src/runners/model-policy.ts: Names has the patterns, Limits the context windows, Efforts
--               what each agent accepts
--   OpenCode    src/runners/opencode-effort.ts
--   RunnerPolicy src/runner-policy.ts
--   BridgeRetry src/bridge-retry.ts
--   Host        src/agent-host.ts: Places moves items in a queue, Hold, Pause and Send keep and deliver
--               messages, Spool writes them to a file and reads them, Boot is the load of a new
--               process, Flush the delivery to a new runner, Toy the runner of the tests
--
-- A function or a field has the source's name in this language's spelling: `acquireTurnSlot` is
-- `acquire_turn_slot`. An operation that mutates is a function from the state to the state, beside
-- its result where it has one. A JavaScript Map or Set is a list in the order of insertion. A child
-- module holds what is proved of its parent, and Examples the tests and the witnesses.
--
-- `Date.now()` is an argument, a number of milliseconds; where the source subtracts times, the model
-- adds on the other side, so that nothing is cut off at 0; where a difference is itself a result, a
-- wait or a duration, the clock is taken not to go back. Loops are recursion on the list that they
-- consume or on the number of attempts that the source allows. Where there is neither, they take a
-- number of rounds: the eviction of `Outbound` as many as there are items too many, the search of
-- `ModelPolicy` as many as the text has characters. The walk of `SuitePark` over a table of
-- processes is given its steps as an argument, since in a table with a cycle it does not end: the
-- processes of a tree need no more steps than there are.
--
-- Parameters are the length of a text in bytes or in UTF-16 units, the platform's JSON.stringify,
-- trim, slice and toLowerCase, the digest of a retained item, its time to live, the measure of an item of the
-- live queue, the encryption of src/daemon-crypto.ts, and what a socket, a runner or a file answers;
-- for the updater also the network, the digest and Ed25519's check, and for the suites what `ps`
-- prints and whether a signal reaches its process; for the host the operations of a runner
-- (`RunnerApi`), the encryption of the spool and whether its file is written.
--
-- Not modelled: text of log lines, test hooks (`_reset...ForTest`), the report `turnGateDebug`, the writing of the
-- file of seen ids, the parsing of what `ps` prints, and the limits that src/model-policy.ts reads from
-- a provider's configuration file. Of src/agent-host.ts there is neither the start and stop of an
-- agent, nor the live queue, the frames to the server and the delivery of the server's queue, nor a load
-- that a runner's callback starts inside one of the host's loops.
-- The other files of src/ are not modelled: for the most part they are I/O around these parts (sockets,
-- processes, files, cryptography, HTTP), or build prompts and arguments and parse output.
pub mod Base
pub mod Limits
pub mod Gate
pub mod Dedup
pub mod Inbound
pub mod Principal
pub mod Session
pub mod Outbound
pub mod Nudge
pub mod Watchdog
pub mod Retained
pub mod Host
pub mod Context
pub mod Health
pub mod Latency
pub mod ToolGate
pub mod Snapshot
pub mod Delivery
pub mod Sealing
pub mod SelfUpdate
pub mod EndTurn
pub mod ModelPolicy
pub mod RunnerPolicy
pub mod OpenCode
pub mod BridgeRetry
pub mod SuitePark
pub mod Updater
