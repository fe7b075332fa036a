-- ===== src/Lib.antt =====
-- A verification library for the Core of yoke, the process that admits, supervises and observes the
-- units of a deployment.
--
-- A unit's process registers with the Core, which decides in nine stages whether it is a participant
-- (admission), by what the store of authority holds of its plugin (registry) and what its Manifest
-- declares; what it may do afterwards is a scope, which its Session enforces on every envelope between
-- them. Each unit has a lifecycle machine that concludes its
-- state from what the Core observes of it. What the Core concludes is published as events on a bus,
-- whose subscribers get a snapshot and then what follows; and an arbiter decides which of the channels
-- that people reach the deployment by are suspended. Before all of that the gate checks the document
-- that describes the deployment; what happened is kept in a store of evidence, whose entries are spent
-- by the figures of the document; and the streams of the units carry their data to who subscribed.
--
-- Which file models which part:
-- - Lifecycle: internal/core/unit/machine.go. `Machine.Apply` is `apply`, its switch `weigh`; the
--   diagram that the machine keeps to is Lifecycle/Diagram.
-- - Contract: the enumerations of proto/yoke/plugin/v1 that the Core answers with.
-- - Scope: internal/core/scope/scope.go. `Scope.Declare`, `Grant`, `Granted` and `Check` are
--   `declare`, `grant`, `granted_ids` and `check`.
-- - Event: internal/core/event/event.go. `Event.Check` is `check`, `Filter.Selects` is `selects`; the
--   events the Core builds are in Event/Build and Event/Surfaces.
-- - Bus: internal/core/bus/bus.go. One step to a critical section: `Publish`, `SubscribeTo`, `Close` are
--   `publish`, `subscribe_to`, `close`; `Next` is `look`, `announce` and `await`. Bus/Steps has the
--   interleavings of these steps.
-- - Registry: internal/core/registry/registry.go. Each table is a field of `Registry`, each method a
--   function that returns the tables after it and its result.
-- - Admission: internal/core/admission/admission.go. `decide` and `Register` are in
--   Admission/Decide, `intersect` in Admission/Grant, the tokens in Admission/Bootstrap.
-- - Arbiter: internal/core/interfaces/arbitration.go. `Hold`, `Reclaim`, `State`, `recompute` are `hold`,
--   `reclaim`, `state_of`, `recompute`.
-- - Session: internal/core/session/session.go. `receive`, `answered` and `end` are in Session/Receive,
--   `Send`, `issue` and `Forget` in Session/Sending, `opening` and `Of` in Session/Opening. An interleaving
--   is a sequence of steps; an envelope's refusal is one step with its check.
-- - Supervisor: internal/core/supervisor/supervisor.go and needs.go, and the answers of the engine in
--   containers.go. A launch is Supervisor/Attempt, with `release`; `settle`'s wait is
--   Supervisor/Backoff, `chain` and `why` are Supervisor/Why, `lineWriter` is Supervisor/Lines, and
--   `expand` is Supervisor/Needs, with what each need is met by in Supervisor/Meeting; the other operations are in Supervisor/Steps, and Supervisor/Lives has
--   any sequence of them. What the host and the engine answer is an argument.
-- - Ring: internal/core/ring/ring.go. `CreateWith`, `mapRing` and `slot` are in Ring, `Publish` is
--   Ring/Writer, `Next` is Ring/Reader, over the bytes of Ring/Bytes. Each round of `Next` is given the
--   memory at each of its loads, so that a producer may write between them; Ring/Tearing has a producer
--   that writes one store at a time.
-- - LogStore: internal/core/logstore/logstore.go and cleaner.go. `Append`, the batches of `write` and
--   `Close` are in LogStore/Writing, `Clean` and `Cycle` in LogStore/Cleaning, the overrides in
--   LogStore/Settings, `Keep` and `Counterpart` in LogStore/Events; `Query` and `Next` are `query` and
--   `next`. A table is a list in the order of its key.
-- - Streams: internal/core/streams/streams.go. Each section under the lock is a step, and each thing that
--   a call does once it let the lock go, as `remove`, is a job and a step too; any sequence of them is in
--   Streams/Flows, the jobs left are in Streams/Jobs and Streams/Balance; `readFrames` is in Streams/Frames, with `frameOf` of
--   internal/core/interfaces/delivery.go, whose queue is Streams/Carrying and whose `deliveries` are
--   Streams/Holding.
-- - Gate: internal/gate. `run` and `Check` are in Gate/Phases, `joins`, `resolve` and `weaker` in
--   Gate/Joins, `accepts` and `Values` in Gate/Values, `ParseDuration` and `ParseSize` in Gate/Written;
--   Gate/Policies has `over`, `WorstCase`, and `RetentionOf` and `Clamp` of
--   internal/core/trunk/trunk.go. Whether a value matches a pattern is an argument.
-- - Prelude: texts, maps, ordered lists, signed integers and the Boolean tests they share.
--
-- A Go map is an association list with one entry to a key; a text is compared whole; a time is a number
-- of nanoseconds. The clock, random identities and whether a file could be read are arguments. Most
-- loops of these parts are over a list. These run on fuel: the printing of a number, whose fuel is the
-- number itself, since it has no more digits (Session/Numbers); a release, whose fuel is the number of
-- the units held, of which each round launches one at least (Supervisor/Fuel); the chain of reasons,
-- whose fuel is the number of units, each of which is looked into once; and the lines of a write, whose
-- fuel is the bytes that are pending, of which each line takes one at least. A queue of the bus holds 256
-- events, the outbox of a Session 64 envelopes, the log store's 4096 entries, of which a batch is 64 at
-- most, and a delivery's 1024 frames where nothing else is configured, as their constants say.
--
-- Not modelled: log lines, the database engine and its file, processes, signals, sockets and memory maps; how
-- the supervisor follows the engine's events; the goroutines that read a stream's socket or ring; the
-- gate's reading of documents and its facts of the host; and the programs around the Core, as the
-- guardian, the manager, and what composes, installs and verifies a package.
pub mod Prelude
pub mod Lifecycle
pub mod Contract
pub mod Scope
pub mod Event
pub mod Gate
pub mod Bus
pub mod Registry
pub mod Admission
pub mod Arbiter
pub mod Session
pub mod LogStore
pub mod Ring
pub mod Streams
pub mod Supervisor
