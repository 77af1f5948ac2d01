-- ===== src/Lib.antt =====
-- A model of smart-srun, the daemon that keeps campus accounts logged in on a router.
--
-- Parts. The daemon's coordinator takes requests (log in, log out, switch, maintain), keeps them in
-- a queue, and runs each in a worker of its own; one worker at most uses a line. The policy package
-- decides what may run and when. The observe package keeps the latest news of each account, which
-- workers report through the coordinator. The protocol package encrypts and encodes what is sent to the
-- gateway. The auth package sends the four requests of an attempt and reads the answers, and the worker of
-- the application package decides with it what an action does on its line. The wireless package changes the router's wireless configuration as a transaction that a
-- crash or a person can undo. The wifi package chooses the access point that an account joins.
--
-- Files.
--   Prelude: the library's names, Boolean tests, lists measured by native numbers, strings as lists
--   of bytes, numerals, maps.
--   Domain/Errors, Binding, Enums, Config, QuietWindow: core/internal/domain (errors.go, binding.go,
--   enums.go, config.go, clocktime.go).
--   Policy/Priority, Pause, Backoff, Managed, Quiet: core/internal/policy (priority.go, pause.go,
--   backoff.go and retry.go, managed.go, quiet.go).
--   Observe/View, Store: core/internal/observe/store.go. Store has a function per method of Store;
--   Store/Freshness and Store/Notes are about them.
--   Application/Action, Fingerprint: core/internal/application/action.go.
--   Application/Coordinator: the state of coordinator.go, and what its loop reads from outside.
--   Application/Schedule: schedule.go. Retire has publish, retire, onCancel and onPhase, Submit has
--   onSubmit, Finish has onFinish, Dispatch has dispatch, takeRunnable, runsFirst and startAction,
--   Expire has expire and nextDeadline.
--   Application/Loop: New, the branches of Run as the relation Step, and shutdown.
--   Application/Invariant: the invariant of the state between two steps, by operation.
--   Application/Loop/*: what holds in the states that the loop reaches.
--   Protocol/Base64, Xxtea: core/internal/protocol/srun (base64.go, xxtea.go). Base64/Alphabets and
--   Base64/RoundTrip are about the alphabets and the encoder, Xxtea/Rounds, Words and Decrypt about the
--   cipher; the decoder and the decryption in them are the model's own, as references.
--   Protocol/Login: digest.go, info.go and login.go of core/internal/protocol/srun.
--   Auth/Identity, Answer: core/internal/auth/result.go; Auth/Accounts is about account names.
--   Configuration/Defaults: EffectiveLogin and EffectiveUsername of core/internal/config/defaults.go.
--   Worker/World: what a worker of core/internal/application/authworker.go calls, keeps and reports.
--   Worker/Gateway, Transaction: core/internal/auth (gateway.go, transaction.go).
--   Worker/Line, Attempt, Prepare, Session: authworker.go (observeLine, invalidateLine and
--   confirmUnchanged; the outcomes; prepare; authenticate, attemptLogin, settleAlreadyOnline,
--   clearAndRetry and logout). Worker/Radio, Switch: switch.go, hotspot_connectivity.go and
--   manual_logout.go. Worker/Confirm, Terminal: connectivity.go and terminal.go. Worker/Run: Run and
--   quiet_switch.go.
--   Worker/Rules: triples for what a worker does. Worker/Trace and its modules: which parts send
--   nothing, no credentials, or no logout. Worker/Evidence and its modules, Worker/Actions and its
--   modules: what the traces of an attempt and of an action say.
--   Wireless/Journal, Machine, Check, Transaction, Rollback: core/internal/wireless (journal.go,
--   transaction.go, list.go, and checkKey and quoteBatch of store.go) and IsLogicalInterfaceName of
--   core/internal/openwrt/network.go. Machine has the interface of the store, the two files and the
--   faults; Transaction has Begin, Apply, AwaitConfirm and Confirm, Rollback has rollback and Recover.
--   Machine/Faults and Machine/Clean are rules for runs under any faults and under none.
--   Wireless/Invariant and its modules, Transaction/Matched and Rollback/*: what the operations keep.
--   Wireless/Atomic and its modules: the life of a transaction.
--   Wifi/Security, Select: core/internal/wifi (security.go, select.go). A security is a record of its
--   bits; Select/Best and Select/Safe are about the choice.
--   Examples: concrete inputs, and vectors of core/testdata/protocol.
--
-- State. A Coordinator is a record of the loop-owned fields. Actions are shared by pointer in Go:
-- `heap` holds the object at each address, and an action's address is its ordinal, which stands for
-- its ID too. Maps are association lists in which a key stands once. The calls of the observer and of
-- the observation store are lists, the latest call first. The messages that the coordinator writes
-- are constructors. The callbacks of Options, SHA-256 and the clock are the fields of Env, which each
-- step is given anew; the clock is read once for a step.
--
-- A worker is a state monad over an interface of its surroundings (World): the binder, the lines, the
-- radio, the settings, the clock and the context, whose state each call may change in any way, so that
-- the configuration may change and the line may move between any two calls. It keeps the counter of
-- generations and the bindings that it saw, and a trace of the calls that leave the program, with their
-- answers. An action is the only one that writes what the worker keeps while it runs. An outcome is
-- modelled without its text. An answer of the gateway arrives as the JSON object in it; a request is
-- its path and its parameters, before they are escaped.
--
-- A wireless transaction works on a Machine: the live configuration, the candidate, the journal and the
-- backup on the disk, and the journal in memory. Its operations are a state monad with errors that takes
-- a schedule of faults: each call of the store and each write or removal of a file succeeds, fails, or
-- fails after its effect, so that a crash is a schedule that fails from some point on. The store is a
-- record of the calls with laws on reads after writes; the salted SHA-256 is a parameter that is
-- injective for each salt, the decoder of JSON arrays, the salt and the time are parameters. Commit
-- publishes all of what was staged.
--
-- Bounds. A quiet window reads instants as nanoseconds since a midnight in Beijing, whose days all
-- have 24 hours. Instants and durations are numbers of nanoseconds and do not wrap. The counters of actions
-- and dispatches wrap at 2 ^ 64, and a reached state is one that took fewer submissions than that. A
-- pause set has eight bits. Backoff is for waits of whole seconds with caps below 2 ^ 63
-- nanoseconds and bases below 2 ^ 30 seconds, where the products of float64 are exact. The loop of
-- dispatch runs on fuel, one round
-- more than the queue is long; each round takes one action from the queue, so it is enough. A word of
-- XXTEA is a number below 2 ^ 32, with the remainder written out; the number of rounds is computed
-- before the first one, and they are structural recursion. The rounds of terminalChecks are counted before
-- the first one too, and NormalizePrefix has a round for each byte of the prefix, which takes two or more.
--
-- Not modelled: the goroutines, channels and timers of the loop (a step is what the loop does between
-- two waits), the wait of shutdown for its workers, Request.Validate, the phase trace, onList, Read of
-- the projection, Conflicts, the text of clock times, the maintenance loop and its timetable, the refresh of
-- presets, the JSONP framing of response.go, the changes, the validation and the files of the configuration,
-- and the packages that talk to the router, files and sockets (transport, openwrt, the store of wireless,
-- portal, presets, update, control, daemon, cli, logstore, strategy). The
-- theorems on wireless transactions are for plans of options; that sections are created and removed in
-- the right order is the store's.
pub mod Prelude
pub mod Domain
pub mod Policy
pub mod Observe
pub mod Application
pub mod Protocol
pub mod Wireless
pub mod Wifi
pub mod Auth
pub mod Worker
pub mod Configuration
pub mod Examples
