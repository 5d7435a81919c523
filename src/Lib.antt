-- ===== src/Lib.antt =====
-- A model of the call control of an outbound dialer: an API server that starts calls for agents
-- through FreeSWITCH, follows them by the events of FreeSWITCH, and keeps their state in
-- PostgreSQL. The model covers the parts that keep a call, its agent and its contact consistent.
--
-- The parts and their files, with the paths of the code from the repository's root:
--
-- Prelude: Boolean tests, lists, and texts as lists of UTF-16 code units.
-- Queue: apps/api/src/ordered-retry-queue.ts, the queue that the event listener persists events
-- through, one after another, with retries. An asynchronous method is cut at its `await`: the
-- first half leaves the item in flight, and an event of the model brings the outcome back. A run
-- is any sequence of calls, outcomes and timers. Queue/Invariant, Queue/Order, Queue/Lifecycle
-- and Queue/Progress hold the proofs.
-- Coalesced: apps/api/src/coalesced-task.ts, the task that runs once for all requests made in
-- the meantime, in the same way.
-- LoginRateLimit: `registerLoginRateLimit` of apps/api/src/security.ts.
-- Calls/Schema: the enumerations of packages/shared/src/index.ts and the tables of
-- apps/api/db/migrations, with the columns that the handlers use. `Db` is the database; a
-- transaction is a function of it. `none` is an error that PostgreSQL raises, which rolls back.
-- Calls/Progression: the trigger of apps/api/db/migrations/023_manual_call_status_lock.sql,
-- which each update of a call goes through (`update_calls`).
-- Calls/Availability: apps/api/src/agent-availability.ts.
-- Calls/Finalization: apps/api/src/call-finalization.ts (`finalizeCallTransaction` and all that
-- it calls), which every end of a call that the dialer does not ask for itself goes through.
-- Calls/Events: apps/api/src/esl-events.ts, a channel event (`persistGenericFreeSwitchEventState`,
-- `persistTaggedFreeSwitchCallEvent`) and the classification of events and hangup causes.
-- Calls/Voicemail: the same file, the start and the end of the playback of a voicemail, and the
-- release of the agent.
-- Calls/Hangup: the same file, what `persistFreeSwitchEvent` does when the customer's leg ends.
-- Calls/Repair: `repairFinalizedCallConsistency` of the same file, with
-- `repairFinalizedCallTransaction` of apps/api/src/call-finalization.ts.
-- Calls/ManualStatus: apps/api/src/dashboard/manual-call-status.ts, and `endDialerCall` of
-- apps/api/src/dashboard/calls.ts.
-- Calls/Contacts, Calls/Creation: apps/api/src/dashboard/calls.ts, the choice of a contact,
-- `createDialerCall` up to its commit, and the writes of `syncFreeSwitchOriginate`.
-- Calls/Drop: the same file, `dropVoicemailForCall` and the release of the agent after the
-- transfer. FreeSWITCH's answers come between the transactions, so each is an operation.
-- Calls/Dtmf: the same file, `sendDtmfForCall`.
-- Calls/Retention: the deletion of old calls, apps/api/src/dashboard/retention.ts.
-- Calls/History: what any sequence of these handlers keeps of the tables. Calls/Rows compares
-- the tables before and after an update, row by row.
--
-- Phone: apps/api/src/dashboard/phone.ts, with libphonenumber as a parameter.
-- Csv: apps/api/src/dashboard/csv.ts (`parseCsv` in Csv/Parse, `importContactsFromCsv` in
-- Csv/Import) and the export of the call history in apps/api/src/dashboard/routes.ts (Csv/Export).
-- A loop over the units of a text is `each_unit` on the body of the loop, with the `index += 1` of
-- the body as a flag.
-- Esl: the stream of FreeSWITCH's event socket, `extractFrames` and the `data` handler of
-- apps/api/src/esl-events.ts (Esl/Frames, Esl/Listener, on the queue of Queue), and
-- apps/api/src/esl.ts, one command over a socket (Esl/Command) and the commands that start a call
-- (Esl/Originate).
--
-- Transactions run one after another: row locks keep two of them from working on one call at a
-- time, so a lock is no operation of the model. `now` is the time of the transaction and `clock`
-- that of `clock_timestamp()`; both are arguments, in microseconds. A uuid is a number, and the id
-- of a new call is an argument. Loops over rows and texts are structural; the loop of `extractFrames`
-- runs on fuel, one more than the units of the buffer, and `chunks` on the number of values, since
-- each turn takes one at least. A text is a list of UTF-16 units; letters are lowered and raised
-- in ASCII only, and `Number` of a Content-Length is read for decimal digits, any other text being
-- no length. A chunk of a socket is its decoded text.
--
-- Not modelled: the HTTP routes and the web interface, reconnects, the responses to the commands
-- that follow the commit of a start or an end of a call (they write events only), recordings,
-- packet captures, the detection of a voicemail signal, the files of
-- retention, the import of suppressed numbers, analytics, metrics, the rest of
-- authentication, and configuration. Where the code goes on by what FreeSWITCH
-- answers to a command, as in Calls/Drop and Calls/Dtmf, the answer is an argument.
pub mod Prelude
pub mod Queue
pub mod Coalesced
pub mod LoginRateLimit
pub mod Calls
pub mod Phone
pub mod Csv
pub mod Esl
