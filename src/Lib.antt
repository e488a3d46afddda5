-- ===== src/Lib.antt =====
-- The browser client of Pomodorough: the rules by which it synchronizes with the server and keeps
-- its work in the browser's storage while it is offline.
--
-- The client keeps five queues of operations (timer commands, tasks, durations, the automatic start
-- of breaks, the selected task). A batch of them is put in its request form, sent with the header
-- of the account, and the response is validated as a whole before any of it is applied. Operations
-- are named by version 7 identifiers, reserved so that they never go back. When an account is first
-- joined with local work, one tab holds the bootstrap gate, a lease in the storage, until the user
-- has chosen which history to keep. A delivery proof remembers the operations that were never sent,
-- and a saved claim those that are on their way: it is sent again with the same bytes until a
-- response answers it. Work runs under a context of the account, which ends when another account is
-- published. A service worker answers without a network, and error monitoring sends what is left of
-- an event when everything that is not fixed has been taken out.
--
-- The files, and the code that they are about:
--   Queue                 the five queues, `DOMAINS` of web/workspace-core.js
--   Sync.Account          names of accounts and the request header (web/sync-core.js)
--   Sync.Bootstrap        the decisions of the bootstrap dialog (web/sync-core.js)
--   Sync.Request          request forms of operations (web/sync-core.js), and of a batch,
--                         `encodeSelectedBatch` of web/sync-storage.js
--   Sync.Order            the order of timer commands (web/sync-core.js)
--   Sync.Acks             acknowledgements of what was sent (web/sync-core.js)
--   Sync.DateTime         date-times: Read is the pattern, Calendar the lengths of months and the
--                         count of days, Print the texts that are read back (web/sync-core.js)
--   Sync.Clock            samples of the server's clock, `validClockSample` of web/sync-core.js and
--                         `latestClockOffset` of web/sync-storage.js
--   Sync.Canonical        the parts of the account's state (web/sync-core.js)
--   Sync.Response         a whole response, `validateCanonicalResponse` of web/sync-core.js
--   Sync.Post             `postJSONWithCsrfRetry` of web/sync-core.js
--   Workspace             batches of web/workspace-core.js; Requests makes the workspace of a request,
--                         Canonical compares records, Transaction writes plans
--                         (web/workspace-transaction.js)
--   Authority             checks on the answers of the shared core (web/sync-authority.js)
--   Storage.Proof         delivery proofs (web/sync-storage.js, and `neverSentForQueues` of
--                         web/sync-core.js)
--   Storage.Projection    checks on a projection of the shared core (web/sync-storage.js)
--   Storage.Shape         the requests for projections and bootstrap plans, and the shapes of the
--                         answers (web/sync-storage.js)
--   Storage.Gate          the bootstrap gate (web/sync-storage.js)
--   Storage.Records       the records that a transaction reads, its first checks and the migration
--                         of dependencies (web/sync-storage.js)
--   Storage.Claims        claims of batches (web/sync-storage.js)
--   Storage.Capture       the claim that a response answers (web/sync-storage.js)
--   Storage.Database      the object stores of the browser
--   Uuid                  version 7 identifiers (web/sync-storage-uuid.js): Parts makes and reads
--                         them, Reserve reserves a batch
--   App                   the state of the application (web/app-state.js): Owner is the part of an
--                         account, Version the version of the shared core, Scope the contexts of
--                         accounts (also web/account-operation.js)
--   Worker                the service worker (web/sw.js)
--   Monitor               error monitoring (web/sentry-client.js): what is sent, and in Rate how often
--   Texts                 placeholders, locales and catalogs of messages (web/i18n.js)
--   Js                    values of the language, computations that throw, sets of texts
--   Prelude               names that all files share
--   Tests                 the results at concrete inputs
--
-- Functions keep their names in snake case: `exactAcknowledgements` is `exact_acknowledgements`. A
-- value of the language is a `Value`: an object is the list of its own properties, and a number is
-- an integer, or else a fraction or an infinity named by an index, or NaN. Objects have no identity
-- here, so `===` of two objects is false, and no definition relies on it. A function that throws
-- returns a `Result` with the class and the message of the error. The stores of a transaction are
-- records, and a transaction is a function from a store to its result and a store; one that throws
-- gives no store, since it is aborted.
--
-- Bounds: loops are by recursion on the list that the code walks; none needs fuel. The attempts at
-- random bytes are 16 as in the code, and running out of them is the error that the code throws.
--
-- Parameters: the conversions of values to numbers (`Number`) and of values that are no texts to
-- texts (`String`), the source of random bytes, the
-- methods of the shared core, the caches and the network of the service worker, `JSON.parse`, and
-- what the caller of `postJSONWithCsrfRetry` passes in.
--
-- Not modelled: the shared core, a WebAssembly module that is built from another repository; the
-- effects of the browser (the events of IndexedDB requests, fetch, the document); the checks of the
-- caller's context before a transaction on the gate, and the removal of all local data, which clears
-- the gate with the rest (`clearAuthorizedLocalData` of web/app-storage.js); the application of a whole response and of a
-- resolution to the stores; plural forms; the views and the loops of the application
-- that call these parts; the server.
pub mod Prelude
pub mod Js
pub mod Queue
pub mod Monitor
pub mod Worker
pub mod Texts
pub mod App
pub mod Sync
pub mod Storage
pub mod Uuid
pub mod Authority
pub mod Workspace
pub mod Tests
