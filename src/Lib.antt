-- ===== src/Lib.antt =====
-- The services of GembaBlockchain, modelled and proved.
--
-- The services are small Node programs in front of a chain and a database: a faucet that drips
-- test coins (services/testnet-faucet), the identity side of the anonymous access tokens
-- (services/access-control), the shop that sells GMB (services/purchase-backend), and the watcher
-- that mails alerts (services/blockchain-notifier). A load generator (endurance) drives the chain.
-- A handler is JavaScript on one event loop: it runs without interruption between two awaits, so a
-- step of a model is the code between two awaits, and an interleaving is a sequence of such steps.
--
-- Which file models which part:
-- - Base, Js, Strings: shared lists, maps and texts; the JSON values that a guard inspects; the
--   string methods that the services call (split, indexOf, trim, replace).
-- - SerialQueue: `serialize` of services/access-control/src/chain.js and
--   services/testnet-faucet/src/faucet.js, the promise queue in front of one wallet. The state is
--   the list of the promises in the order of the calls.
-- - Faucet.Limiter: services/testnet-faucet/src/ratelimit.js. `last` is the Map `_last`, and time
--   is an argument, as it is in the source.
-- - Faucet.Budget, Faucet.Server: services/testnet-faucet/src/server.js. `admit` is the handler of
--   `POST /drip` up to the await of the balance, `on_balance` the part up to the await of the
--   send, `on_sent` the rest. Faucet.Server.drip is `drip` of src/faucet.js.
-- - Faucet.System: the same handler under concurrent requests, a step relation whose steps are
--   those three parts.
-- - Access.Validation, Access.Auth, Access.Db, Access.Gdpr, Access.Outbox, Access.App: the files
--   of services/access-control/src with these names. The database is a record of four tables; a
--   query sees the rows of its tenant, as the policies of services/access-control/db/schema.sql
--   say, and a foreign key or a cascade sees all rows, as PostgreSQL's do. `with_tenant` commits
--   or rolls back.
-- - Purchase: services/purchase-backend/src/server.js. In Purchase.Webhook, `receive` is the
--   webhook handler up to `await dispenseGmb` and `on_dispensed` the rest; Purchase.System is
--   both, and `POST /create`, under concurrent requests. Numbers are a parameter there, with the
--   comparisons and the arithmetic that the handlers use, and so are the digest, `isAddress` and
--   `JSON.parse`.
-- - LoadTest: the load generator. LoadTest.Nonces, .Rate, .Metrics and .Logger are the files of
--   endurance/lib nonceManager.js, rateLimiter.js, metrics.js and txLogger.js, which stress/lib
--   has as well. LoadTest.Send is `sendRaw` of endurance/lib/tx.js with the outcome that `fireOne`
--   of endurance/scripts/run.js gives it. LoadTest.Collector is endurance/lib/receiptCollector.js
--   from `track` to the sweep, LoadTest.Receipts its block loop and its receipt workers.
-- - LoadTest.Workload: endurance/config/workloads.js. A request is its transaction and the name
--   of the effect that its confirmation has, where the source attaches a closure as `_apply`;
--   `apply_deposit` and the like run it. Credits, Queues, Children, Market, Auction, Governance
--   and Permits are the operations by the state that they keep, Plain those without state, Mix the
--   weighted choice.
-- - LoadTest.Run: endurance/scripts/run.js with endurance/config/profiles.js: the wallets' turns,
--   the fee, the batches (Run), the profile and its phases (Run.Profile), and the gate between a
--   broadcast and the effects of its outcome (Run.Gate).
-- - LoadTest.Stress: stress, where it differs from endurance: the collector of
--   stress/lib/receiptCollector.js and `runRamp` of stress/scripts/run.js (Stress), the profiles of
--   stress/config/profiles.js, the operations with state of stress/config/workloads.js (Workload),
--   the counters and problems of stress/scripts/analyze.js (Report), and what the collector writes to
--   the logs that it reads (Rows, Log).
-- - Swap: frontend/swap/src/components/SwapForm.jsx, what it derives from its state and the answers of
--   the chain, with the transactions behind its buttons.
-- - LoadTest.Reclaim: endurance/scripts/reclaim-locked.mjs and drain-to-founder.mjs.
-- - Notifier: Notifier.Mailer is services/blockchain-notifier/src/mailer.js with `watchUptime` of
--   src/index.js on top of it; Notifier.Nakamoto, Notifier.Sales and Notifier.History are the
--   coefficient, the block ranges and the hourly snapshots of src/index.js, Notifier.Alerts its
--   alerts with their thresholds, and Notifier.Watch `watchValidators` and `watchBondedRatio` as a
--   whole. Notifier.Fetch is src/chain.js and Notifier.Config src/config.js.
--   The order of `Array.prototype.sort` is a parameter, of which a proof uses that it orders by stake.
-- - Contact: services/contact-form/src/server.js. Access.Start is
--   services/access-control/src/server.js.
--
-- Fractions are whole numbers in a small unit: rates in thousandths, tokens in millionths, shares
-- in millionths, and a comparison of two quotients is one of products. The rounding of doubles is
-- left out there. `take_token` runs on fuel, the rounds of `take`, of which half a million are
-- enough for any rate of a thousandth or more; `fetch_pages` runs on fuel, the pages, of which as
-- many as the chain has are enough; `chunks` has its list as fuel.
--
-- What is a parameter: the answers of the chain and of the database (a transaction that fails is
-- `up = false`, a revocation is answered `mined` or `reverted`), the ids that the database
-- chooses, and the clock. Elsewhere numbers are natural numbers; JavaScript numbers that the code
-- reaches stay below 2^53, and a difference that may be negative is written out where the source
-- takes a maximum with 0. Every other loop is structural recursion on the list that it walks, or on
-- the retries that are left.
--
-- Identifiers are texts and equal only when they are spelled alike. PostgreSQL compares uuid values, so
-- where a caller writes an id of the access-control API in upper case, the model says more rows differ
-- than do. The functions of that API that await between two queries run in one step, with no other
-- request in between; the rotation of a log and its compression are one step too.
--
-- What is not modelled: the table of weights and the ABIs of the load generator, its deployment
-- scripts, the stateless operations and the text of the report of stress, the texts of mails; express and its routing of a path to a handler, the logging of an error,
-- ethers and pg, the Go chain and its modules, the Solidity contracts, the browser front ends but for the swap form, and
-- the shell scripts.
pub mod Base
pub mod Js
pub mod Strings
pub mod SerialQueue
pub mod Swap
pub mod Faucet
pub mod Access
pub mod Purchase
pub mod LoadTest
pub mod Notifier
pub mod Contact
