-- ===== src/Lib.antt =====
-- The back end of the Histae dating application: its durable jobs, its matches, its sessions, its
-- billing, its photos, the export of an account's data and its rate limits.
--
-- The program is a set of NestJS services over one PostgreSQL database. An API process and a worker
-- process share the tables and nothing else: a service writes its rows and, in the same
-- transaction, a job in the table `outbox_event`; the worker claims jobs in batches, hands each to
-- a handler, and completes it, gives it back with a growing delay, or makes it a dead letter that
-- an operator retries or drops.
--
-- A table is the list of its rows, and a repository method is the function from the table to the
-- new table and the answer (Prelude/Table.antt has the SQL statements: update_where, delete_where,
-- select_where, order_by). A transaction is one function; it is atomic, and rolled back when it
-- throws. Rows that RETURNING gives back come in the order of the table.
--
-- Prelude        Boolean tests, lists over the native numbers, tables, unique keys, sorted selections
-- Outbox/Models, Outbox/WellFormed
--                src/outbox/outbox.models.ts and the table outbox_event of db/schema_postgres.sql
-- Outbox/Store   src/outbox/outbox.repository.ts: enqueue, requeue, claimBatch (claim_batch),
--                renewClaim, complete, reschedule
-- Outbox/Upkeep  the same file: purgeCompleted, listDeadLetters, statusSnapshot, and
--                retryDeadLetter and discardDeadLetter through resolveDeadLetter
-- Outbox/Deferral
--                src/privacy/erasure.repository.ts: the statements on outbox_event alone
-- Outbox/Scheduling
--                the other statements on outbox_event: scheduling, hastening and taking back of the
--                reconciliations in src/billing, and the erasure of jobs in src/privacy
-- Outbox/History all these statements as one transition system, for any number of processes
-- Outbox/Worker  src/outbox/outbox-worker.service.ts: runOnce, process, purgeCompleted,
--                retryDelayMillis, outboxFailure
-- Matches/Models src/matches/matches.models.ts and the tables of the matches
-- Matches/Week   weekStart of matches.service.ts, startOfUtcWeek of matches.repository.ts
-- Matches/Plans  effectivePlan of src/matches/matches.repository.ts
-- Matches/Access src/matches/match-access.ts: lockMessagingMatch
-- Matches/Consent
--                recordContinuationConsent of src/matches/matches.repository.ts
-- Matches/Creation
--                create and findByPair of src/matches/matches.repository.ts, createFromMutualLike of
--                src/matches/matches.service.ts
-- Matches/Reveal recordReveal of src/matches/matches.repository.ts
-- Matches/Messages
--                src/matches/match-message.repository.ts: createMessage, markMessageRead,
--                markMessagesReadThrough
-- Matches/Maintenance
--                src/matches/match-maintenance.repository.ts: runMaintenance and the loop of
--                runMaintenanceAsLeader
-- Auth/Sessions  src/auth/refresh-session.repository.ts: create, rotate, logout, revoke, isActive, and
--                revokeFamilies; Auth/Sessions/History has them as one transition system
-- Auth/Otp       src/auth/otp.repository.ts: beginOtpDelivery, markOtpAccepted, markOtpOutcome,
--                applySmsEvent, consumeOtp; Auth/Otp/History has them as one transition system
-- Billing/Models src/billing/billing.models.ts, the tables of the billing, and the errors
-- Billing/Subscriptions, Billing/Invoices, Billing/Customers, Billing/Checkout
--                src/billing/billing.repository.ts by the table that is written;
--                recoverCustomerCreation stands with the customers
-- Billing/Stripe src/billing/stripe-projection.mapper.ts
-- Billing/Webhooks
--                src/billing/stripe-webhook.service.ts: handle and processEvent
-- Billing/Reconciliation
--                src/billing/billing-reconciliation.repository.ts: scheduleDue, the contexts,
--                applySubscription
-- Billing/Latest, Billing/Versions
--                the latest of several deliveries, the versions of a subscription
-- Privacy/Writer src/privacy/json-export.writer.ts; Privacy/Writer/Documents the documents that are
--                written through it, with a reader of them
-- Privacy/Pages  src/privacy/data-export.repository.ts: writePages and the loop of the discovery
--                actions; the fuel is one round more than the table has rows
-- Privacy/Export src/privacy/data-export.repository.ts: writeSnapshot, section by section;
--                Privacy/Export/Service is src/privacy/data-export.service.ts
-- Photos         src/photos/photos.repository.ts: createProcessing, recordProcessed, activate;
--                Photos/Removal the methods that take away; Photos/History is every transaction, Photos/Uploads
--                the request for an upload that is sent again
-- RateLimit      src/ratelimit/rate-limit.service.ts: memoryAllow and the sweep; the book that it is
--                compared with, in RateLimit/Sweep, forgets nothing
--
-- Identifiers (uuids) are numbers: the code compares them for equality, and orders by them.
-- Hashes are numbers too, compared for equality. A transaction of Auth that reads the clock several
-- times reads one instant here. Instants are milliseconds since the epoch, as numbers; subtraction of a constant from an instant
-- stops at 0, which no clock after 1970-01-08 meets. `clock_timestamp()`, `new Date()`,
-- `Date.now()` and `randomUUID()` are arguments. A row that FOR UPDATE SKIP LOCKED passes over is
-- one for which the argument `locked` answers true. The handlers of the jobs are a parameter
-- `dispatch` of the worker: what it does to the table, and how it ends. The calls of one group under
-- Promise.all are made one after the other in `process_group`, and side by side, statement by
-- statement, in Outbox/Worker/Concurrent.
-- `process_groups` runs on fuel, for which the number of claimed jobs is enough; the loops of
-- the purge and of the maintenance are bounded by `maxBatches` in the source.
--
-- Texts of messages are numbers, compared for equality, and the calls of enqueueNotification are a
-- log of their intents. In an export, what JSON.stringify gives for a value is one text, and the size
-- of each text is a parameter; the file takes all bytes that it is given. The pages of an export run
-- on fuel, one round more than the table has rows, which is proved to be enough. In Photos the object
-- key is taken as given, and the verdict of the moderation is one value.
--
-- Left out: the payload of a job, failures of the connection to the database, timers and logs,
-- and the parts of the program that no file above is about.
pub mod Prelude
pub mod Outbox
pub mod Matches
pub mod Auth
pub mod RateLimit
pub mod Billing
pub mod Privacy
pub mod Photos
