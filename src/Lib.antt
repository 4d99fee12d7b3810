-- ===== src/Lib.antt =====
-- A verification library for the help desk API of this repository: models of the services that decide
-- who may see and change a ticket, what a change writes, when a ticket is late, and how often a
-- request, a mail or a rule is carried out; with proofs about them.
--
-- The parts, and the files that model them:
--
--   Prelude     names that all files share: Boolean tests, lists, text, results of handlers.
--   Domain      the enumerations of apps/api/prisma/schema.prisma and the user of a request
--               (apps/api/src/auth/current-user.decorator.ts).
--   Access      apps/api/src/common/access-control.service.ts. `can_view_ticket`, `can_write_ticket` and
--               `can_post_message` are the tests on one ticket; `Access.Filter` models the Prisma filter
--               and `Access.Sql` the SQL condition as syntax trees with a meaning, so that both can be
--               compared with the test on one ticket.
--   Store       the rows that the services read and write. A transaction is a function from a database to
--               a database or a result: an exception leaves the database as it was.
--   Sla         `Policy`: apps/api/src/tickets/ticket-sla-calculation.service.ts; `Engine`:
--               apps/api/src/slas/sla-engine.service.ts; `Breach`: apps/api/src/slas/sla-breach.service.ts,
--               the worker whose run is one transaction. `Hours` is the arithmetic of business hours, also
--               in ticket-sla-calculation.service.ts: `Forward` and `Backward` are about addBusinessHours and
--               subtractBusinessHours, with `AlignAhead` and `AlignBack`, and `Settings` models the settings that
--               they read.
--   Tickets     apps/api/src/tickets/tickets.service.ts: `Status` (applyStatusTransitionInTx), `Guards`,
--               `Transition`, `Assignment`, `Transfer`, `Removal` (softDelete, restore), `Priority`
--               (bulkPriority, on one ticket), `Messages` (addMessage; `Mentions` is about who is told), `Creation`
--               (create, which calls the routing, the custom fields and the engine) and `Requests` and
--               `Creation.Sequences`, sequences of such requests.
--   Idempotency apps/api/src/common/idempotency.service.ts and idempotency.interceptor.ts. `Replays` is about
--               a request that has succeeded and is sent again, `Failures` about one that has not.
--   Outbox      apps/api/src/notifications/outbox.service.ts, email-processor.service.ts and
--               email-queue.service.ts.
--   Automation  apps/api/src/automation/rule-engine.service.ts: `Conditions`, `Actions` (executeActions) and
--               `Engine` (runForTicket). The actions call the ticket services as the source does.
--               `Scheduler` is extractThreshold, candidateWhere and the query of one rule in
--               automation-scheduler.service.ts, in the same directory: the tickets, up to the size of
--               a batch, that a timed rule hands to the engine. `Thresholds` is about the hours
--               of a rule and `Batches` about the order of a batch.
--   Routing     the routing of new tickets in apps/api/src/tickets/tickets.service.ts: `Rules` (routeTarget)
--               and `RoundRobin` (resolveAssignee).
--   Scoring     apps/api/src/reports/ai-accuracy.scoring.ts.
--   Categories  apps/api/src/categories/categories.service.ts: create, update and remove.
--   Fields      apps/api/src/custom-fields/custom-fields.service.ts: `Options` is about create and update,
--               `Values` models the validation of values and setTicketValues.
--   Csv         apps/api/src/common/csv.util.ts; `Reader` reads a record as RFC 4180 describes it.
--   Retention   apps/api/src/retention/retention.service.ts: a run that has the lock.
--
-- A handler of tickets.service.ts is a function of the current instant, the request, the user and the
-- database; it gives the new database or the HTTP exception of the source. The ticket services call
-- the engine (`sync_from_ticket`) where the source calls `syncFromTicket`; the worker reads the
-- instance rows that the engine writes. Instants and durations are milliseconds as natural numbers;
-- subtractions are written where the source has them, and stop at 0 where the source uses Math.max or
-- a value that cannot be negative. Identifiers are texts, and an empty text counts as absent where
-- JavaScript says so.
--
-- Recursion is on lists, except for: the attempts of a mail's job, which are as many as the queue is
-- told to make (5), which settles the mail if the database answers the claims and the records of
-- failures; a number of consecutive assignments; the rounds of the
-- business-hours loops, which the source bounds by 14 and 20,000; and the walk up the chain of a
-- category's parents, whose fuel is two more than there are categories, since every step meets another
-- one.
--
-- Parameters, for code that is not in this repository or that rests on such code: the operations of
-- luxon on a date (the record `Zone`; `IsRegular` says that its days follow one another), the tables
-- of service level policies, the SMTP transport and the database at each attempt to send a mail (the
-- record `Attempt`), the database after a request with a key (the record `Answers`), the ids that the
-- patterns of mentions find in a message, the handler behind the idempotency interceptor, case
-- mapping, trimming and number formats of texts, and whether an automation action that writes to
-- tables left out here throws. BullMQ is taken by its documentation: an attempt that throws is
-- repeated, up to the number of attempts. Hashes and digests are texts.
--
-- Not modelled: the web application, listing of tickets, attachments, inbound mail, the timer of the
-- automation scheduler, the administration of rules, notifications in the application, AI assistance,
-- other reports, administration of users and teams, operations, authentication and start-up. Foreign
-- keys of new tickets, live updates, caches and the texts of mails are left out of the handlers that
-- are modelled.
mod Prelude
pub mod Domain
pub mod Access
pub mod Store
pub mod Sla
pub mod Tickets
pub mod Idempotency
pub mod Outbox
pub mod Automation
pub mod Routing
pub mod Scoring
pub mod Categories
pub mod Fields
pub mod Csv
pub mod Retention
