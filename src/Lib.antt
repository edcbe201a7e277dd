-- ===== src/Lib.antt =====
-- The core of UdyogSetu 360, a portal that takes an industrial project through the approvals of
-- several departments: the workflow of cases and approval tasks, the SLA clocks that run on them, the
-- outbox that publishes what happened, the gateway in front, the accounts of its users, the grievances
-- that they raise, the audit log, and the queue that carries work to the departments' systems.
--
-- An investor's application becomes a case with one approval task for each department that it needs. A
-- request that moves a case or a task passes the guards, writes the document, changes the SLA timer,
-- appends domain events and an audit entry, and, for a task, derives the status of the case again from
-- the statuses of its tasks. A publisher sends the events to Kafka, with retries. A user logs in to the
-- web application and renews the tokens of a session; a grievance has messages and a status of its own;
-- each recorded event of the audit log carries a hash over the one before it; a worker takes messages
-- from a queue and keeps a job for each of them.
--
-- Files, and the code that they model (paths from the root of the repository):
--   Common      the helpers that the components share.
--   Store       a collection of documents as the services reach it through Mongoose: an interface with
--               its laws (get, put, findOne, find), an implementation that runs, and the laws of
--               findOneAndUpdate and updateMany (Updates).
--   Vocabulary  packages/shared/src/constants: statuses, roles, permissions, events, departments.
--   Workflow    services/orchestration-service/src/state-machines, guards and workflows: the tables
--               (CaseMachine, TaskMachine), the documents, the guards (Guards, Dependencies), and
--               deriveAggregateCaseStatus of services/orchestration.service.js (Aggregate).
--   Sla         services/orchestration-service/src/services/sla-orchestration.service.js over the
--               timers of services/case-service/src/models/SlaTimer.js. Graph is the abstract life of a
--               timer that Service shows the operations to follow; Sweeps is the periodic evaluation.
--   Orchestration  services/orchestration-service/src/services/orchestration.service.js: transitionCase,
--               transitionTask and recalculateCaseAggregateStatus over a world of cases, tasks, timers,
--               events and audit entries; Apply has the field writes and the schema hooks.
--   Outbox      services/case-service/src/outbox: the rows and their updates, the publisher, its
--               back-off.
--   Approval    web/src/services/approval-track.service.js: the departments that a form needs.
--   Gateway     apps/gateway/src: auth.middleware.js with the role table of
--               packages/shared/src/constants/role-permissions.constants.js, and the idempotency keys.
--   Accounts    web/src/models/User.js and UserSession.js (Users, Sessions), web/src/services:
--               authService.js with the claims of tokenService.js (Login), and the registration, the
--               reset of a password, the verification of an email and the one-time codes, with
--               verificationService.js (Codes).
--   Grievances  services/case-service/src: models/Grievance.js and grievance.repository.js (Records),
--               grievance.service.js (Service for what changes a grievance, Reading for what shows one).
--   Audit       services/audit-service/src: audit-hash.service.js (Events), audit.service.js over
--               audit-event.repository.js (Log); Ordering has the lemmas on sequence numbers.
--   Queue       services/adapter-runtime/src: queue-job.repository.js and queue-idempotency.service.js
--               (Jobs), worker-runner.js, queue-retry.service.js and queue-recovery.service.js (Worker).
--   Events      packages/shared/src/kafka: event-idempotency.service.js (Ledger), event-consumer.js, and
--               handleEventOnce of services/orchestration-service/src/services/event-replay.service.js
--               (Consumer).
--   Access      web/src/services/abacService.js and permissionService.js: who reaches which case and
--               task.
--   Adapter     services/adapter-runtime/src/retry/adapter-retry-policy.js: whether and when a call of an
--               adapter is tried again.
--   Tests       the model at concrete inputs.
--
-- Functions keep their names, written with underscores. A handler that fails is its error as a value;
-- a chain of awaits is a chain of results. The state of a service is a record that is passed on.
--
-- Bounds: every loop of the modelled code runs over a list, so the model recurses on lists and needs no
-- fuel. Times are whole milliseconds, one request reads one time, a day has 24 hours. The percentage of
-- an SLA warning and the numbers of an application form are whole. A status is one of its enumeration,
-- as the schemas demand.
--
-- Parameters: which of several matching documents findOne returns, the answers of Kafka, the
-- verification and signing of tokens, the hashes of requests, passwords, tokens and audit events,
-- JSON.stringify, Mongoose's trim, the test of a password's strength, the parser of queue messages and the
-- adapter that handles them, what becomes of each publication to RabbitMQ, the handlers of events. Ids,
-- random tokens and the time are given to an operation that draws them.
--
-- Not modelled: what a request of the orchestration service that fails leaves in the database, undone or
-- not; unique indexes but those of ids, of the gateway's idempotency keys and of processed events; failures
-- of the database driver; logging, metrics, HTTP and configuration; who paused a timer; the profile of a
-- user; the order and the pages of lists; the export of the audit log; the contents of the monitoring events
-- of the queue; the connection to Kafka and the lists of a replay; the adapters and their mappings;
-- application forms, documents, notification and AI services, the portals.
pub mod Access
pub mod Adapter
pub mod Accounts
pub mod Audit
pub mod Common
pub mod Store
pub mod Vocabulary
pub mod Workflow
pub mod Sla
pub mod Orchestration
pub mod Outbox
pub mod Approval
pub mod Gateway
pub mod Grievances
pub mod Queue
pub mod Events
pub mod Tests
