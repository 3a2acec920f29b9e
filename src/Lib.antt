-- ===== src/Lib.antt =====
-- A model of the Python back end of an e-commerce operations system (backend/), and what it
-- guarantees.
--
-- The program is a set of transactions over SQL tables. Here a table is a list of records, a
-- database is a record of tables, and each function of the source that is one transaction is a
-- function from the database before to a result with the database after. `err` is the exception that
-- the source raises; its transaction is rolled back, so it carries no database. `Base/Sql.antt` has the
-- statements that the source sends: `SELECT … WHERE`, `UPDATE … WHERE`, `EXISTS` and `ORDER BY`.
--
-- The parts, and which file models which:
--   * Common.antt: the enumerations of backend/common.py.
--   * Accounts.antt: backend/auth.py and the tables `users`, `stores` and `user_store_scopes` of
--     backend/models.py. `get_current_user` has the JWT decoder as a parameter.
--     Accounts/Access.antt compares the check of one store with the predicate of the lists, and
--     Accounts/Rows.antt reads the tests of roles, departments and scopes as facts about rows.
--   * Audit.antt: the rows of `audit_events`, without the JSON details and without the columns that
--     name proposals and records.
--   * Admin.antt: backend/admin_management.py, `lock_admin_user_set`, `update_admin_user`,
--     `replace_user_store_scopes` and `update_admin_store`. Admin/Guards.antt and Admin/Scopes.antt
--     have the proofs.
--   * Delivery: backend/platform_delivery_runs.py. Delivery/Tables.antt has the tables
--     `publish_records` and `platform_deliveries` with the helpers, Delivery/Claim.antt
--     `claim_next_platform_delivery`, and Delivery/Finish.antt `complete_platform_delivery`,
--     `return_platform_delivery_for_retry` and `fail_platform_delivery`. Delivery/Steps.antt has `enqueue`,
--     the end of `_first_publish` in backend/approvals.py, and the relation `Reach` of any
--     transactions in any order. Delivery/Moves.antt and Delivery/Respects.antt reduce them to moves of
--     single rows. The other modules there have the proofs, one subject each.
--   * Logistics: backend/logistics.py and backend/logistics_models.py. Logistics/States.antt has the
--     states and their tables of transitions, Logistics/Tables.antt the tables and the checks that the
--     handlers share, Logistics/Shipments.antt `create_shipment` and `record_event`,
--     Logistics/Returns.antt `create_return` and `transition_return`, Logistics/Tasks.antt
--     `update_exception`, and Logistics/Patrol.antt `issues` and `patrol`, with the hash of the
--     evidence and the generator of keys as parameters. Logistics/Steps.antt has the relation `Reach`
--     of any handlers in any order. The other modules there have the proofs.
--   * Webhooks.antt: backend/platform_webhooks.py, with the HMAC, the hash and the parser of the payload as
--     parameters. Webhooks/Steps.antt has the relation of any notices in any order, with runs of the
--     queue among them; Webhooks/Replays.antt and Webhooks/Once.antt have the proofs.
--   * Worker: backend/platform_delivery_worker.py (Worker/Loop.antt) and backend/platform_client.py
--     (Worker/Client.antt, Worker/Publish.antt), with the transport and the JSON parsers as
--     parameters. Worker/Codes.antt and Worker/Settled.antt have the proofs.
--   * Knowledge: backend/knowledge_runs.py. Knowledge/Tables.antt has the tables and the helpers,
--     Knowledge/Create.antt `create_document_version`, Knowledge/Claim.antt
--     `claim_next_knowledge_version`, Knowledge/Lease.antt the calls of the holder of a lease, and
--     Knowledge/Activate.antt `activate_knowledge_version` and `disable_knowledge_document`.
--     Knowledge/Steps.antt has the relation `Reach` of any transactions in any order. Knowledge/Changes.antt
--     says what a transaction can do to the tables; the other modules there have the proofs.
--   * Approvals: backend/approvals.py. Approvals/Tables.antt has the tables, Approvals/Context.antt
--     `_authorized_context`, Approvals/Review.antt `_current_review` and `_recheck_canonical_citations`
--     of backend/optimization_runs.py, Approvals/Trail.antt and Approvals/Chain.antt the checks of a replay,
--     Approvals/Actions.antt `_perform_action` for a submission, a rejection and a request for changes,
--     and Approvals/Publish.antt `approve_proposal`. Approvals/Text.antt has `str.strip`, and
--     Approvals/Output.antt the output of the optimization and the listing that it makes.
--     SHA-256 and the validators of JSON columns are parameters (`Library`). Approvals/Steps.antt has the
--     relation `ApprovalReach` of any calls in any order, with transactions of the queue and arbitrary
--     changes by the other modules among them. The other modules there have the proofs.
--   * Analysis: backend/analysis_runs.py and backend/workflow_leases.py. Analysis/Tables.antt has the
--     tables and the checks of a lease, Analysis/Queue.antt the transactions, Analysis/Steps.antt the
--     relation `AnalysisReach` of any transactions in any order, with the selections of a product
--     (Analysis/Selection.antt, of backend/proposals.py) and the writers of the other workflows, Analysis/Advances.antt what can happen
--     to a row and the CHECK constraints of `workflow_runs`; Analysis/Runs.antt and Analysis/Sound.antt
--     have the proofs.
--   * Validation: backend/optimization_validation.py, the checks of the citations and of the prices.
--     Validation/Texts.antt has the operations on texts, Validation/Evidence.antt the helpers and the
--     citations, Validation/Prices.antt the prices, with Validation/Rounding.antt for the rounding of a
--     `Decimal`, and Validation/Bounds.antt the proofs. Reading the index of a piece of evidence, by
--     `isdigit` and `int`, is a parameter.
--
-- How the parts meet: a delivery joins with its publish record, whose approver is looked up in the
-- users, stores and scopes at the time of the delivery; the administrator's changes of those tables are
-- steps of the queue's runs (`reassigned`). The worker claims a delivery, publishes it through the
-- client and settles it with one of the three calls that end a lease, each in a transaction of its own.
-- An approval puts a publication into the queue, so that its runs are runs of the queue, and it checks the
-- citations of the review against the knowledge tables.
--
-- Conventions. Keys are UUID strings in the source, which compares and orders them only; here they are
-- ℕ. Times are seconds, as ℕ; `now` is the database's time in the transaction. Lease owners,
-- operation ids and error codes are texts. `locked` tells which rows another transaction holds, which
-- `SKIP LOCKED` passes over. The session flushes before each SELECT, as SQLAlchemy does unless told
-- otherwise. `lease_seconds` is a ℕ, so that the refusal of negative numbers is the refusal of 0.
-- Nothing runs on fuel: loops are recursion on lists.
--
-- Not modelled: connection errors and the rollback on them, the details of audit rows, columns that
-- are only stored (names, snapshots, `updated_at`), the HTTP layer, the frontend, the agents that call
-- a language model, and the parts of backend/ that no file above names.
pub mod Base
pub mod Common
pub mod Accounts
pub mod Audit
pub mod Admin
pub mod Delivery
pub mod Logistics
pub mod Webhooks
pub mod Worker
pub mod Knowledge
pub mod Approvals
pub mod Analysis
pub mod Validation
