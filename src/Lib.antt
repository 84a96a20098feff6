-- ===== src/Lib.antt =====
-- The backend of agent-os: users talk to it over HTTP and WebSockets; services hold the rules,
-- repositories issue the SQL statements, and a hub passes messages on to the connected devices.
-- This library models eight of its parts and proves what they guarantee.
--
-- * Governance (internal/service/governance.go, governance_enforcer.go,
--   internal/repository/governance_repo.go): Evaluate decides a request by kill switches and policy
--   rules and stores the decision; Enforce asks for it, or consumes an approval receipt, in one of
--   three modes. Rows are the tables, Repo the statements, Policies, Service and Listing the service,
--   Enforcer the enforcer. Evaluation, Availability, Edits, Receipts, SingleUse, Enforcement and Pages
--   hold the theorems.
-- * Sync (internal/service/sync.go, sync_contract.go, internal/repository/sync_repo.go): a log of
--   events for each user, numbered by a counter row, with a cursor for each device. Contract, Rows,
--   Repo, Service and Notify are the model; RecordEnvelopeWithRepo is record_envelope, and
--   RecordEnvelope is record_and_notify, which hands the event to the hub. Numbers, Sequences,
--   Recording, Retries, Order, Pulls and Cursors hold the theorems.
-- * Audit (internal/service/audit.go, internal/repository/audit_repo.go): Record appends a row to a
--   hash chain and VerifyHashChain checks it (record_event and verify_hash_chain). Chain, Recording,
--   Breaks and Verification hold the theorems.
-- * Sensitive (internal/service/sensitive_operation.go, its repository): tokens that confirm a
--   sensitive operation, issued after a password, each to be consumed once. Rows, Repo and Service are the
--   model; after_lookup is the rest of ConsumeConfirmation after its look-up. Uses runs any
--   calls on confirmations and Races two calls at once; they hold the theorems, with Lookups and
--   Notes.
-- * Billing (internal/service/kb_billing.go, internal/repository/billing_repo.go): Usage is
--   RecordUsage, which charges a user and credits a contributor; Plans, Invoices and Service are the
--   other calls, and Repo, Payouts and Claims the statements. Operations runs any calls that write;
--   Frame and Apart say what keeps an invariant over them, and Balance, Refunds, Versions and Totals
--   hold the theorems. An int64 is its bit pattern, and sums and products wrap (Prelude.Int64).
-- * Conversations (internal/service/conversation.go, message.go,
--   internal/repository/conversation_repo.go): Service and Messages are the two services, Repo and
--   MessageRepo the statements, and Events the sync events that each call records through
--   Sync.Service.record_envelope on its part of the tables. Changes runs any calls of the
--   conversation service; Owners, Roles, Changes, Access, Delivery and Editing hold the theorems.
-- * Knowledge (internal/service/knowledge_entries.go, internal/repository/knowledge_entries_repo.go):
--   Repo and Service are the model. Machine is the abstract view: the states that an entry goes
--   through, and any calls of the service. Steps, Outcomes, Calls, Refinement and Tombstones lead to the
--   theorems.
-- * Hub (internal/ws/hub.go, client.go): State is the hub with its channels, and run is Run on the
--   events in the order of their arrival. Loop, Presence and Slow hold the theorems.
--
-- A call of a service is a function of its input and of a database session (Db). The session holds
-- the rows, in the order of their insertion (Table), and decides which statements the database
-- refuses: an arbitrary function of the number of statements issued, so that a theorem holds
-- whatever fails. A transaction that fails leaves the rows as they were. The unique indexes of
-- the migrations are part of the INSERT statements. A call that fails returns an error of Errors.
-- Within a transaction the code locks the row that it changes, and a call is one step here, save
-- where a theorem takes a call apart to interleave it with another.
--
-- time.Now(), uuid.New() and crypto/rand are arguments; UUID strings, SHA-256, encoding/json and
-- time formats are functions that nothing is assumed of, unless a theorem names it. A UUID is a
-- number with 0 for uuid.Nil, an instant a number of nanoseconds with 0 for the zero time, and a
-- map[string]any is Json.JsonMap. Sequences (uint64, int64) have no bound, since they grow by one
-- with each row. All loops are structural recursion over rows or clients: there is no fuel.
--
-- Not modelled: the rest of the services (identity, admission, contacts,
-- knowledge bases, skills, plugins, objects, settings), the HTTP layer, the pumps
-- of a WebSocket client, and the counts of the governance summary.
--
-- Prelude holds the shared tests and list functions, and Examples the theorems at concrete inputs.
pub mod Audit
pub mod Billing
pub mod Conversations
pub mod Db
pub mod Errors
pub mod Examples
pub mod Governance
pub mod Hub
pub mod Json
pub mod Knowledge
pub mod Prelude
pub mod Sensitive
pub mod Sync
pub mod Table
