-- ===== src/Lib.antt =====
-- VaultNUBAN (github.com/systynlabs/vaultnuban): a service that gives each customer of a tenant a
-- virtual bank account, books the payments that arrive on it in a double-entry ledger, and holds
-- what it cannot attribute in suspense.
--
-- How the program works. The payment provider reports a payment by a webhook, or the sweep finds
-- it in the provider's list of transactions. Either way it becomes a WorkItem of
-- internal/recon/worker.go. The matcher (internal/recon/matcher.go) looks for the virtual
-- account, and a payment with no account, to a closed or suspended account, or above a limit of
-- the customer's KYC tier goes to suspense, every other one to the customer's wallet. The entries
-- are built by internal/ledger/ledger.go only, and stored by PostTransaction of a
-- TransactionStore, which refuses entries that do not balance and ignores an id that it has. The
-- worker then writes the suspense item or lets a collection be fulfilled, marks the webhook event
-- and relays the payment to the tenant.
--
-- The files, with paths from the repository's root:
--
-- - Prelude: names, lists, int64 with wrap-around (Word), texts (Text), maps as association lists
--   (Dict), and calls that may fail (Action), where what was written before an error stays
--   written.
-- - Domain (internal/domain/domain.go): Party for tenants, customers and identities with
--   IdentityInput.Validate, Account for virtual accounts and VAStatus.ValidTransition, Payment
--   for transactions, ledger entries and suspense items, Operation for webhook events, sweep
--   runs, the audit log and the relay, Request for withdrawals and collections.
-- - Lifecycle: the status diagram of a virtual account.
-- - Ledger (internal/ledger/ledger.go): the builders. Ledger/Balance says what entries do to an
--   account, Ledger/Builders what each builder promises, Ledger/Accounts that account names do
--   not collide.
-- - Store (internal/store/store.go): the store interfaces, each a record of operations over a
--   state.
-- - Provider, Config: the provider's data (internal/provider/provider.go) and the tier limits
--   (internal/config/tier_limits.go).
-- - Memstore (internal/store/memstore/memstore.go): Ids, Transactions, Customers, Accounts,
--   Webhooks, Suspense, Runs, Relay and Tenants, the last for tenants, credentials and settings.
--   World has the stores that the services use side by side as implementations of the interfaces.
--   Memstore/Transactions has Sums, Post and Replay for its proofs. Memstore/Statements has
--   GetStatement and ListTransactions, with Balances on the running balances, Order on sorts, and
--   Pages on a client that follows the cursors. Memstore/Ranges is on ranges over a map.
-- - Recon/Matcher, Recon/Worker and Recon/Direct (internal/recon/matcher.go,
--   internal/recon/worker.go): Match, MatchReversal and CheckTierLimitsForCustomer, then Enqueue,
--   Run, process, processCredit, processReversal, and in Direct ProcessDirect and
--   processCreditDirect, over any stores. Recon/Worker/Paths compares the two credit paths.
--   Recon/Memory is the worker over the in-memory stores, with Routing, Credit, Outcome, Caps and
--   Reversal for its proofs.
-- - Recon/Sweep (internal/recon/sweep.go): the sweep, over any provider and any stores.
--   Recon/Sweep/Counts is on its counts and its end, Memory on ProcessDirect and Replay on its
--   pages over the in-memory stores.
-- - Service/Suspense (internal/service/suspense.go): Resolve, over any stores.
--   Service/Suspense/Outcome has the ways a call ends over the in-memory stores,
--   Service/Suspense/Laws what follows.
-- - Service/Provisioning (internal/service/provisioning.go): CloseVA, SuspendVA, UnsuspendVA,
--   RenameVA and GetVA, over any stores and any provider. Service/Provisioning/Closing is on
--   payments to a closed account. Service/Provisioning/Opening is ProvisionVA, and its child Once
--   is on calling it again.
-- - Service/Withdrawal (internal/service/withdrawal.go): Initiate, in two parts, the checks and
--   the payment, over any stores and any provider. Service/Withdrawal/Payout is on a withdrawal
--   that runs by itself, Race on two that run at the same time.
-- - Service/Collection (internal/service/collection.go): Create, Get, Cancel and TryFulfill, over
--   any stores. Service/Collection/Fulfil is the service over the tables of Postgres/Collections.
-- - Relay (internal/relay/relay.go): Dispatch, deliver, RetryPending and Replay, over any relay
--   store and any HTTP client. Over the in-memory store, Relay/Attempts is on what deliveries
--   write, Relay/Retries on which jobs are started.
-- - Postgres (internal/store/postgres): the tables, with Collections, Withdrawals and
--   Transactions for collection_repo.go, withdrawal_repo.go and transaction_repo.go.
--   Postgres/Transactions has Sums, Agreement and History, which compare it with
--   Memstore/Transactions. Postgres/Statements has the listings and the statement of
--   transaction_repo.go, with Pages on a client that follows the cursors and Agreement on the
--   in-memory statement. Postgres/Collections has Choice and Rows on the row that a payment
--   fulfils.
-- - Service/Customer (internal/service/customer.go): CreateCustomer and UpdateKYCTier.
--   Service/Customer/Idempotent is on creating one twice, Service/Customer/Tier on a change of
--   tier, over the in-memory stores.
-- - Api/Webhook (internal/api/handlers/webhook.go): HandleNombaWebhook, over any event store.
--   Api/Webhook/Once is on repeated deliveries.
-- - Api/Idempotency (internal/api/middleware/idempotency.go): the Idempotency middleware, over
--   any Redis client and any handler. Api/Idempotency/Replay is on a second request with the same
--   key.
-- - Tests: runs at concrete values, and for each theorem with conditions a case where they hold.
--
-- Conventions. A time is a number of nanoseconds since the year 1, zero is Go's zero time, and
-- time.Now() is the clock of World, fixed during a call. An int64 is its pattern of 64 bits, as a
-- number that IsInt64 bounds: add64 and sub64 wrap around, and orders read it as a signed number.
-- A Go map is an association list with one entry for each key, and where the code ranges over a
-- map, the order is the one of that list, but for the accounts and the listing of transactions,
-- where each call has an order of its own. A mutex is not modelled: a call on a store is one
-- step. A pointer that the store and its caller share is modelled where it matters, in the
-- webhook store and in UpdateKYCTier. The loops of the code go over lists, but for the one over
-- the provider's pages, which runs on fuel: a result of none is a run that is not at its end. A
-- goroutine that the relay starts is a job, and jobs run one after the other in any order.
--
-- The tables of Postgres. A table is the list of its rows in the order of insertion, and a
-- statement is one step on it. NOW() and gen_random_uuid() are fields of the database. The
-- checks, unique indexes and foreign keys of the migrations are modelled for the three
-- repositories. JSONB and TIMESTAMPTZ are the argument Encoding where a transaction is posted;
-- elsewhere times are taken to be whole microseconds, and raw values to be JSON in its normal
-- form. SUM is exact, and reading it into an int64 fails if it does not fit. A database that
-- cannot be reached is left out.
--
-- Left open, as arguments: the relay dispatcher and the collection check of the worker, which may
-- be absent, the provider's calls, time.Parse, sort.Slice, the HTTP client, HMAC, the Redis
-- client, the random digits of an account reference, and json.Marshal. Where a theorem needs that
-- such a call leaves some of the stores alone, or that a sort only reorders, it says so.
--
-- Not modelled: the other Postgres repositories and the listings of collections and withdrawals,
-- the connection to Redis, the HTTP server, its other handlers and its other middleware, the
-- Nomba client, logging, and the reading of the configuration. Of the memstore, the listings that
-- answer with nothing and the one of webhook events. buildAccountName is a parameter: it cuts and
-- pads a name byte by byte.
pub mod Prelude
pub mod Domain
pub mod Lifecycle
pub mod Ledger
pub mod Store
pub mod Memstore
pub mod Provider
pub mod Config
pub mod Recon
pub mod Service
pub mod Api
pub mod Relay
pub mod Postgres
mod Tests
