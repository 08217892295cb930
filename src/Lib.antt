-- ===== src/Lib.antt =====
-- The inventory, cart, auth and email services of a microservice shop and the gateway before them,
-- and what keeps them correct.
--
-- The inventory service owns the stock: items with a quantity on hand and a number of reserved
-- units, a ledger of movements, an audit trail of edits, and the ids of the messages that it has
-- applied. Every write is one serializable transaction; a planner from the pure rules runs inside
-- it on the row that was just read.
--   Inventory/Errors       services/inventory/src/errors/app-error.ts
--   Inventory/Rules        services/inventory/src/modules/inventory/inventory.rules.ts
--   Inventory/Tables       services/inventory/prisma/schema.prisma
--   Inventory/Repository   services/inventory/src/modules/inventory/inventory.repository.ts
--   Inventory/Service      services/inventory/src/modules/inventory/inventory.service.ts and the
--                          checks of inventory.schema.ts that the theorems take as premises
--   Inventory/Transaction  results, transaction bodies (Tx) and calls outside of one (Action)
--   Inventory/Statement    what each statement of the database client is documented to do
--   Inventory/Database     the database client: an interface with a law for each statement
--   Inventory/Refinement   an operation over any lawful client does what it does over the
--                          documented statements, or is refused and changes nothing
--   Inventory/Invariant    the invariant of the tables, and that each write keeps it
--   Inventory/Rows         lookups and writes in a table whose ids are unique
--   Inventory/Requests     the properties of whole requests and of sequences of them
--   Inventory/Tests        the theorems at concrete tables
-- Prisma and PostgreSQL are no part of the repository, so the client is a parameter. Its laws
-- allow it to refuse any statement or commit at any time. Concurrent requests are sequences of
-- transactions, because each is serializable; a request of several transactions is several steps.
-- Integers are not bounded: the schemas cap every amount at 1,000,000,000. Ids, product ids and
-- message ids are only compared, so they are numbers. Messages of errors and time stamps are left
-- out; the newest row of the ledger comes first.
--
-- The cart service keeps a shopper's cart in Redis and has inventory reserve its units. A request
-- states the quantities wanted; the planner turns them into differences, and the service reserves,
-- releases and commits, in that order, and rolls back what it moved when a step fails.
--   Cart/Types             services/cart/src/cart/cart.types.ts
--   Cart/Planner           services/cart/src/cart/cart.planner.ts
--   Cart/Store             services/cart/src/cart/cart.scripts.ts and cart.keys.ts: the keys of one
--                          cart and the scripts on them
--   Cart/Calls             calls that may throw, and the backend: an interface of the Redis client
--                          and of inventory's bulk calls, with the contract of
--                          services/cart/src/inventory/inventory.port.ts as laws
--   Cart/Repository        services/cart/src/cart/cart.repository.ts and
--                          services/cart/src/redis/redis.lock.ts
--   Cart/Transfer          transferHold of services/cart/src/inventory/inventory.http.adapter.ts
--   Cart/Service           services/cart/src/cart/cart.service.ts
--   Cart/Tests             the theorems at a concrete cart, over a backend in memory
-- The model is of one cart, whose session id is the reference of its requests to inventory. Of
-- inventory the world has the units that it has accepted to reserve and to release, by reference
-- and product, as its ledger adds them up; it has no hold for each reference, since inventory keeps
-- one counter for each product. A release that returns has been accepted: over HTTP it is applied,
-- over a broker it will be. No law says which releases inventory refuses. Any call of the backend
-- may be rejected, and a rejected call has changed nothing: a command whose reply alone is lost is
-- outside the model. A request that has its lock runs without steps of others in between, so the
-- lock's lifetime is taken to be long enough; keys lapse between requests. The attempts for a lock
-- are as many as the settings say, so no fuel is needed. A logged error is an entry of the world's
-- log, without its message. A stored text is the number that it reads as.
-- `resolveSession` deals with two carts and is not modelled, nor is the expiry watcher.
--
-- The auth service owns the accounts: their password hashes, verification codes, login history and
-- refresh tokens. A refresh token belongs to a family, the session; a refresh replaces it by a new
-- one of the family, and a token that comes back after it was replaced ends the family.
--   Auth/Errors            services/auth/src/errors/app-error.ts and normalize.ts
--   Auth/Tables            services/auth/prisma/schema.prisma
--   Auth/Statement         what the statements of the database client are documented to do, and
--                          (Cases) their outcomes
--   Auth/Repository        services/auth/src/modules/auth/auth.repository.ts
--   Auth/Environment       hashing, signing, the email and user services, random values, the clock
--                          and the configuration: parameters of the requests
--   Auth/Service           services/auth/src/modules/auth/auth.service.ts: its parts, (Views) what
--                          it shows, and (Requests) its requests
--   Auth/Reaper            services/auth/src/modules/auth/auth.reaper.ts: a sweep, and (Rows,
--                          Sweep) what it spares
--   Auth/Agreement         a request over any lawful client does what it does in memory, or fails
--   Auth/Invariant         the invariant of the tables under the transactions, one after the other
--                          in any order; Overlap: two that run at the same time
--   Auth/Sessions          refreshing and reuse
--   Auth/Accounts          codes, logins, locks and passwords
--   Auth/Tests             the theorems at concrete tables
-- The client (Common/Calls) runs a transaction as documented, or refuses it and changes nothing. A
-- transaction ends before the next begins; the service asks for no isolation level, so its database
-- also lets transactions overlap, and only Overlap, of two replacements of a code, says what then
-- becomes of the tables.
-- Ids, addresses, names, codes, tokens and hashes are only compared, so they are numbers; a date is
-- its milliseconds. A request reads the clock once and draws its random values beforehand. A
-- statement that names an account by a foreign key does not check that the account is there. The
-- device that a session came from and the dates of creation of rows are left out. The paged login
-- history and the timer of the reaper are not modelled.
--
-- The email service keeps an outbox: a message is written first and delivered later, by a dispatcher
-- that claims what is due, hands it to a provider and records the outcome.
--   Email/Errors           services/email/src/errors/app-error.ts and normalize.ts
--   Email/Tables           services/email/prisma/schema.prisma
--   Email/Repository       services/email/src/modules/email/email.repository.ts; Claims: who holds
--                          a message
--   Email/Service          services/email/src/modules/email/email.service.ts; Idempotency: keys
--   Email/Backoff          services/email/src/utils/backoff.ts; Bounds: of the delays
--   Email/Dispatcher       services/email/src/modules/email/email.dispatcher.ts; Outbox, Settles and
--                          Orphans: what becomes of a message alone in its outbox
--   Email/Tests            the theorems at a concrete outbox
-- The client is that of the auth service, over other tables. A provider takes a message, refuses it
-- or throws. The messages of a cycle are delivered one after the other: they are different rows. The
-- random part of a delay is a fraction below one, and rounding is exact. Cycles are as many as the
-- theorem is given, so no fuel is needed. The timer of the dispatcher is not modelled.
--
-- The gateway is the one way in for clients: it drops what they claim to be, runs the policies of
-- the service that a path belongs to, which verify the bearer token and its role, and hands the
-- request to the service's proxy.
--   Gateway/Edge       api-gateway/src/types/express.d.ts, the request, and the dispatch of a chain
--                      of handlers in api-gateway/src/proxy/route-policy.ts (runChain), which serves
--                      for Express's own too
--   Gateway/Identity   api-gateway/src/lib/tokens.ts, middlewares/authenticate.ts,
--                      middlewares/request-context.ts and middlewares/body-limit.ts
--   Gateway/Policy     api-gateway/src/config/route-policies.ts, config/services.ts, app.ts,
--                      middlewares/rate-limit.ts, and proxy/service-proxy.ts without its transport
--   Gateway/Proven     what each handler keeps of a request's identity
--   Gateway/Delivered  what holds of a request that a service receives
--   Gateway/Tests      the theorems at concrete requests
-- A path is a list of the words between its slashes and a policy's path a list of segments, so the
-- regular expressions are a structural recursion. The verification of a token's signature, the
-- counters of the rate limiters and the string functions of the runtime are parameters. The
-- correlation id, the log and what the gateway answers itself are left out.
--
-- Not modelled in these services: HTTP and broker adapters, controllers, configuration, health
-- checks and the paged lists. The product and user services are not modelled.
pub mod Common
pub mod Inventory
pub mod Cart
pub mod Auth
pub mod Email
pub mod Gateway
