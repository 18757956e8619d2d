-- ===== src/Lib.antt =====
-- Verification of the backend template: the application of template/src/app.
--
-- The template is a FastAPI backend whose parts share one SQL database. Each part is a service that
-- takes a session, runs some statements and commits; its UNIQUE constraints decide between concurrent
-- requests. The models take the tables as lists of rows, newest first, and a call returns its result
-- beside the tables that are committed when it ends. What another request does between two
-- transactions of a call is an argument (`between`, `during`), or an older copy of the tables
-- (`seen`) or of a row. Times are numbers of microseconds since the epoch, UUIDs their 128-bit
-- numbers; the clock readings and the fresh UUIDs of a call are its arguments.
--
-- Metering: metering/rate_cards.py and rating.py turn a plan and the use of a period into invoice
-- lines (Metering/RateCards, Metering/Rating, `rate`, `total_cents`). metering/service.py is
-- SqlMeteringService over the tables of metering/models.py (Metering/Models): `record_usage` and
-- `usage_for_period` (Metering/Usage), `invoice_period` (Metering/Invoices), `charge_invoice`
-- (Metering/Charge), `top_up` and the wallet (Metering/Wallet). The call `close_invoice` of
-- metering/router.py.jinja composes them (Metering/Router); it reads the plan from the subscription
-- of billing. Metering/Router/Api has the routes with their guards and metering/schemas.py.
-- Metering/Ledger is the invariant of the balances, Metering/Router/Periods that of the invoice
-- periods, and Metering/Router/Billed follows the invoices over a history of usage and closes, which
-- are committed there in the order of their times.
--
-- Billing: billing/entitlements.py and the guard of billing/dependencies.py (Billing/Entitlements);
-- billing/ports.py as an interface record (Billing/Ports), which billing/adapters/stripe.py and
-- razorpay.py fill (Billing/Adapters) over the calls of their SDKs, which are parameters with a state
-- of their own and, for the check of a signature, the time of the call, and which billing/provider.py chooses (Billing/Provider). billing/router.py.jinja is
-- Billing/Router: Router/Webhook takes an event of a provider and syncs the subscription row that the
-- entitlements read, Router/Checkout has the routes of an organization.
--
-- Idempotency: idempotency/store.py (Idempotency/Store) holds a row for each key of a caller, claimed
-- by an INSERT; idempotency/middleware.py (Idempotency/Middleware) buffers the request, claims the
-- key, runs the application or replays the recorded answer. SHA-256, UTF-8 and the application are
-- parameters. Idempotency/Store/Exclusive lets the transactions of all requests interleave.
--
-- Users: users/sessions.py (Users/Sessions), the rotating refresh tokens, with the hash as a
-- parameter. Users/Sessions/Revocation takes the requests one after another. users/auth.py and
-- denylist.py (Users/AccessTokens), the checks of an access token, with the JWT library as a
-- parameter. The hooks of users/manager.py.jinja and logout_all of users/router.py.jinja
-- (Users/Manager) end a user's sessions and queue the mails.
--
-- Email: email/ports.py (Email/Ports), the rendering of templating.py and send.py (Email/Templating),
-- the adapters of email/adapters (Email/Adapters), and provider.py with the sends through it
-- (Email/Provider). The template engine, the SMTP client, the SES client and the standard library's
-- MIME message are parameters, over a state of the mail servers. jobs/queue.py is Jobs: the pool of
-- the queue is a parameter.
--
-- Tenancy: the rows of tenancy/models.py.jinja (Tenancy/Models), and the guard of
-- tenancy/dependencies.py with the routes of tenancy/router.py.jinja (Tenancy/Router), which write the
-- event of a new member with `dispatch` of Webhooks/Outbox in one transaction.
--
-- Roles and storage: rbac/permissions.py (Rbac/Permissions); storage/keys.py (Storage/Keys), and
-- storage/client.py with the routes of storage/router.py.jinja (Storage/Client), where the object
-- store is a parameter.
--
-- API keys: api_keys/security.py, the routes of api_keys/router.py that change state, and
-- `get_principal` of api_keys/dependencies.py.jinja (ApiKeys/Keys), with the hash of a secret as a
-- parameter. Prelude/Words is Python's `split()` and `" ".join`.
--
-- Webhooks: webhooks/dispatch.py and webhooks/outbox.py (Webhooks/Outbox), the events that are written
-- with a change and the relay that hands them to the queue. The queue is a parameter: its answer to
-- the n-th call. webhooks/egress.py, the check of a target (Webhooks/Addresses, Webhooks/Egress),
-- webhooks/security.py (Webhooks/Security) and the task `deliver_webhook` of jobs/tasks.py.jinja
-- (Webhooks/Delivery), which sends one request at most. The resolver, `urlsplit`, the parser of an
-- address, the HMAC and the receiver are parameters. webhooks/router.py.jinja with schemas.py is
-- Webhooks/Router: the routes of the endpoints that the relay and the task read.
--
-- Core and admin: the hardening headers of core/middleware.py (Core/SecurityHeaders) and the login of
-- admin/auth.py (Admin/Auth), with the check of a password as a parameter.
--
-- Rate limiting: the token bucket of ratelimit/limiter.py for one key (RateLimit/Limiter) and over all
-- keys (RateLimit/Limiter/Keys), the failure counter for one key (RateLimit/Lockout),
-- ratelimit/tiers.py (RateLimit/Tiers), and of ratelimit/dependencies.py.jinja the lockout, the plan of
-- an organization with its cache (RateLimit/Plans), and the key of a request with both dependencies
-- (RateLimit/Dependencies). The script's floating-point numbers are exact here, in units of which a
-- token is `window_seconds * 1000000`.
--
-- Fuel: the buffering of a request body takes one message a step, and the number of messages up to
-- the last one is enough. All other loops are by recursion on their lists.
--
-- Not modelled: the membership checks in front of the routes of billing and storage, a failing
-- connection to the client, the foreign keys on users, log lines, and the parts of the template that
-- only set up or call third-party libraries (the views of the admin, observability, the other jobs).
pub mod Prelude
pub mod Metering
pub mod Billing
pub mod Core
pub mod Email
pub mod Jobs
pub mod Tenancy
pub mod Admin
pub mod Idempotency
pub mod Users
pub mod Webhooks
pub mod RateLimit
pub mod ApiKeys
pub mod Rbac
pub mod Storage
