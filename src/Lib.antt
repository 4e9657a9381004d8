-- ===== src/Lib.antt =====
-- routstr-core: a node that sells access to an OpenAI-compatible upstream for ecash. A client pays
-- with a Cashu token or with an API key that a token was turned into; the node reserves the most
-- that a request can cost, forwards it, and charges what the answer cost.
--
-- The files, and the code that each is about:
--   Db               routstr/core/db.py: the table `api_keys` as a list of rows, and the update
--                    statements that the source writes on it. A session holds the table that others
--                    see and its own; a commit publishes it.
--   Auth/Payment     routstr/auth.py: `pay_for_request`, `revert_pay_for_request`,
--                    `adjust_payment_for_tokens` (`adjust_payment`, given the cost). Lifecycle puts
--                    the calls of one request together, Interleaving those of many (a relation of
--                    steps, one per call, since each call makes one atomic statement), Overdraft asks
--                    what two requests with objects of one age can do, Ledger states what they promise
--                    of money with no rows.
--   Auth/Bearer      routstr/auth.py: `validate_bearer_key`, by its branches.
--   Accounts         the table `api_keys` under all calls that change it, of routstr/auth.py,
--                    routstr/wallet.py and routstr/balance.py, in any order.
--   Wallet           routstr/wallet.py: tokens received, sent and swapped. Wallet/Credit is
--                    `credit_balance`, Wallet/Proofs the filter of spent proofs, the payout of one
--                    mint and unit, and `send_to_lnurl`, Wallet/Balances the balances of all mints, a
--                    round of the payout, and `withdraw` of routstr/core/admin.py.
--   Payment/Cost     routstr/payment/cost_caculation.py: `calculate_cost`.
--   Payment/Helpers  routstr/payment/helpers.py: what a request reserves, and the check of a token.
--   Payment/Invoice  routstr/payment/lnurl.py: `parse_lightning_invoice_amount`.
--   Payment/Lnurl    routstr/payment/lnurl.py: the other functions.
--   Payment/XCashu   routstr/payment/x_cashu.py: requests that are paid by a token in a header, and
--                    the token that goes back.
--   Proxy/Headers    routstr/payment/helpers.py: the headers and parameters that go upstream.
--   Proxy/Intake     routstr/proxy.py: `proxy` up to the payment (`intake`), the key of a bearer token,
--                    and plain `GET` requests.
--   Proxy/Endpoint   routstr/proxy.py: `proxy` as a whole, from the headers and the body to the
--                    response.
--   Proxy/Errors     routstr/proxy.py: the mapping of failing answers.
--   Proxy/Stream     routstr/proxy.py: the settlement of a streamed answer (`stream_with_cost`).
--   Proxy/Request    routstr/proxy.py: `forward_to_upstream`, and `proxy` from the payment on
--                    (`serve_key`); `deliver` sends a streamed body.
--   Balance          routstr/balance.py: the refund endpoint and its cache.
--   Balance/Account  routstr/balance.py: the endpoints on a key that are no refund.
--   Settings         routstr/core/settings.py: the fields that are read. Settings/Bootstrap is
--                    `parse_env_var` and `resolve_bootstrap`, Settings/Service `SettingsService`, on
--                    dicts; Settings/Admin the calls of routstr/core/admin.py on
--                    the settings, and its login.
--   Models           routstr/payment/models.py: models and rows. Models/Rows is the table, with the calls
--                    of routstr/core/admin.py on it; Models/Fetch the models of OpenRouter, the bootstrap
--                    and the refresh; Models/Sats the prices in satoshis, with routstr/payment/price.py;
--                    Models/Price is what the exchanges answer, Models/Script `load_models` and
--                    scripts/models_meta.py; Models/Loops is the background loops,
--                    Models/Steps all of them in any order.
--   Nostr            routstr/nip91.py and routstr/discovery.py: events. Nostr/Announce is what this node
--                    announces, Nostr/Setup what it announces of its settings and its
--                    onion address, Nostr/Backoff the waiting after failures, Nostr/Round a round of the
--                    announcement, Nostr/Existing the query for the node's own events and
--                    the publication, Nostr/Discovery the reading of what others announce,
--                    Nostr/Directory the health and the cache of providers.
--   Migrations       migrations/versions and `run_migrations` of routstr/core/db.py. Migrations/Versions
--                    is the six revisions, Migrations/Schema the classes of the tables, Migrations/Rows
--                    what a step does to rows, Migrations/Stage the states between revisions,
--                    Migrations/Steps upgrades and downgrades in any order.
--   Main             routstr/core/main.py: the start, the background tasks and the end.
--   Middleware       routstr/core/middleware.py, and the handlers of routstr/core/exceptions.py.
--   Logging          routstr/core/logging.py: records, filters, levels and loggers. Logging/Redact is
--                    `SecurityFilter`.
--   Admin            routstr/core/admin.py: the page of log entries, and the lists of balances and keys.
--   Cashu            the interface of the package `cashu`, which is not part of the repository: the
--                    source's calls of it, over an abstract state of wallets and mints.
--   Floats           Python's floats, as a parameter with the laws of correct rounding, and
--                    thousandths as an instance.
--   Prelude          integers, texts, lists, sorting, and calls that raise (`Exec`): a call returns a
--                    value or an exception together with the state, so what was written before a raise
--                    stays.
--   Tests            the theorems at concrete inputs.
--
-- An object of a key that the source mutates or refreshes is an argument and a result, so it can
-- be older than its row. The calls of requests are not paired: one may be settled or reverted
-- more than once, or unpaid. What is logged is kept in Middleware alone. HTTP errors keep their
-- status and one text. The loop over batches of proofs has as many rounds as there are proofs,
-- which is enough since each round takes one at least; the three tries of a refund are recursion
-- on their number.
--
-- The loop over a relay's frames runs on fuel, and returns with enough of it exactly if a frame
-- ends it; the query for the node's own events too, where a round for each tenth of a second of
-- the time limit and one more are enough, as a round waits that long, and its two inner loops end
-- where the relay's pool runs empty. The upgrade has six steps, the number of revisions. The
-- background loops on models are functions of the rounds that they make, the others are given by
-- one round each; times are in milliseconds.
--
-- Not modelled: what pydantic makes of the environment, HTTP requests, websockets, keys and
-- signatures, and the reading of files, which are parameters; the fixed HTML of the admin pages,
-- the handlers, formatters and files of the log, and the connections of the database, which hold
-- no state that the rest depends on.
pub mod Accounts
pub mod Prelude
pub mod Db
pub mod Floats
pub mod Migrations
pub mod Models
pub mod Settings
pub mod Cashu
pub mod Payment
pub mod Auth
pub mod Balance
pub mod Wallet
pub mod Nostr
pub mod Proxy
pub mod Logging
pub mod Middleware
pub mod Main
pub mod Admin
pub mod Tests
