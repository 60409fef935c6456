-- ===== src/Lib.antt =====
-- axiler-fin: a demonstration financial platform of four services. The edge (cmd/edge-service) scans,
-- limits and inspects every request and forwards it to a backend; the login service
-- (cmd/auth-service) issues tokens; the search and the transfer service (cmd/search-service,
-- cmd/transfer-service) validate the token again and work on the accounts of its tenant.
--
-- The files and what they model:
--   Models         pkg/models/models.go: the structs and `GetAccountsByTenant`; Models/Synthetic is
--                  pkg/models/data.go, the random accounts, and `NewSyntheticDatabase`
--   Metrics        pkg/metrics/metrics.go: the metrics with their options; Metrics/Registry has their
--                  registration by `New`
--   Http           what the services use of net/http: requests, responses and their payloads
--   Context        pkg/context/context.go: the values that a request carries
--   Auth           pkg/auth/auth.go and keys.go: `New`, `NewToken`, `ValidateToken`; Auth/Interface holds what is
--                  assumed of the JWT library
--   RateLimit      pkg/ratelimit/ratelimit.go: the token buckets; RateLimit/Rate counts what they let
--                  through over time
--   Service        `authMiddleware` of cmd/search-service/main.go. The transfer service has a copy of its
--                  own, Transfer/Middleware, which comes to the same
--   Router         what `main` uses of go-chi and promhttp
--   Search, Login, Transfer, Edge   the four services; the module Server of each has its package
--                  variables, `init`, and the routes that `main` registers
--   Search         cmd/search-service/main.go
--   Transfer       cmd/transfer-service/main.go; Transfer/Race interleaves several requests,
--                  Transfer/Health has the health endpoint and the simulated failure
--   Login          cmd/auth-service/main.go and credentials.go
--   Edge/Abuse     cmd/edge-service/abuse.go: the detector, its histories, its checks and `Detect`;
--                  Edge/Abuse/Shared has the histories behind pointers, for calls that interleave
--   Edge/Middleware  cmd/edge-service/main.go: `securityMiddleware`, `proxyRequest`, the limiter's status
--   Vault          pkg/vault/vault.go: the client for secrets; Vault/Interface holds what is assumed of
--                  the Vault API client
--   Journey        a login at one service, and a search or a transfer at another with its token
--   Labels         the samples that the services emit against the metrics' options
--   Base           shared tests, lists, texts, dictionaries, integers, UTF-8, regular expressions
--   Tests          runs at concrete inputs
--
-- How code becomes definitions. A handler is a function from the request and the state to the response,
-- the calls that it makes on the metrics, and the state. A function that reads the clock takes the
-- readings as arguments, in nanoseconds. A Go map is an association list; where a range visits a map,
-- the order is an argument. A mutex-protected method is one step; the transfer handler, whose checks
-- and writes are two critical sections, is two, and so is `trackRequest`, which looks its history up
-- under one mutex and writes to it under another. Log output is left out. A `float64` is of a
-- parameter type with the facts of IEEE 754 that are used as named laws (Base/Float, and for sums of
-- whole numbers Transfer/Conservation), which fixed-point numbers satisfy too; a NaN is allowed by
-- all of them. Integers that stand for limits and sizes are unbounded, as the program never computes
-- with them beyond conversion and comparison. Every loop is over a list, or counted, as the one that
-- makes the accounts; only the printing of a number runs on fuel, with n + 1 rounds for n, of which
-- each takes a digit.
-- Expressions are matched by derivatives.
--
-- Parameters: the JWT library and key formats (Auth/Interface), the Vault API client
-- (Vault/Interface), the registerer of the Prometheus client (Metrics/Registry), the router
-- (Router), the random number generator (Models/Synthetic), JSON decoding, MD5, `url.Parse`, the
-- reverse proxy of net/http/httputil, the page that promhttp serves, and the contents of the two
-- embedded key files. Not modelled: `GenerateTestKeys` of pkg/auth/auth.go, which returns two
-- constant texts and is not called; reading the port from the environment and listening on it.
pub mod Base
pub mod Models
pub mod Metrics
pub mod Http
pub mod Context
pub mod Auth
pub mod RateLimit
pub mod Service
pub mod Router
pub mod Search
pub mod Transfer
pub mod Login
pub mod Edge
pub mod Vault
pub mod Journey
pub mod Labels
pub mod Tests
