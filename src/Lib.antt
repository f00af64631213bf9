-- ===== src/Lib.antt =====
-- NeuroSentry: a security monitor for AI workloads. Signals from kernel probes and from the AI gateway
-- flow into a correlation engine, which fires findings; a circuit breaker turns severe findings into
-- responses; policies decide on the events of an agent; the platform logs users in, throttles guessing, and
-- decides what a request may do; the gateway keeps each tenant within its budget, accounts for its usage
-- and looks for leaks in what leaves.
--
-- Files, and the code that they model:
--   Common: tests, lists, 64-bit integers, Go's clock, maps, text, floats; with itoa of
--     pkg/breaker/breaker.go and pkg/correlate/correlate.go and the keys built with it.
--   Correlate: pkg/correlate. Rules has rules.go (matches, touchedBy, evaluate); Predicates and Builtin its
--     built-in rules; Engine the state and suppress.go; Sessions pruneLocked, evictLocked, Reap and the
--     first half of Ingest; Ingest its loop; Authoring rulespec.go and the rest of suppress.go.
--   Breaker: pkg/breaker/breaker.go.
--   Audit: pkg/audit/audit.go.
--   Incident: pkg/incident/incident.go.
--   Fleet: pkg/fleet/registry.go.
--   Platform: pkg/platform. LoginGuard, Rbac and Tenants have loginguard.go, rbac.go and tenant.go; Users
--     identity.go, with its passwords in Users.Passwords and LocalProvider of provider.go in
--     Users.Provider; Tokens token.go; Session the authenticator of provider.go, and middleware.go.
--   Web.RateLimit: pkg/web/ratelimit.go; Web.Login: handleLogin of pkg/web/auth_api.go, which joins the
--     login guard, the tenants and the authenticator.
--   Gateway.Quota, Gateway.Usage: pkg/aigateway/quota.go and usage.go.
--   Guard: pkg/aiguard/dlp.go.
--   Policy: pkg/policy. Policy, Events, Builtin and Load have loader.go, Advanced advanced.go.
--   SelfProtect: pkg/selfprotect/selfprotect.go.
--   Replay: pkg/replay/auditd.go; Groups has ReadAuditd.
-- A file below a component's file holds its proofs, and Examples its concrete runs.
--
-- How the model stands to the code. A Go struct is a record; a method is a function that takes the state
-- and returns it with its results; the clock that a method reads is an argument. The mutexes make the
-- methods atomic, so a history is a list of calls. A Go map is an association list without an order that
-- a theorem relies on (priceFor, which ranges over one, takes the order of each call as an argument); what
-- a pointer in a map points to is the value in the map, written back by `put`; only in Incident, where a
-- list and an index share pointers, and in Platform.Users, where callers keep pointers to the users of the
-- store, is there a heap. The heap of Incident holds what the store reaches: a case that is dropped
-- leaves it.
-- Strings are lists of bytes. An int or int64 is an integer, and each sum that can leave the range is
-- reduced by `wrap64`; a time is a number of nanoseconds that does not wrap, and the difference of two
-- saturates, as in Go. float64 is a parameter, a record of its operations. Regular expressions appear
-- as the tests that they make. Loops on numbers have fuel: `itoa_loop` 20 rounds, the size of the code's
-- buffer, which no int64 fills; the walk of GetProcessChain the ten of its loop; the loop of parseKV one for
-- each byte of the text, of which each round takes one at least; `xor_bits` and `big_endian` the number of
-- bits and bytes of Go's type. Texts are compared byte by byte, and lower case and white space are those of
-- ASCII.
--
-- Not modelled: I/O (kernel probes, HTTP relaying, SQL, TLS, files), JSON, YAML and regular expressions
-- beyond what their packages are assumed to give, single sign-on, locking, and the texts and views of the
-- console.
pub mod Common
pub mod Audit
pub mod Breaker
pub mod Platform
pub mod Gateway
pub mod Correlate
pub mod Incident
pub mod Fleet
pub mod Web
pub mod Policy
pub mod Guard
pub mod SelfProtect
pub mod Replay
