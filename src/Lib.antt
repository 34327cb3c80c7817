-- ===== src/Lib.antt =====
-- The Guard of Ai-Auth: the Rust service under crypto/ that holds the keys. A caller sends a request
-- with a context (tenant, subject, purpose, request id). The gate checks the context, the limiter
-- charges the operation's ceiling and the tenant's bucket, the handler asks the verifier or the
-- provider, and one audit record goes to stdout on every path.
--
-- Files and the code that they model:
--   Proto, Proto/*     crypto/src/gen/aiauth/crypto/v1/aiauth.crypto.v1.rs: messages, enumerations
--   Context            crypto/src/context.rs: `validate`
--   Limits             crypto/src/limits.rs: `RateLimiter`. `charge_global` and `charge_tenant` are the
--                      two locked regions of `allow`; `drop_full` and `evict_least_recent` the two
--                      passes that make room; `take_token` is `take`. Limits/Trace has histories of
--                      whole calls, Limits/Threads concurrent calls as interleavings of their three
--                      steps (Limits/Accrued and Limits/Waits keep its account in them),
--                      Limits/Contract the limiter's promise without its maps
--   Provider           crypto/src/provider.rs: the trait, its errors and handles
--   Software           crypto/src/providers/software.rs: the provider, one function per function
--   Webauthn           crypto/src/webauthn.rs: `verify`, in its three groups of steps.
--                      Webauthn/Honest is the browser and the authenticator, as its tests build them
--   Service            crypto/src/service.rs: Guard is the state and the shared beginning of the
--                      handlers, Handlers the four of them, Serve the trait over one type of request;
--                      Drain has histories of requests. Service/Threads has concurrent handlers as
--                      interleavings of steps, each one use of the clock, of a lock, of the provider
--                      or of an output stream (`println!` holds its lock for a line); Service/Runs is
--                      their account of a single handler, Service/Answers of what they return
--   Schedule           no code of its own: concurrent calls over shared state, which Limits/Threads
--                      and Service/Threads instantiate
--   Rpc                crypto/src/gen/aiauth/crypto/v1/aiauth.crypto.v1.tonic.rs: the generated server
--                      and client, one function per method and per arm of `call`. Rpc/Remote
--                      connects the two, Rpc/History has sequences of arrivals on the wire
--   Risk               crypto/src/gen/aiauth/risk/v1: the messages, bands, client and server of the
--                      service of risk scores
--   Wire               what the two generated services call in tonic, http and prost
--   Profile            crypto/src/profile.rs
--   Startup            crypto/src/main.rs: `start` is what `main` reads and checks before it serves,
--                      Startup/Run `main` as a whole
--   Secret             crypto/src/lib.rs: `SecretBuf`
--   Scenarios, Scenarios/*
--                      the unit tests of these files, as functions into Bool over the same parameters
-- Common, Text, Words and HashMap are Rust's results, texts, integers and maps, Text/Json and
-- Service/Record describe the lines that are printed; Tests has concrete inputs, on which the scenarios run too.
--
-- State is passed explicitly: a handler takes the guard's state and returns its outcome with the
-- new state, which holds the limiter, what the provider keeps, and all that was written to stdout
-- and stderr. A panic is an outcome. In Service/Handlers a handler runs from its start to its end;
-- Service/Threads takes concurrent handlers apart, and Limits/Threads concurrent calls of `allow`.
--
-- Other crates are parameters. `Primitives` is the generator, AES-256-GCM and HMAC, `Libraries`
-- the JSON parser, base64, SHA-256 and ECDSA, `F64` the floating point of the limiter,
-- `Environment` the operating system at startup, `Transport` the TLS server that `main` starts,
-- and `Wire` what the generated code calls in tonic, http and prost. What is assumed of them
-- stands in Software/Assumptions (`IsAead`, `IsStreaming`) and in Limits/Float (`IsExact` takes
-- the floats as exact: no rounding at the values that occur, though f64 rounds); for an honest
-- login in Webauthn/Honest (`IsInverse`, `Reads`) and for a call over the wire in Rpc/Remote and
-- Risk/Remote (`Carries`). Authenticity and collision resistance are not assumed: a theorem that
-- rests on them gives, as its other case, the forgery (`Forgery`) or the collision (`Collision`)
-- at the texts in question. The order in which Rust iterates a map is a parameter that gives any
-- permutation.
--
-- Instants are nanoseconds, without a bound. No function needs fuel: loops run over lists. Only
-- the test of a flood counts down, from the 10,000 rounds that it has in the source.
--
-- Not modelled: what TLS and the HTTP server do, wiping of memory (`Zeroizing`), poisoned locks,
-- waiting for a lock (a locked region is one step), the encoding of the messages, the
-- implementation of the service of risk scores, which is not in Rust, and the programs in Go.
pub mod Common
pub mod Text
pub mod Words
pub mod HashMap
pub mod Proto
pub mod Context
pub mod Schedule
pub mod Limits
pub mod Provider
pub mod Software
pub mod Webauthn
pub mod Service
pub mod Profile
pub mod Startup
pub mod Rpc
pub mod Risk
pub mod Wire
pub mod Secret
pub mod Scenarios
pub mod Tests
