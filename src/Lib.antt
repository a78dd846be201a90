-- ===== src/Lib.antt =====
-- The gateway of QuantaWatch, a proxy for LLM traffic with post-quantum audit: a model of its core and
-- the properties that make it correct.
--
-- The parts, and the files that model them:
--
-- * Crypto, crates/qw-crypto/src. Crypto/Primitives holds what the program takes from libraries (SHA3,
--   hex, base64, ML-DSA) as one record of functions. Crypto/Merkle is merkle.rs: `compute_root`,
--   `compute_proof` and `verify_proof` of `MerkleTree`, each loop with a function of its own. A climb
--   runs on fuel, the number of leaves: every round at least halves a level of two or more.
-- * Audit, crates/qw-audit/src. Audit/Entry is entry.rs, Audit/Chain is chain.rs, Audit/Checkpoint is
--   checkpoint.rs. Audit/Verifier is `verify_sharded` of verifier.rs: its children hold the result and
--   its errors (Result) and the maps by writer and by tip (Groups). serde_json is a parameter.
--   Audit/Logger is the writer task of logger.rs, over the interface of backend.rs; an error of the
--   storage, which the source only reports, is not an outcome of it, and neither is the store's cast of
--   a sequence to an `i64`: the laws that a storage is assumed to obey rule both out.
-- * Policy, crates/qw-policy/src. Policy/Glob and Policy/Engine are engine.rs, Policy/Loader is
--   yaml_parser.rs, Policy/Types is types.rs. The YAML parser is a parameter.
-- * Gateway, crates/qw-gateway/src. Gateway/RateLimit is ratelimit.rs, Gateway/Resilience is
--   resilience.rs, Gateway/Rbac is rbac.rs, Gateway/CryptoPolicy is crypto_policy.rs, and Gateway/Auth is
--   `validate`, `logout` and `perms_for` of auth.rs with `auth_layer` of router.rs. Gateway/Login is the
--   rest of auth.rs with mfa.rs: Password is `login` and `setup_admin`, Codes the second factor with its
--   enrollment and backup codes, Users the user administration of admin/users_api.rs and of the commands
--   `admin reset-2fa` and `admin reset-password` of crates/qw-cli/src/main.rs, and Calls a history of these
--   calls, the sessions of an identity provider and the use of a credential included.
-- * Store is a table of crates/qw-store/src/lib.rs, the rows under their keys, as Gateway/Login uses it.
-- * Scanner, crates/qw-scanner/src: the findings of types.rs, and algorithms.rs. Cbom/Agility is
--   agility.rs of crates/qw-cbom/src: the policies on the findings, and in Evaluation their verdicts.
-- * Graph, crates/qw-graph/src/lib.rs: its data and weights. Graph/Build, Graph/Agents, Graph/Assets and
--   Graph/Targets are `build_graph`, as steps on a builder in the order of the source; Graph/Maps is its
--   sorted maps, and Graph/Exposure the ranked work list with its kill chains.
-- * Monitor, crates/qw-monitor/src: types.rs and the two scans of lib.rs, over detectors that are
--   parameters.
--
-- A request meets these parts in the order rate limit, authentication and permission (admin API), policy,
-- monitor, crypto enforcement, breaker and retries (proxy), and its outcome is an audit entry.
--
-- Conventions. A text is the list of its bytes (Prelude/Bytes). Numbers are natural numbers; a counter of
-- the source that can wrap is reduced modulo 2 ^ 32 or 2 ^ 64, as in a release build. Instants are
-- nanoseconds. A configured `u64` of seconds that the source casts to an `i64` counts as negative from
-- 2 ^ 63 on; the panic of chrono on a span past its range (`max_secs`) is not modelled, while that of the
-- breaker's `Instant` is, by the state that it leaves. The token buckets, and the weights and scores of
-- the graph, are exact units where the source has `f64`. A hash map is a list of its entries. Shared state behind a lock is passed explicitly:
-- each operation runs as a whole. The random tokens that an operation draws are its arguments, and the
-- password hash and the codes of authenticators are parameters. The loop of
-- `send_with_retry` runs on fuel `max_retries + 1`, and it is shown to return.
--
-- Not modelled: the channels and timers round the audit logger, the purge of expired sessions, the
-- detectors' regular expressions, the store's SQL, the scanners and their network probes, the CBOM reports,
-- the texts for display in the graph, the providers, the other admin handlers, and the user interfaces.
--
-- Prelude holds the shared notation and lemmas, and Tests the runs on concrete inputs.
pub mod Prelude
pub mod Crypto
pub mod Audit
pub mod Policy
pub mod Store
pub mod Gateway
pub mod Scanner
pub mod Cbom
pub mod Graph
pub mod Monitor
pub mod Tests
