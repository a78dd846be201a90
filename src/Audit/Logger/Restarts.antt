-- ===== src/Audit/Logger/Restarts.antt =====
-- crates/qw-audit/src/logger.rs and verifier.rs: what a replica writes, over any number of restarts, is
-- a log that verifies.
use quanta_watch.Prelude.{ℕ, ◌^◌, ◌<◌, ◌≡◌, Text, true, none, List, [], All, arith}
use quanta_watch.Crypto.Primitives.{IsSound}
use quanta_watch.Audit.Verifier.Entries.{IsAuthentic, IsChained}
use quanta_watch.Audit.Verifier.Acceptance.{verify_sharded-accepts}
use quanta_watch.Audit.Verifier.{Keys, verify_sharded}
use quanta_watch.Audit.Logger.{AuditBackend, LogCommand, restarts}
use quanta_watch.Audit.Logger.Tips.{IsLawful, commands_of}
use quanta_watch.Audit.Logger.Trail.{IsChained-runs}

-- Over any number of restarts, the entries that a replica appends to a storage that has none of its own
-- yet are, in this order, what `verify_sharded` asks of a writer's chain: each hashes to its content hash
-- and its signature verifies, and each follows the one before it, in sequence and by its link. The
-- storage keeps tips as documented, the signatures of the key verify, and there are fewer than 2 ^ 64
-- commands.
pub restarts-IsChained :
    {S : Type 0} (backend : AuditBackend S) (k : Keys) (batch : ℕ) (writer_id : Text)
    → IsLawful backend
    → IsSound k.crypto k.public_key
    → (runs : List (List LogCommand)) (store : S) → backend.writer_tip writer_id store ≡ none
    → commands_of runs < 2 ^ 64
    → let entries = (restarts backend k batch writer_id store runs).1 in
      IsChained none none entries × All (IsAuthentic k) entries
restarts-IsChained backend k batch writer_id lawful sound runs store fresh b =
    let ran =
      IsChained-runs backend k batch writer_id lawful sound runs none store fresh (omega arith) in
    (ran.0, ran.1.0)

-- The entries that a replica appends to a storage that has none of its own yet are accepted by
-- `verify_sharded` with an empty list of checkpoints, however often the replica is restarted: where the storage keeps tips as documented, the
-- signatures of the key verify, and there are fewer than 2 ^ 64 commands.
pub restarts-verifies :
    {S : Type 0} (backend : AuditBackend S) (k : Keys) (batch : ℕ) (writer_id : Text)
    → IsLawful backend
    → IsSound k.crypto k.public_key
    → (runs : List (List LogCommand)) (store : S) → backend.writer_tip writer_id store ≡ none
    → commands_of runs < 2 ^ 64
    → (verify_sharded k (restarts backend k batch writer_id store runs).1 []).valid ≡ true
restarts-verifies backend k batch writer_id lawful sound runs store fresh b =
    let ran =
      IsChained-runs backend k batch writer_id lawful sound runs none store fresh (omega arith) in
    verify_sharded-accepts k writer_id _ ran.1.1 ran.0 ran.1.0
