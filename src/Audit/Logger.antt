-- ===== src/Audit/Logger.antt =====
-- crates/qw-audit/src/logger.rs: the task that writes one replica's entries, as a step over its
-- commands, and backend.rs: the storage that it writes to, as an interface over a state. A command
-- comes with the fresh id and the reading of the clock that its entry or checkpoint takes.
pub mod Tips
pub mod Trail
pub mod Restarts
use quanta_watch.Prelude.{ℕ, Text, Bool, true, false, Option, none, some, List, [], ◌∷◌, ◌++◌}
use quanta_watch.Crypto.Primitives.{Primitives, sha3_256_hex}
use quanta_watch.Audit.Entry
use quanta_watch.Audit.Entry.{AuditEvent, AuditEntry}
use quanta_watch.Audit.Chain
use quanta_watch.Audit.Chain.{AuditChain, resume, advance, prev_hash, next_sequence, next_u64}
use quanta_watch.Audit.Checkpoint
use quanta_watch.Audit.Checkpoint.{AuditCheckpoint, WriterTip, build}
use quanta_watch.Audit.Verifier.{Keys}

-- The calls of the trait `AuditBackend` that the writer makes. An error is no outcome of them: the store's
-- own implementation (crates/qw-store/src/lib.rs) logs a failed insert and goes on, and it keeps a
-- sequence as an `i64`. A storage that does either is not lawful in the sense of the children.
pub record AuditBackend (S : Type 0) : Type 0 where
  pub append_entry : AuditEntry → S → S
  pub writer_tip : Text → S → Option (ℕ × Text)
  pub commit_checkpoint : (ℕ → Text → List WriterTip → AuditCheckpoint) → S → S

pub data LogCommand : Type 0 where
  log : (id : Text) (timestamp : ℕ) (session_id : Text) (event : AuditEvent) → LogCommand
  checkpoint : (timestamp : ℕ) → LogCommand
  flush : LogCommand
  shutdown : (timestamp : ℕ) → LogCommand

module _ {S : Type 0} (backend : AuditBackend S) (k : Keys) (merkle_batch_size : ℕ)
    (writer_id : Text) where
  -- The writer between two commands: its chain, the storage, and the entries that it has appended.
  pub record Writer : Type 0 where
    pub chain : AuditChain
    pub store : S
    pub appended : List AuditEntry

  unfoldable pub resumed : S → AuditChain
  unfolding resume Chain.new
  resumed store = elim (backend.writer_tip writer_id store) [
    | some (seq, hash) ↦ resume hash (next_u64 seq) merkle_batch_size
    | none ↦ Chain.new merkle_batch_size
  ]

  -- The entry of a command: its content is hashed, and the hash is signed.
  unfoldable pub hashed : AuditChain → Text → ℕ → Text → AuditEvent → AuditEntry
  unfolding Entry.new
  hashed chain id timestamp session_id event =
      let entry =
        Entry.new id timestamp writer_id (next_sequence chain) session_id event (prev_hash chain) in
      record entry { content_hash = sha3_256_hex k.crypto (Entry.content_bytes k.json_entry entry) }

  unfoldable pub write_entry : Writer → AuditEntry → Text → Writer
  unfolding advance
  write_entry w entry sig =
      let (chain, merkle_root) = advance k.crypto entry.content_hash w.chain in
      let signed = record entry {
        signature = k.crypto.base64_encode sig;
        merkle_root = merkle_root;
      } in
      record {
        chain = chain;
        store = backend.append_entry signed w.store;
        appended = w.appended ++ signed ∷ [];
      }

  -- The closure of the free function `commit_checkpoint`: an error of the signer leaves the checkpoint
  -- without a signature.
  unfoldable pub sign_checkpoint : ℕ → ℕ → Text → List WriterTip → AuditCheckpoint
  unfolding build
  sign_checkpoint timestamp seq prev tips =
      let cp = build k.crypto k.json_checkpoint seq prev tips timestamp in
      elim (k.crypto.sign cp.content_hash) [
        | some sig ↦ record cp { signature = k.crypto.base64_encode sig }
        | none ↦ cp
      ]

  unfoldable pub commit : ℕ → Writer → Writer
  unfolding sign_checkpoint
  commit timestamp w = record w {
    store = backend.commit_checkpoint (sign_checkpoint timestamp) w.store;
  }

  -- `LogCommand::Log`: an entry that cannot be signed is skipped, and the chain stays.
  unfoldable pub log_event : Writer → AuditEntry → Writer
  unfolding write_entry
  log_event w entry = elim (k.crypto.sign entry.content_hash) [
    | none ↦ w
    | some sig ↦ write_entry w entry sig
  ]

  -- The loop over the commands received, to the shutdown or to the end of the channel.
  unfoldable pub receive : Writer → List LogCommand → Writer
  unfolding hashed log_event commit
  receive w [] = w
  receive w (log id timestamp session_id event ∷ commands) =
      receive (log_event w (hashed w.chain id timestamp session_id event)) commands
  receive w (checkpoint timestamp ∷ commands) = receive (commit timestamp w) commands
  receive w (flush ∷ commands) = receive w commands
  receive w (shutdown timestamp ∷ commands) = commit timestamp w

  unfoldable pub writer_task : S → List LogCommand → Writer
  unfolding resumed receive
  writer_task store commands =
      receive (record { chain = resumed store; store = store; appended = [] }) commands

  -- The replica's runs one after the other, each resuming on the storage that the last one left: the
  -- storage, and all entries appended.
  unfoldable pub restarts : S → List (List LogCommand) → S × List AuditEntry
  unfolding writer_task
  restarts store [] = (store, [])
  restarts store (commands ∷ runs) =
      let w = writer_task store commands in
      let (store', entries) = restarts w.store runs in (store', w.appended ++ entries)
