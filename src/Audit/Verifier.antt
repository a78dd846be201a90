-- ===== src/Audit/Verifier.antt =====
-- crates/qw-audit/src/verifier.rs: `verify_sharded`, over the entries and checkpoints of a log.
-- A message is a constructor of `VerifyError` with the values that the text is formatted from.
pub mod Groups
pub mod Result
pub mod Entries
pub mod Grouping
pub mod Seals
pub mod Index
pub mod Soundness
pub mod Acceptance
use quanta_watch.Prelude.{
  ℕ, ◌+◌, Text, text_eq, Bool, true, false, not, ◌&&◌, Option, none, some, List, [], ◌∷◌, ltb, ◌==◌,
  if◌then◌else◌, sort_by,
}
use quanta_watch.Crypto.Primitives.{Primitives, sha3_256_hex}
use quanta_watch.Audit.Entry
use quanta_watch.Audit.Entry.{AuditEntry, EntryContent}
use quanta_watch.Audit.Chain.{next_u64}
use quanta_watch.Audit.Checkpoint
use quanta_watch.Audit.Checkpoint.{AuditCheckpoint, CheckpointContent, WriterTip, merkle_root_of}
use Groups.{group_by_writer, by_sequence, by_checkpoint_seq, TipIndex, tip_get}
use Result.*

-- What the verifier is given besides the log: the libraries, the two serialisers and the key.
pub record Keys : Type 0 where
  pub crypto : Primitives
  pub json_entry : EntryContent → Option Text
  pub json_checkpoint : CheckpointContent → Option Text
  pub public_key : Text

-- What one chain carries from entry to entry, and the results so far.
pub record Pass : Type 0 where
  pub prev_hash : Option Text
  pub prev_seq : Option ℕ
  pub tip_index : TipIndex
  pub result : VerificationResult

module _ (k : Keys) where
  open k use {crypto, json_entry, json_checkpoint, public_key}

  unfoldable pub decode_and_verify : Text → Text → SignatureCheck
  decode_and_verify content_hash signature = elim (crypto.base64_decode signature) [
    | none ↦ bad_base64
    | some sig ↦ elim (crypto.verify public_key content_hash sig) [
      | none ↦ verify_error
      | some ok ↦ checked ok
    ]
  ]

  -- Content hash integrity.
  unfoldable pub content_check : Text → AuditEntry → VerificationResult → VerificationResult
  content_check writer e r =
      if text_eq (sha3_256_hex crypto (Entry.content_bytes json_entry e)) e.content_hash
      then r
      else fail_chain (content_hash_mismatch writer e.sequence) r

  -- Sequence contiguity, and the genesis entry's empty `prev_hash`.
  unfoldable pub sequence_check :
      Text → Option ℕ → AuditEntry → VerificationResult → VerificationResult
  sequence_check writer none e r =
      if (e.sequence == 0) && not (text_eq e.prev_hash [])
      then fail_chain (genesis_prev_hash writer) r
      else r
  sequence_check writer (some ps) e r =
      if e.sequence == next_u64 ps then r else fail_chain (sequence_gap writer ps e.sequence) r

  -- Linkage to the previous entry in the set.
  unfoldable pub link_check :
      Text → Option Text → AuditEntry → VerificationResult → VerificationResult
  link_check writer none e r = r
  link_check writer (some ph) e r =
      if text_eq e.prev_hash ph then r else fail_chain (chain_broken writer e.sequence) r

  unfoldable pub signature_check : Text → AuditEntry → VerificationResult → VerificationResult
  unfolding decode_and_verify
  signature_check writer e r = elim (decode_and_verify e.content_hash e.signature) [
    | checked true ↦ record r { signatures_valid = r.signatures_valid + 1 }
    | checked false ↦ fail (signature_invalid writer e.sequence) r
    | bad_base64 ↦ fail (signature_error writer e.sequence bad_base64) r
    | verify_error ↦ fail (signature_error writer e.sequence verify_error) r
  ]

  -- The body of the loop over one writer's chain.
  unfoldable pub check_entry : Text → AuditEntry → Pass → Pass
  check_entry writer e p =
      let counted = record (p.result) { entries_checked = p.result.entries_checked + 1 } in
      record {
        prev_hash = some e.content_hash;
        prev_seq = some e.sequence;
        tip_index = (writer, e.sequence, e.content_hash) ∷ p.tip_index;
        result = signature_check writer e (
            link_check writer p.prev_hash e
              (sequence_check writer p.prev_seq e (content_check writer e counted)));
      }

  unfoldable pub check_chain : Text → List AuditEntry → Pass → Pass
  check_chain writer [] p = p
  check_chain writer (e ∷ chain) p = check_chain writer chain (check_entry writer e p)

  -- The loop over the writers.
  unfoldable pub check_writers :
      List (Text × List AuditEntry) → TipIndex → VerificationResult → TipIndex × VerificationResult
  check_writers [] tips r = (tips, r)
  check_writers ((writer, entries) ∷ rest) tips r =
      let p = check_chain writer (sort_by by_sequence entries) (record {
        prev_hash = none;
        prev_seq = none;
        tip_index = tips;
        result = record r { writers_checked = r.writers_checked + 1 };
      }) in
      check_writers rest p.tip_index p.result

  -- The checks of one checkpoint, in the order of the source.
  unfoldable pub checkpoint_hash_check : AuditCheckpoint → VerificationResult → VerificationResult
  checkpoint_hash_check cp r =
      if text_eq (sha3_256_hex crypto (Checkpoint.content_bytes json_checkpoint cp)) cp.content_hash
      then r
      else fail (checkpoint_hash_mismatch cp.checkpoint_seq) r

  unfoldable pub merkle_check : AuditCheckpoint → VerificationResult → VerificationResult
  merkle_check cp r =
      if text_eq (merkle_root_of crypto cp.tips) cp.merkle_root
      then record r { merkle_roots_valid = r.merkle_roots_valid + 1 }
      else fail (merkle_root_mismatch cp.checkpoint_seq) r

  unfoldable pub checkpoint_sequence_check :
      Option ℕ → AuditCheckpoint → VerificationResult → VerificationResult
  checkpoint_sequence_check none cp r = r
  checkpoint_sequence_check (some ps) cp r =
      if cp.checkpoint_seq == next_u64 ps then r else fail (checkpoint_gap ps cp.checkpoint_seq) r

  unfoldable pub checkpoint_link_check :
      Option Text → AuditCheckpoint → VerificationResult → VerificationResult
  checkpoint_link_check none cp r = r
  checkpoint_link_check (some ph) cp r =
      if text_eq cp.prev_checkpoint_hash ph then r else fail (checkpoint_broken cp.checkpoint_seq) r

  unfoldable pub checkpoint_signature_check :
      AuditCheckpoint → VerificationResult → VerificationResult
  unfolding decode_and_verify
  checkpoint_signature_check cp r = elim (decode_and_verify cp.content_hash cp.signature) [
    | checked true ↦ r
    | checked false ↦ fail (checkpoint_signature_invalid cp.checkpoint_seq) r
    | bad_base64 ↦ fail (checkpoint_signature_error cp.checkpoint_seq bad_base64) r
    | verify_error ↦ fail (checkpoint_signature_error cp.checkpoint_seq verify_error) r
  ]

  -- A committed tip must still be present and unchanged.
  unfoldable pub tip_check : TipIndex → ℕ → WriterTip → VerificationResult → VerificationResult
  tip_check tips seq tip r = elim (tip_get tips tip.writer_id tip.seq) [
    | none ↦ fail_chain (tip_missing seq tip.writer_id tip.seq) r
    | some h ↦
        if text_eq h tip.content_hash
        then r
        else fail_chain (tip_altered seq tip.writer_id tip.seq) r
  ]

  unfoldable pub check_tips :
      TipIndex → ℕ → List WriterTip → VerificationResult → VerificationResult
  check_tips tips seq [] r = r
  check_tips tips seq (tip ∷ rest) r = check_tips tips seq rest (tip_check tips seq tip r)

  unfoldable pub check_checkpoint :
      TipIndex → Option Text → Option ℕ → AuditCheckpoint → VerificationResult → VerificationResult
  check_checkpoint tips prev_hash prev_seq cp r =
      let counted = record r { checkpoints_checked = r.checkpoints_checked + 1 } in
      check_tips tips cp.checkpoint_seq cp.tips (
        checkpoint_signature_check cp (
          checkpoint_link_check prev_hash cp (
            checkpoint_sequence_check prev_seq cp
              (merkle_check cp (checkpoint_hash_check cp counted)))))

  unfoldable pub check_checkpoints :
      TipIndex
      → List AuditCheckpoint
      → Option Text
      → Option ℕ
      → VerificationResult
      → VerificationResult
  check_checkpoints tips [] prev_hash prev_seq r = r
  check_checkpoints tips (cp ∷ rest) prev_hash prev_seq r =
      check_checkpoints tips rest (some cp.content_hash) (some cp.checkpoint_seq)
        (check_checkpoint tips prev_hash prev_seq cp r)

  unfoldable pub verify_sharded : List AuditEntry → List AuditCheckpoint → VerificationResult
  unfolding sort_by
  verify_sharded entries checkpoints =
      let (tips, r) = check_writers (group_by_writer entries) [] clean_result in
      check_checkpoints tips (sort_by by_checkpoint_seq checkpoints) none none r
