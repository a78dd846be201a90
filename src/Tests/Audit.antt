-- ===== src/Tests/Audit.antt =====
-- crates/qw-audit/src on a log of two entries and a checkpoint, with stand-ins for the cryptography:
-- a hash is the length of its input, and every signature verifies.
use quanta_watch.Prelude.{
  All, Option, text_eq_refl, if◌then◌else◌, ℕ, ◌+◌, ◌≡◌, refl, inl, inr, In, Text, codes, text_eq,
  decimal_fuel, true, none, some, List, [], ◌∷◌, length, arith,
}
use quanta_watch.Crypto.Primitives.{Primitives, sha3_256_hex, IsSound}
use quanta_watch.Audit.Entry
use quanta_watch.Audit.Entry.{AuditEntry, AuditEvent}
use quanta_watch.Audit.Checkpoint
use quanta_watch.Audit.Checkpoint.{AuditCheckpoint, WriterTip, build}
use quanta_watch.Crypto.Merkle.{compute_root}
use quanta_watch.Audit.Verifier.Groups.{tip_get, group_by_writer, group_into, push_entry}
use quanta_watch.Audit.Verifier.{
  Keys, decode_and_verify, verify_sharded, check_checkpoints, check_checkpoint, check_tips,
  tip_check, check_writers, check_chain, check_entry, checkpoint_signature_check,
  checkpoint_link_check, checkpoint_sequence_check, merkle_check, checkpoint_hash_check,
  content_check, sequence_check, link_check, signature_check,
}
use quanta_watch.Audit.Verifier.Result.{checked}
use quanta_watch.Audit.Logger.{AuditBackend, LogCommand, restarts}
use quanta_watch.Audit.Logger.Tips.{IsLawful}
use quanta_watch.Audit.Logger.Restarts.{restarts-IsChained, restarts-verifies}
use quanta_watch.Audit.Verifier.Entries.{IsAuthentic, IsChained}
use quanta_watch.Audit.Verifier.Soundness.{
  verify_sharded-authentic, verify_sharded-keeps_tips, verify_sharded-chains,
}

abbrev crypto : Primitives
crypto = record {
  sha3_256 = λ x. length x ∷ [];
  hex_encode = λ x. x;
  base64_encode = λ x. x;
  base64_decode = λ x. some x;
  sign = λ m. some m;
  verify = λ key m s. some true;
}

abbrev keys : Keys
keys = record {
  crypto = crypto;
  json_entry = λ c. some (c.sequence ∷ c.prev_hash);
  json_checkpoint = λ c. some (c.checkpoint_seq ∷ c.merkle_root);
  public_key = [];
}

abbrev entry_at : ℕ → Text → Text → AuditEntry
entry_at sequence prev_hash content_hash = record {
  id = [];
  timestamp = 0;
  writer_id = codes "w";
  sequence = sequence;
  session_id = [];
  event = AuditEvent.access_denied [] [] [] [];
  prev_hash = prev_hash;
  content_hash = content_hash;
  signature = [];
  merkle_root = none;
}

abbrev first : AuditEntry
first = entry_at 0 [] (1 ∷ [])

abbrev second : AuditEntry
second = entry_at 1 (1 ∷ []) (2 ∷ [])

abbrev log : List AuditEntry
log = second ∷ first ∷ []

abbrev tip : WriterTip
tip = record { writer_id = codes "w"; seq = 1; content_hash = 2 ∷ [] }

abbrev checkpoint : AuditCheckpoint
checkpoint = record {
  checkpoint_seq = 0;
  timestamp = 0;
  tips = tip ∷ [];
  merkle_root = 5 ∷ [];
  prev_checkpoint_hash = [];
  content_hash = 2 ∷ [];
  signature = [];
}

log-valid : (verify_sharded keys log (checkpoint ∷ [])).valid ≡ true
unfolding verify_sharded check_checkpoints check_checkpoint check_tips tip_check tip_get
    check_writers group_by_writer group_into push_entry text_eq check_chain check_entry
    checkpoint_signature_check checkpoint_link_check checkpoint_sequence_check merkle_check
    checkpoint_hash_check content_check sequence_check link_check signature_check
    Checkpoint.merkle_root_of Checkpoint.root_of_leaves Checkpoint.tip_line Checkpoint.content_bytes
    Checkpoint.content_of Entry.content_bytes Entry.content_of compute_root decimal_fuel
log-valid = refl

verify_sharded-authentic_example :
    (sha3_256_hex crypto (Entry.content_bytes keys.json_entry first) ≡ 1 ∷ [])
    × (decode_and_verify keys (1 ∷ []) [] ≡ checked true)
verify_sharded-authentic_example =
    verify_sharded-authentic keys log (checkpoint ∷ []) log-valid first (inr (inl refl))

verify_sharded-keeps_tips_example :
    (e : AuditEntry) × In e log
    × (e.writer_id ≡ codes "w")
    × (e.sequence ≡ 1)
    × (e.content_hash ≡ 2 ∷ [])
verify_sharded-keeps_tips_example =
    verify_sharded-keeps_tips keys log (checkpoint ∷ []) log-valid checkpoint (inl refl) tip
      (inl refl)

verify_sharded-chains_example :
    (first.sequence ≡ second.sequence → first ≡ second)
    × (second.sequence ≡ first.sequence + 1 → second.prev_hash ≡ first.content_hash)
verify_sharded-chains_example =
    verify_sharded-chains keys log (checkpoint ∷ []) log-valid (omega arith, (omega arith, tt))
      first second (inr (inl refl)) (inl refl) refl

-- A storage of tips, the newest first.
abbrev Tips : Type 0
Tips = List (Text × ℕ × Text)

tip_of : Text → Tips → Option (ℕ × Text)
tip_of w [] = none
tip_of w ((v, seq, hash) ∷ tips) =
    let rest = tip_of w tips in if text_eq v w then some (seq, hash) else rest

abbrev storage : AuditBackend Tips
storage = record {
  append_entry = λ e tips. (e.writer_id, e.sequence, e.content_hash) ∷ tips;
  writer_tip = tip_of;
  commit_checkpoint = λ f tips. tips;
}

storage-IsLawful : IsLawful storage
unfolding tip_of
storage-IsLawful = record {
  tip-first = λ e s h. rw (text_eq_refl e.writer_id) refl;
  tip-next = λ e s seq hash h l. rw (text_eq_refl e.writer_id) refl;
  tip-commit = λ f w s. refl;
}

keys-IsSound : IsSound keys.crypto keys.public_key
keys-IsSound = record { decode_encode = λ x. refl; verify_sign = λ m s h. refl }

abbrev denied : LogCommand
denied = LogCommand.log [] 0 [] (AuditEvent.access_denied [] [] [] [])

abbrev runs : List (List LogCommand)
runs = (denied ∷ denied ∷ LogCommand.shutdown 0 ∷ []) ∷ (denied ∷ LogCommand.checkpoint 0 ∷ []) ∷ []

restarts-IsChained_example :
    IsChained none none (restarts storage keys 4 (codes "w") [] runs).1
    × All (IsAuthentic keys) (restarts storage keys 4 (codes "w") [] runs).1
unfolding tip_of
restarts-IsChained_example =
    restarts-IsChained storage keys 4 (codes "w") storage-IsLawful keys-IsSound runs [] refl
      (omega arith)

restarts-verifies_example :
    (verify_sharded keys (restarts storage keys 4 (codes "w") [] runs).1 []).valid ≡ true
unfolding tip_of
restarts-verifies_example =
    restarts-verifies storage keys 4 (codes "w") storage-IsLawful keys-IsSound runs [] refl
      (omega arith)
