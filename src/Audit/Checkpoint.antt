-- ===== src/Audit/Checkpoint.antt =====
-- crates/qw-audit/src/checkpoint.rs: the global commitment across the writers' chains.
use quanta_watch.Prelude.{
  ℕ, Text, codes, decimal, text_ltb, Bool, Option, none, some, List, [], ◌∷◌, ◌++◌, map, sort_by,
}
use quanta_watch.Crypto.Primitives.{Primitives, sha3_256_hex}
use quanta_watch.Crypto.Merkle.{compute_root}

pub record WriterTip : Type 0 where
  pub writer_id : Text
  pub seq : ℕ
  pub content_hash : Text

pub record AuditCheckpoint : Type 0 where
  pub checkpoint_seq : ℕ
  pub timestamp : ℕ
  pub tips : List WriterTip
  pub merkle_root : Text
  pub prev_checkpoint_hash : Text
  pub content_hash : Text
  pub signature : Text

-- `sort_by(|a, b| a.writer_id.cmp(&b.writer_id))`
abbrev pub by_writer_id : WriterTip → WriterTip → Bool
by_writer_id a b = text_ltb a.writer_id b.writer_id

-- `format!("{}:{}:{}", t.writer_id, t.seq, t.content_hash)`
unfoldable pub tip_line : WriterTip → Text
tip_line t = t.writer_id ++ (codes ":" ++ (decimal t.seq ++ (codes ":" ++ t.content_hash)))

-- The root of a list that is not empty exists, so the last case is not reached.
unfoldable pub root_of_leaves : Primitives → List Text → Text
root_of_leaves c [] = sha3_256_hex c (codes "quantawatch-audit-empty-checkpoint")
root_of_leaves c (leaf ∷ leaves) = elim (compute_root c.sha3_256 (leaf ∷ leaves)) [
  | some root ↦ c.hex_encode root
  | none ↦ []
]

unfoldable pub merkle_root_of : Primitives → List WriterTip → Text
unfolding root_of_leaves tip_line
merkle_root_of c tips =
    root_of_leaves c (map (λ t. c.sha3_256 (tip_line t)) (sort_by by_writer_id tips))

-- The object that `content_bytes` serialises.
pub record CheckpointContent : Type 0 where
  pub checkpoint_seq : ℕ
  pub timestamp : ℕ
  pub tips : List WriterTip
  pub merkle_root : Text
  pub prev_checkpoint_hash : Text

unfoldable pub content_of : AuditCheckpoint → CheckpointContent
content_of cp = record {
  checkpoint_seq = cp.checkpoint_seq;
  timestamp = cp.timestamp;
  tips = cp.tips;
  merkle_root = cp.merkle_root;
  prev_checkpoint_hash = cp.prev_checkpoint_hash;
}

unfoldable pub content_bytes : (CheckpointContent → Option Text) → AuditCheckpoint → Text
unfolding content_of
content_bytes json cp = elim (json (content_of cp)) [ none ↦ [] | some bytes ↦ bytes ]

unfoldable pub build :
    Primitives → (CheckpointContent → Option Text) → ℕ → Text → List WriterTip → ℕ → AuditCheckpoint
unfolding sort_by
build c json checkpoint_seq prev_checkpoint_hash tips timestamp =
    let sorted = sort_by by_writer_id tips in
    let cp : AuditCheckpoint = record {
      checkpoint_seq = checkpoint_seq;
      timestamp = timestamp;
      tips = sorted;
      merkle_root = merkle_root_of c sorted;
      prev_checkpoint_hash = prev_checkpoint_hash;
      content_hash = [];
      signature = [];
    } in
    record cp { content_hash = sha3_256_hex c (content_bytes json cp) }
