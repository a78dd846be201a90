-- ===== src/Audit/Chain.antt =====
-- crates/qw-audit/src/chain.rs: the state of one writer's hash chain.
use quanta_watch.Prelude.{
  ℕ, ◌+◌, ◌%◌, ◌^◌, Text, Option, none, List, [], ◌∷◌, ◌++◌, length, leb, if◌then◌else◌,
}
use mathlib.Core.Option
use quanta_watch.Crypto.Primitives.{Primitives}
use quanta_watch.Crypto.Merkle.{compute_root}

pub record AuditChain : Type 0 where
  pub last_hash : Text
  pub sequence : ℕ
  pub batch_buffer : List Text
  pub batch_size : ℕ

unfoldable pub new : ℕ → AuditChain
new batch_size = record { last_hash = []; sequence = 0; batch_buffer = []; batch_size = batch_size }

unfoldable pub resume : Text → ℕ → ℕ → AuditChain
resume last_hash sequence batch_size = record {
  last_hash = last_hash;
  sequence = sequence;
  batch_buffer = [];
  batch_size = batch_size;
}

abbrev pub prev_hash : AuditChain → Text
prev_hash chain = chain.last_hash

abbrev pub next_sequence : AuditChain → ℕ
next_sequence chain = chain.sequence

-- `self.sequence += 1` on a `u64`.
abbrev pub next_u64 : ℕ → ℕ
next_u64 n = (n + 1) % 2 ^ 64

-- The new chain, and the Merkle root where the batch is complete.
unfoldable pub advance : Primitives → Text → AuditChain → AuditChain × Option Text
advance c content_hash chain =
    let buffer = chain.batch_buffer ++ c.sha3_256 content_hash ∷ [] in
    let moved = record chain {
      last_hash = content_hash;
      sequence = next_u64 chain.sequence;
      batch_buffer = buffer;
    } in
    if leb chain.batch_size (length buffer)
    then (
      record moved { batch_buffer = [] },
      Option.map c.hex_encode (compute_root c.sha3_256 buffer),
    )
    else (moved, none)
