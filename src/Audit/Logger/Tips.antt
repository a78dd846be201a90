-- ===== src/Audit/Logger/Tips.antt =====
-- crates/qw-audit/src/backend.rs and logger.rs: the tip of a writer, in the storage and in its entries.
use quanta_watch.Prelude.{
  ℕ, ◌+◌, ◌^◌, ◌<◌, ◌≡◌, refl, ◌∙◌, Text, Option, none, some, List, [], ◌∷◌, ◌++◌, All, length,
  arith,
}
use quanta_watch.Audit.Entry.{AuditEntry}
use quanta_watch.Audit.Chain.{AuditChain, next_u64}
use quanta_watch.Audit.Verifier.Entries.{Follows, IsChained}
use quanta_watch.Audit.Checkpoint.{AuditCheckpoint, WriterTip}
use quanta_watch.Audit.Logger.{AuditBackend, LogCommand}

-- What the storage is documented to do: the tip of a writer is the last entry that it has appended,
-- which has a sequence above the earlier ones, and a checkpoint leaves the tips as they are.
pub record IsLawful {S : Type 0} (backend : AuditBackend S) : Type 0 where
  pub tip-first :
      (e : AuditEntry) (s : S)
      → backend.writer_tip e.writer_id s ≡ none
      → backend.writer_tip e.writer_id (backend.append_entry e s)
        ≡ some (e.sequence, e.content_hash)
  pub tip-next :
      (e : AuditEntry) (s : S) (seq : ℕ) (hash : Text)
      → backend.writer_tip e.writer_id s ≡ some (seq, hash)
      → seq < e.sequence
      → backend.writer_tip e.writer_id (backend.append_entry e s)
        ≡ some (e.sequence, e.content_hash)
  pub tip-commit :
      (f : ℕ → Text → List WriterTip → AuditCheckpoint) (w : Text) (s : S)
      → backend.writer_tip w (backend.commit_checkpoint f s) ≡ backend.writer_tip w s

-- The hash and sequence of a tip.
abbrev pub tip_hash : Option (ℕ × Text) → Option Text
tip_hash none = none
tip_hash (some (seq, hash)) = some hash

abbrev pub tip_seq : Option (ℕ × Text) → Option ℕ
tip_seq none = none
tip_seq (some (seq, hash)) = some seq

-- A chain that goes on from a tip.
abbrev pub Continues : Option (ℕ × Text) → AuditChain → Type 0
Continues none chain = (chain.last_hash ≡ []) × (chain.sequence ≡ 0)
Continues (some (seq, hash)) chain =
    (chain.last_hash ≡ hash) × ((chain.sequence ≡ seq + 1) × (seq + 1 < 2 ^ 64))

-- The sequence that comes after a tip.
abbrev pub start : Option (ℕ × Text) → ℕ
start none = 0
start (some (seq, hash)) = seq + 1

abbrev pub commands_of : List (List LogCommand) → ℕ
commands_of [] = 0
commands_of (commands ∷ runs) = length commands + commands_of runs

-- The tip after more entries.
abbrev pub end_tip : Option (ℕ × Text) → List AuditEntry → Option (ℕ × Text)
end_tip t [] = t
end_tip t (e ∷ l) = end_tip (some (e.sequence, e.content_hash)) l

pub IsChained-append :
    (t : Option (ℕ × Text)) (l m : List AuditEntry)
    → IsChained (tip_hash t) (tip_seq t) l
    → IsChained (tip_hash (end_tip t l)) (tip_seq (end_tip t l)) m
    → IsChained (tip_hash t) (tip_seq t) (l ++ m)
IsChained-append t [] m c d = d
IsChained-append t (e ∷ l) m c d =
    (c.0, IsChained-append (some (e.sequence, e.content_hash)) l m c.1 d)

pub end_tip-append :
    (t : Option (ℕ × Text)) (l : List AuditEntry) (e : AuditEntry)
    → end_tip t (l ++ e ∷ []) ≡ some (e.sequence, e.content_hash)
end_tip-append t [] e = refl
end_tip-append t (x ∷ l) e = end_tip-append (some (x.sequence, x.content_hash)) l e

pub All-join :
    (P : AuditEntry → Type 0) (l m : List AuditEntry) → All P l → All P m → All P (l ++ m)
All-join P [] m a b = b
All-join P (e ∷ l) m a b = (a.0, All-join P l m a.1 b)

pub Continues-start :
    (t : Option (ℕ × Text)) (chain : AuditChain) → Continues t chain → chain.sequence ≡ start t
Continues-start none chain c = c.1
Continues-start (some (seq, hash)) chain c = c.1.0

pub Follows-tip :
    (t : Option (ℕ × Text)) (chain : AuditChain) (e : AuditEntry)
    → Continues t chain
    → e.sequence ≡ chain.sequence
    → e.prev_hash ≡ chain.last_hash
    → Follows (tip_hash t) (tip_seq t) e
Follows-tip none chain e c s p = record {
  sequence_next = λ ps q. cc;
  genesis = λ q z. p ∙ c.0;
  linked = λ ph q. cc;
}
Follows-tip (some (seq, hash)) chain e c s p = record {
  sequence_next = λ ps q. succeeds ps q;
  genesis = λ q z. cc;
  linked = λ ph q. p ∙ c.0 ∙ same ph q;
}
  where
    same : (ph : Text) → some hash ≡ some ph → hash ≡ ph
    same ph q = cc

    same_seq : (ps : ℕ) → some seq ≡ some ps → seq ≡ ps
    same_seq ps q = cc

    succeeds : (ps : ℕ) → some seq ≡ some ps → e.sequence ≡ next_u64 ps
    succeeds ps q = omega (arith, same_seq ps q, s, c.1.0, c.1.1)
