-- ===== src/Audit/Verifier/Groups.antt =====
-- crates/qw-audit/src/verifier.rs: the maps and orders of `verify_sharded`. A `BTreeMap` is the list
-- of its entries in the order of the keys; `tip_index` is only looked up, so its latest entry is first.
use quanta_watch.Prelude.{
  ℕ, Text, text_eq, text_ltb, Bool, ◌&&◌, Option, none, some, List, [], ◌∷◌, ◌++◌, ltb, ◌==◌,
  if◌then◌else◌,
}
use quanta_watch.Audit.Entry.{AuditEntry}
use quanta_watch.Audit.Checkpoint.{AuditCheckpoint}

-- `by_writer.entry(&e.writer_id).or_default().push(e)`
unfoldable pub push_entry :
    AuditEntry → List (Text × List AuditEntry) → List (Text × List AuditEntry)
push_entry e [] = (e.writer_id, e ∷ []) ∷ []
push_entry e ((writer, entries) ∷ groups) =
    let rest = push_entry e groups in
    if text_eq e.writer_id writer
    then (writer, entries ++ e ∷ []) ∷ groups
    else if text_ltb e.writer_id writer
    then (e.writer_id, e ∷ []) ∷ (writer, entries) ∷ groups
    else (writer, entries) ∷ rest

unfoldable pub group_into :
    List AuditEntry → List (Text × List AuditEntry) → List (Text × List AuditEntry)
unfolding push_entry
group_into [] groups = groups
group_into (e ∷ entries) groups = group_into entries (push_entry e groups)

unfoldable pub group_by_writer : List AuditEntry → List (Text × List AuditEntry)
unfolding group_into
group_by_writer entries = group_into entries []

-- `sort_by_key(|e| e.sequence)` and `sort_by_key(|c| c.checkpoint_seq)`
abbrev pub by_sequence : AuditEntry → AuditEntry → Bool
by_sequence a b = ltb a.sequence b.sequence

abbrev pub by_checkpoint_seq : AuditCheckpoint → AuditCheckpoint → Bool
by_checkpoint_seq a b = ltb a.checkpoint_seq b.checkpoint_seq

-- (writer_id, seq) -> content_hash
abbrev pub TipIndex : Type 0
TipIndex = List (Text × ℕ × Text)

unfoldable pub tip_get : TipIndex → Text → ℕ → Option Text
tip_get [] writer seq = none
tip_get ((w, s, h) ∷ tips) writer seq =
    let rest = tip_get tips writer seq in if text_eq w writer && (s == seq) then some h else rest
