-- ===== src/Audit/Verifier/Soundness.antt =====
-- crates/qw-audit/src/verifier.rs: what a log that `verify_sharded` accepts is like.
use mathlib.Core.Path.{subst}
use quanta_watch.Prelude.{
  ℕ, ◌+◌, ◌^◌, ◌<◌, ◌≡◌, refl, ap, sym, ◌∙◌, Text, true, none, some, Option, List, [], ◌∷◌, In,
  In-sort_by, All, All-In, All-of-In, sort_by, inl, inr, arith,
}
use quanta_watch.Crypto.Primitives.{sha3_256_hex}
use quanta_watch.Audit.Entry
use quanta_watch.Audit.Entry.{AuditEntry}
use quanta_watch.Audit.Checkpoint.{AuditCheckpoint, WriterTip}
use quanta_watch.Audit.Verifier.Result.{checked, clean_result}
use quanta_watch.Audit.Verifier.Groups.{TipIndex, by_sequence, by_checkpoint_seq, group_by_writer}
use quanta_watch.Audit.Verifier.Grouping.{In-group_by_writer}
use quanta_watch.Audit.Verifier.Entries.{
  IsAuthentic, IsChained, AllGroups-entries_of, check_writers_sound, writer_chain,
}
use quanta_watch.Audit.Verifier.Seals.{IsSealedChain, IsPresent, check_checkpoints_sound}
use quanta_watch.Audit.Verifier.Index.{All-writer_chain, tip_index-IsBacked, tip_get-IsBacked}
use quanta_watch.Audit.Verifier.{Keys, decode_and_verify, check_writers, verify_sharded}

IsSealedChain-IsPresent :
    (k : Keys) (tips : TipIndex) (cp : AuditCheckpoint) (cps : List AuditCheckpoint)
    (prev_hash : Option Text) (prev_seq : Option ℕ)
    → IsSealedChain k tips prev_hash prev_seq cps
    → In cp cps
    → All (IsPresent tips) cp.tips
IsSealedChain-IsPresent k tips cp [] ph ps c i = elim i [ ]
IsSealedChain-IsPresent k tips cp (x ∷ cps) ph ps c (inl p) = rw p (c.0.2)
IsSealedChain-IsPresent k tips cp (x ∷ cps) ph ps c (inr i) =
    IsSealedChain-IsPresent k tips cp cps _ _ c.1 i

module _ (k : Keys) (entries : List AuditEntry) (checkpoints : List AuditCheckpoint)
    (valid : (verify_sharded k entries checkpoints).valid ≡ true) where
  checked_checkpoints :
      ((check_writers k (group_by_writer entries) [] clean_result).1.valid ≡ true)
      × IsSealedChain k
          (check_writers k (group_by_writer entries) [] clean_result).0
          none
          none
          (sort_by by_checkpoint_seq checkpoints)
  unfolding verify_sharded
  checked_checkpoints =
      check_checkpoints_sound k _ (sort_by by_checkpoint_seq checkpoints) none none _ valid

  checked_chain :
      (w : Text)
      → All (IsAuthentic k) (writer_chain w entries) × IsChained none none (writer_chain w entries)
  checked_chain w =
      AllGroups-entries_of k (λ l. All (IsAuthentic k) l × IsChained none none l) w
        (group_by_writer entries) (tt, tt)
        (check_writers_sound k (group_by_writer entries) [] clean_result checked_checkpoints.0).1

  In-writer_chain : (e : AuditEntry) → In e entries → In e (writer_chain e.writer_id entries)
  In-writer_chain e i = In-sort_by by_sequence e _ (In-group_by_writer e entries i)

-- In a log that verifies, every entry's content hash is the hash of its content, and its signature
-- over that hash verifies under the key.
pub verify_sharded-authentic :
    (k : Keys) (entries : List AuditEntry) (checkpoints : List AuditCheckpoint)
    → (verify_sharded k entries checkpoints).valid ≡ true
    → (e : AuditEntry) → In e entries
    → (sha3_256_hex k.crypto (Entry.content_bytes k.json_entry e) ≡ e.content_hash)
      × (decode_and_verify k e.content_hash e.signature ≡ checked true)
verify_sharded-authentic k entries checkpoints valid e i =
    let a =
      All-In (IsAuthentic k) e _ (checked_chain k entries checkpoints valid e.writer_id).0
        (In-writer_chain k entries checkpoints valid e i) in
    (a.hash_matches, a.signature_verifies)

-- In a log that verifies, the entry that a checkpoint has committed to as a writer's tip is still
-- there: an entry of that writer and sequence, with the committed content hash.
pub verify_sharded-keeps_tips :
    (k : Keys) (entries : List AuditEntry) (checkpoints : List AuditCheckpoint)
    → (verify_sharded k entries checkpoints).valid ≡ true
    → (cp : AuditCheckpoint) → In cp checkpoints
    → (tip : WriterTip) → In tip cp.tips
    → (e : AuditEntry) × In e entries
      × (e.writer_id ≡ tip.writer_id)
      × (e.sequence ≡ tip.seq)
      × (e.content_hash ≡ tip.content_hash)
verify_sharded-keeps_tips k entries checkpoints valid cp i tip j =
    tip_get-IsBacked entries _ tip.writer_id tip.seq tip.content_hash
      (tip_index-IsBacked entries k clean_result)
      (All-In (IsPresent _) tip cp.tips
        (IsSealedChain-IsPresent k _ cp (sort_by by_checkpoint_seq checkpoints) none none
          (checked_checkpoints k entries checkpoints valid).1
          (In-sort_by by_checkpoint_seq cp checkpoints i))
        j)

abbrev seq_of : AuditEntry → ℕ
seq_of e = e.sequence

-- The entries behind the first of a chain have greater sequences.
chain_increases :
    (x e : AuditEntry) (chain : List AuditEntry)
    → All (λ z. z.sequence + 1 < 2 ^ 64) (x ∷ chain)
    → IsChained (some x.content_hash) (some x.sequence) chain
    → In e chain
    → x.sequence < e.sequence
chain_increases x e [] b c i = elim i [ ]
chain_increases x e (y ∷ chain) b c (inl p) =
    rw p (omega (arith, c.0.sequence_next x.sequence refl, b.0))
chain_increases x e (y ∷ chain) b c (inr i) =
    omega (arith, c.0.sequence_next x.sequence refl, b.0, chain_increases y e chain b.1 c.1 i)

-- In a chain there is one entry for a sequence, and the next one names its content hash.
chain_unique :
    (prev_hash : Option Text) (prev_seq : Option ℕ) (d e : AuditEntry) (chain : List AuditEntry)
    → All (λ z. z.sequence + 1 < 2 ^ 64) chain
    → IsChained prev_hash prev_seq chain
    → In d chain
    → In e chain
    → d.sequence ≡ e.sequence
    → d ≡ e
chain_unique ph ps d e [] b c i j s = elim i [ ]
chain_unique ph ps d e (x ∷ chain) b c (inl p) (inl q) s = p ∙ sym q
chain_unique ph ps d e (x ∷ chain) b c (inl p) (inr j) s =
    absurd (omega (arith, chain_increases x e chain b c.1 j, ap seq_of p))
chain_unique ph ps d e (x ∷ chain) b c (inr i) (inl q) s =
    absurd (omega (arith, chain_increases x d chain b c.1 i, ap seq_of q))
chain_unique ph ps d e (x ∷ chain) b c (inr i) (inr j) s =
    chain_unique (some x.content_hash) (some x.sequence) d e chain b.1 c.1 i j s

chain_linked :
    (prev_hash : Option Text) (prev_seq : Option ℕ) (d e : AuditEntry) (chain : List AuditEntry)
    → All (λ z. z.sequence + 1 < 2 ^ 64) chain
    → IsChained prev_hash prev_seq chain
    → In d chain
    → In e chain
    → e.sequence ≡ d.sequence + 1
    → e.prev_hash ≡ d.content_hash
chain_linked ph ps d e [] b c i j s = elim i [ ]
chain_linked ph ps d e (x ∷ chain) b c (inl p) (inl q) s =
    absurd (omega (arith, ap seq_of p, ap seq_of q))
chain_linked ph ps d e (x ∷ []) b c (inl p) (inr j) s = elim j [ ]
chain_linked ph ps d e (x ∷ y ∷ chain) b c (inl p) (inr (inl q)) s =
    ap (λ z. z.prev_hash) q ∙ c.1.0.linked x.content_hash refl ∙ sym (ap (λ z. z.content_hash) p)
chain_linked ph ps d e (x ∷ y ∷ chain) b c (inl p) (inr (inr j)) s = absurd (
    omega (
      arith,
      ap seq_of p,
      c.1.0.sequence_next x.sequence refl,
      b.0,
      b.1.0,
      chain_increases y e chain b.1 c.1.1 j,
    ))
chain_linked ph ps d e (x ∷ chain) b c (inr i) (inl q) s =
    absurd (omega (arith, chain_increases x d chain b c.1 i, ap seq_of q))
chain_linked ph ps d e (x ∷ chain) b c (inr i) (inr j) s =
    chain_linked (some x.content_hash) (some x.sequence) d e chain b.1 c.1 i j s

-- In a log that verifies, whose sequences stay below 2 ^ 64 - 1, a writer has one entry for a
-- sequence at most, and the entry for the next sequence names the content hash of the one before it.
pub verify_sharded-chains :
    (k : Keys) (entries : List AuditEntry) (checkpoints : List AuditCheckpoint)
    → (verify_sharded k entries checkpoints).valid ≡ true
    → All (λ z. z.sequence + 1 < 2 ^ 64) entries
    → (d e : AuditEntry) → In d entries
    → In e entries
    → d.writer_id ≡ e.writer_id
    → (d.sequence ≡ e.sequence → d ≡ e)
      × (e.sequence ≡ d.sequence + 1 → e.prev_hash ≡ d.content_hash)
verify_sharded-chains k entries checkpoints valid bound d e i j w = (
  λ s. chain_unique none none d e chain small chained d_in e_in s,
  λ s. chain_linked none none d e chain small chained d_in e_in s,
)
  where
    chain : List AuditEntry
    chain = writer_chain e.writer_id entries

    small : All (λ z. z.sequence + 1 < 2 ^ 64) chain
    small =
        All-of-In (λ z. z.sequence + 1 < 2 ^ 64) chain
          λ x m.
            All-In (λ z. z.sequence + 1 < 2 ^ 64) x entries bound
              (All-In (λ z. In z entries) x chain (All-writer_chain entries e.writer_id) m)

    chained : IsChained none none chain
    chained = (checked_chain k entries checkpoints valid e.writer_id).1

    d_in : In d chain
    d_in =
        subst (λ v. In d (writer_chain v entries)) w
          (In-writer_chain k entries checkpoints valid d i)

    e_in : In e chain
    e_in = In-writer_chain k entries checkpoints valid e j
