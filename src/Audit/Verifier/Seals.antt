-- ===== src/Audit/Verifier/Seals.antt =====
-- crates/qw-audit/src/verifier.rs: what a valid result of `verify_sharded` says of each checkpoint.
use quanta_watch.Prelude.{
  ℕ, ◌≡◌, Text, text_eq_iff, true, Option, none, some, List, [], ◌∷◌, All, Option-cases, inl, inr,
  arith,
}
use quanta_watch.Crypto.Primitives.{sha3_256_hex}
use quanta_watch.Audit.Chain.{next_u64}
use quanta_watch.Audit.Checkpoint
use quanta_watch.Audit.Checkpoint.{AuditCheckpoint, WriterTip, merkle_root_of}
use quanta_watch.Audit.Verifier.Result.{VerificationResult, checked}
use quanta_watch.Audit.Verifier.Groups.{TipIndex, tip_get}
use quanta_watch.Audit.Verifier.{
  Keys, decode_and_verify, checkpoint_hash_check, merkle_check, checkpoint_sequence_check,
  checkpoint_link_check, checkpoint_signature_check, tip_check, check_tips, check_checkpoint,
  check_checkpoints,
}

-- The hash, the Merkle root over the tips, and the signature are those of the checkpoint's content.
pub record IsSealed (k : Keys) (cp : AuditCheckpoint) : Type 0 where
  pub hash_matches :
      sha3_256_hex k.crypto (Checkpoint.content_bytes k.json_checkpoint cp) ≡ cp.content_hash
  pub root_matches : merkle_root_of k.crypto cp.tips ≡ cp.merkle_root
  pub signature_verifies : decode_and_verify k cp.content_hash cp.signature ≡ checked true

-- How a checkpoint stands to the one before it.
pub record Continues (prev_hash : Option Text) (prev_seq : Option ℕ) (cp : AuditCheckpoint)
    : Type 0 where
  pub sequence_next : (ps : ℕ) → prev_seq ≡ some ps → cp.checkpoint_seq ≡ next_u64 ps
  pub linked : (ph : Text) → prev_hash ≡ some ph → cp.prev_checkpoint_hash ≡ ph

-- The log still has the entry that the tip names.
abbrev pub IsPresent : TipIndex → WriterTip → Type 0
IsPresent tips tip = tip_get tips tip.writer_id tip.seq ≡ some tip.content_hash

module _ (k : Keys) where
  abbrev pub IsSealedChain : TipIndex → Option Text → Option ℕ → List AuditCheckpoint → Type 0
  IsSealedChain tips prev_hash prev_seq [] = Unit
  IsSealedChain tips prev_hash prev_seq (cp ∷ rest) =
      (IsSealed k cp × Continues prev_hash prev_seq cp × All (IsPresent tips) cp.tips)
      × IsSealedChain tips (some cp.content_hash) (some cp.checkpoint_seq) rest

  checkpoint_hash_check_lem :
      (cp : AuditCheckpoint) (r : VerificationResult)
      → (checkpoint_hash_check k cp r).valid ≡ true
      → (r.valid ≡ true)
        × (sha3_256_hex k.crypto (Checkpoint.content_bytes k.json_checkpoint cp) ≡ cp.content_hash)
  unfolding checkpoint_hash_check
  checkpoint_hash_check_lem cp r h = ground (
    arith,
    text_eq_iff (sha3_256_hex k.crypto (Checkpoint.content_bytes k.json_checkpoint cp))
        cp.content_hash,
  )

  merkle_check_lem :
      (cp : AuditCheckpoint) (r : VerificationResult)
      → (merkle_check k cp r).valid ≡ true
      → (r.valid ≡ true) × (merkle_root_of k.crypto cp.tips ≡ cp.merkle_root)
  unfolding merkle_check
  merkle_check_lem cp r h =
      ground (arith, text_eq_iff (merkle_root_of k.crypto cp.tips) cp.merkle_root)

  checkpoint_sequence_check_lem :
      (prev : Option ℕ) (cp : AuditCheckpoint) (r : VerificationResult)
      → (checkpoint_sequence_check k prev cp r).valid ≡ true
      → (r.valid ≡ true) × ((ps : ℕ) → prev ≡ some ps → cp.checkpoint_seq ≡ next_u64 ps)
  unfolding checkpoint_sequence_check
  checkpoint_sequence_check_lem none cp r h = (h, λ ps p. cc)
  checkpoint_sequence_check_lem (some qs) cp r h = (ground arith, λ ps p. ground arith)

  checkpoint_link_check_lem :
      (prev : Option Text) (cp : AuditCheckpoint) (r : VerificationResult)
      → (checkpoint_link_check k prev cp r).valid ≡ true
      → (r.valid ≡ true) × ((ph : Text) → prev ≡ some ph → cp.prev_checkpoint_hash ≡ ph)
  unfolding checkpoint_link_check
  checkpoint_link_check_lem none cp r h = (h, λ ph p. cc)
  checkpoint_link_check_lem (some qh) cp r h =
      (ground arith, λ ph p. ground (arith, text_eq_iff cp.prev_checkpoint_hash qh))

  checkpoint_signature_check_lem :
      (cp : AuditCheckpoint) (r : VerificationResult)
      → (checkpoint_signature_check k cp r).valid ≡ true
      → (r.valid ≡ true) × (decode_and_verify k cp.content_hash cp.signature ≡ checked true)
  unfolding checkpoint_signature_check
  checkpoint_signature_check_lem cp r h = ground arith

  tip_check_lem :
      (tips : TipIndex) (seq : ℕ) (tip : WriterTip) (r : VerificationResult)
      → (tip_check k tips seq tip r).valid ≡ true
      → (r.valid ≡ true) × IsPresent tips tip
  unfolding tip_check
  tip_check_lem tips seq tip r h = elim (Option-cases (tip_get tips tip.writer_id tip.seq)) [
    | inl e ↦ ground arith
    | inr (g, e) ↦ ground (arith, text_eq_iff g tip.content_hash)
  ]

  check_tips_sound :
      (tips : TipIndex) (seq : ℕ) (committed : List WriterTip) (r : VerificationResult)
      → (check_tips k tips seq committed r).valid ≡ true
      → (r.valid ≡ true) × All (IsPresent tips) committed
  unfolding check_tips
  check_tips_sound tips seq [] r h = (h, tt)
  check_tips_sound tips seq (tip ∷ committed) r h =
      let (v, rest) = check_tips_sound tips seq committed (tip_check k tips seq tip r) h in
      let (w, here) = tip_check_lem tips seq tip r v in (w, (here, rest))

  check_checkpoint_sound :
      (tips : TipIndex) (prev_hash : Option Text) (prev_seq : Option ℕ) (cp : AuditCheckpoint)
      (r : VerificationResult)
      → (check_checkpoint k tips prev_hash prev_seq cp r).valid ≡ true
      → (r.valid ≡ true)
        × IsSealed k cp
        × Continues prev_hash prev_seq cp
        × All (IsPresent tips) cp.tips
  unfolding check_checkpoint
  check_checkpoint_sound tips prev_hash prev_seq cp r h =
      let (v₁, present) = check_tips_sound tips cp.checkpoint_seq cp.tips _ h in
      let (v₂, s) = checkpoint_signature_check_lem cp _ v₁ in
      let (v₃, l) = checkpoint_link_check_lem prev_hash cp _ v₂ in
      let (v₄, n) = checkpoint_sequence_check_lem prev_seq cp _ v₃ in
      let (v₅, m) = merkle_check_lem cp _ v₄ in
      let (v₆, c) = checkpoint_hash_check_lem cp _ v₅ in
      (
        v₆,
        record { hash_matches = c; root_matches = m; signature_verifies = s },
        record { sequence_next = n; linked = l },
        present,
      )

  pub check_checkpoints_sound :
      (tips : TipIndex) (cps : List AuditCheckpoint) (prev_hash : Option Text) (prev_seq : Option ℕ)
      (r : VerificationResult)
      → (check_checkpoints k tips cps prev_hash prev_seq r).valid ≡ true
      → (r.valid ≡ true) × IsSealedChain tips prev_hash prev_seq cps
  unfolding check_checkpoints
  check_checkpoints_sound tips [] prev_hash prev_seq r h = (h, tt)
  check_checkpoints_sound tips (cp ∷ cps) prev_hash prev_seq r h =
      let (v, rest) = check_checkpoints_sound tips cps _ _ _ h in
      let (w, s, c, p) = check_checkpoint_sound tips prev_hash prev_seq cp r v in
      (w, ((s, c, p), rest))
