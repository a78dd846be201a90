-- ===== src/Audit/Verifier/Entries.antt =====
-- crates/qw-audit/src/verifier.rs: what a valid result of `verify_sharded` says of each entry.
use quanta_watch.Prelude.{
  ℕ, ◌≡◌, Text, text_eq, text_eq_iff, true, Option, none, some, List, [], ◌∷◌, All, inl, inr,
  Bool-cases, sort_by, arith,
}
use quanta_watch.Crypto.Primitives.{sha3_256_hex}
use quanta_watch.Audit.Entry
use quanta_watch.Audit.Entry.{AuditEntry}
use quanta_watch.Audit.Chain.{next_u64}
use quanta_watch.Audit.Verifier.Result.{VerificationResult, checked}
use quanta_watch.Audit.Verifier.Groups.{TipIndex, by_sequence, group_by_writer}
use quanta_watch.Audit.Verifier.Grouping.{entries_of}
use quanta_watch.Audit.Verifier.{
  Keys, Pass, decode_and_verify, content_check, sequence_check, link_check, signature_check,
  check_entry, check_chain, check_writers,
}

-- The content hash is that of the content, and the signature over it verifies.
pub record IsAuthentic (k : Keys) (e : AuditEntry) : Type 0 where
  pub hash_matches : sha3_256_hex k.crypto (Entry.content_bytes k.json_entry e) ≡ e.content_hash
  pub signature_verifies : decode_and_verify k e.content_hash e.signature ≡ checked true

-- How an entry stands to the one before it in its writer's chain.
pub record Follows (prev_hash : Option Text) (prev_seq : Option ℕ) (e : AuditEntry) : Type 0 where
  pub sequence_next : (ps : ℕ) → prev_seq ≡ some ps → e.sequence ≡ next_u64 ps
  pub genesis : prev_seq ≡ none → e.sequence ≡ 0 → e.prev_hash ≡ []
  pub linked : (ph : Text) → prev_hash ≡ some ph → e.prev_hash ≡ ph

abbrev pub IsChained : Option Text → Option ℕ → List AuditEntry → Type 0
IsChained prev_hash prev_seq [] = Unit
IsChained prev_hash prev_seq (e ∷ chain) =
    Follows prev_hash prev_seq e × IsChained (some e.content_hash) (some e.sequence) chain

-- The entries that a log has of one writer, in the order of their sequences.
abbrev pub writer_chain : Text → List AuditEntry → List AuditEntry
writer_chain w entries = sort_by by_sequence (entries_of w (group_by_writer entries))

module _ (k : Keys) where
  content_check_lem :
      (writer : Text) (e : AuditEntry) (r : VerificationResult)
      → (content_check k writer e r).valid ≡ true
      → (r.valid ≡ true)
        × (sha3_256_hex k.crypto (Entry.content_bytes k.json_entry e) ≡ e.content_hash)
  unfolding content_check
  content_check_lem writer e r h = ground (
    arith,
    text_eq_iff (sha3_256_hex k.crypto (Entry.content_bytes k.json_entry e)) e.content_hash,
  )

  sequence_check_lem :
      (writer : Text) (prev : Option ℕ) (e : AuditEntry) (r : VerificationResult)
      → (sequence_check k writer prev e r).valid ≡ true
      → (r.valid ≡ true)
        × ((ps : ℕ) → prev ≡ some ps → e.sequence ≡ next_u64 ps)
        × (prev ≡ none → e.sequence ≡ 0 → e.prev_hash ≡ [])
  unfolding sequence_check
  sequence_check_lem writer none e r h =
      (ground arith, λ ps p. cc, λ _ z. ground (arith, text_eq_iff e.prev_hash []))
  sequence_check_lem writer (some ps) e r h = (ground arith, λ qs p. ground arith, λ p z. cc)

  link_check_lem :
      (writer : Text) (prev : Option Text) (e : AuditEntry) (r : VerificationResult)
      → (link_check k writer prev e r).valid ≡ true
      → (r.valid ≡ true) × ((ph : Text) → prev ≡ some ph → e.prev_hash ≡ ph)
  unfolding link_check
  link_check_lem writer none e r h = (h, λ ph p. cc)
  link_check_lem writer (some qh) e r h =
      (ground arith, λ ph p. ground (arith, text_eq_iff e.prev_hash qh))

  signature_check_lem :
      (writer : Text) (e : AuditEntry) (r : VerificationResult)
      → (signature_check k writer e r).valid ≡ true
      → (r.valid ≡ true) × (decode_and_verify k e.content_hash e.signature ≡ checked true)
  unfolding signature_check
  signature_check_lem writer e r h = ground arith

  check_entry_sound :
      (writer : Text) (e : AuditEntry) (p : Pass)
      → (check_entry k writer e p).result.valid ≡ true
      → (p.result.valid ≡ true) × IsAuthentic k e × Follows p.prev_hash p.prev_seq e
  unfolding check_entry
  check_entry_sound writer e p h =
      let (v₁, s) = signature_check_lem writer e _ h in
      let (v₂, l) = link_check_lem writer p.prev_hash e _ v₁ in
      let (v₃, n, g) = sequence_check_lem writer p.prev_seq e _ v₂ in
      let (v₄, c) = content_check_lem writer e _ v₃ in
      (
        v₄,
        record { hash_matches = c; signature_verifies = s },
        record { sequence_next = n; genesis = g; linked = l },
      )

  check_chain_sound :
      (writer : Text) (chain : List AuditEntry) (p : Pass)
      → (check_chain k writer chain p).result.valid ≡ true
      → (p.result.valid ≡ true) × All (IsAuthentic k) chain × IsChained p.prev_hash p.prev_seq chain
  unfolding check_chain check_entry
  check_chain_sound writer [] p h = (h, tt, tt)
  check_chain_sound writer (e ∷ chain) p h =
      let (v, a, c) = check_chain_sound writer chain (check_entry k writer e p) h in
      let (w, b, f) = check_entry_sound writer e p v in (w, (b, a), (f, c))

  -- A property of every group, of its writer and its sorted entries.
  abbrev pub AllGroups : (Text → List AuditEntry → Type 0) → List (Text × List AuditEntry) → Type 0
  AllGroups P [] = Unit
  AllGroups P ((writer, entries) ∷ groups) =
      P writer (sort_by by_sequence entries) × AllGroups P groups

  pub check_writers_sound :
      (groups : List (Text × List AuditEntry)) (tips : TipIndex) (r : VerificationResult)
      → (check_writers k groups tips r).1.valid ≡ true
      → (r.valid ≡ true)
        × AllGroups (λ _ chain. All (IsAuthentic k) chain × IsChained none none chain) groups
  unfolding check_writers
  check_writers_sound [] tips r h = (h, tt)
  check_writers_sound ((writer, entries) ∷ groups) tips r h =
      let (v, rest) = check_writers_sound groups _ _ h in
      let (w, a, c) = check_chain_sound writer (sort_by by_sequence entries) _ v in
      (w, ((a, c), rest))

  pub AllGroups-entries_of :
      (P : List AuditEntry → Type 0) (w : Text) (groups : List (Text × List AuditEntry))
      → P []
      → AllGroups (λ _. P) groups
      → P (sort_by by_sequence (entries_of w groups))
  unfolding entries_of sort_by
  AllGroups-entries_of P w [] z h = z
  AllGroups-entries_of P w ((key, entries) ∷ groups) z h = elim (Bool-cases (text_eq key w)) [
    | inl q ↦ rw q (h.0)
    | inr q ↦ rw q (AllGroups-entries_of P w groups z h.1)
  ]
