-- ===== src/Audit/Verifier/Acceptance.antt =====
-- crates/qw-audit/src/verifier.rs: that a well-made chain of one writer is accepted.
use mathlib.Core.List.{append-nil, append_assoc}
use quanta_watch.Prelude.{
  ℕ, ◌+◌, ◌^◌, ◌<◌, ◌≤◌, ◌≡◌, ◌==◌, refl, ap, ◌∙◌, Text, text_eq, text_eq_iff, Bool-cases, true,
  false, Option, none, some, List, [], ◌∷◌, ◌++◌, All, insert_by, sort_into, sort_by, ltb, inl, inr,
  arith,
}
use quanta_watch.Crypto.Primitives.{sha3_256_hex}
use quanta_watch.Audit.Entry
use quanta_watch.Audit.Entry.{AuditEntry}
use quanta_watch.Audit.Chain.{next_u64}
use quanta_watch.Audit.Verifier.Result.{VerificationResult, clean_result, checked}
use quanta_watch.Audit.Verifier.Groups.{by_sequence, group_by_writer, group_into, push_entry}
use quanta_watch.Audit.Verifier.Entries.{IsAuthentic, Follows, IsChained}
use quanta_watch.Audit.Verifier.{
  Keys, Pass, decode_and_verify, content_check, sequence_check, link_check, signature_check,
  check_entry, check_chain, check_writers, check_checkpoints, verify_sharded,
}

-- An entry of the writer, with a sequence that has a next one.
abbrev pub IsOwn : Text → AuditEntry → Type 0
IsOwn writer e = (e.writer_id ≡ writer) × (e.sequence + 1 < 2 ^ 64)

group_into-own :
    (writer : Text) (entries done : List AuditEntry)
    → All (IsOwn writer) entries
    → group_into entries ((writer, done) ∷ []) ≡ (writer, done ++ entries) ∷ []
unfolding group_into push_entry
group_into-own writer [] done own = simp append-nil
group_into-own writer (e ∷ entries) done own =
    let q : text_eq e.writer_id writer ≡ true = (text_eq_iff _ _).1 own.0.0 in
    rw q (
      group_into-own writer entries (done ++ e ∷ []) own.1
      ∙ ap (λ l. (writer, l) ∷ []) (append_assoc done (e ∷ []) entries))

-- Entries in the order of their sequences, none below the first number.
abbrev pub Rises : ℕ → List AuditEntry → Type 0
Rises q [] = Unit
Rises q (e ∷ l) = (q ≤ e.sequence) × Rises e.sequence l

insert_by-last :
    (x : AuditEntry) (done : List AuditEntry)
    → All (λ e. e.sequence ≤ x.sequence) done
    → insert_by by_sequence x done ≡ done ++ x ∷ []
unfolding insert_by
insert_by-last x [] h = refl
insert_by-last x (y ∷ done) h =
    let e : ltb x.sequence y.sequence ≡ false = ground (arith, h.0) in
    rw e (ap (λ l. y ∷ l) (insert_by-last x done h.1))

All-weaken :
    (q : ℕ) (x : AuditEntry) (done : List AuditEntry)
    → q ≤ x.sequence
    → All (λ e. e.sequence ≤ q) done
    → All (λ e. e.sequence ≤ x.sequence) done
All-weaken q x [] h a = tt
All-weaken q x (y ∷ done) h a = (omega (arith, a.0), All-weaken q x done h a.1)

All-raise :
    (q : ℕ) (x : AuditEntry) (done : List AuditEntry)
    → q ≤ x.sequence
    → All (λ e. e.sequence ≤ q) done
    → All (λ e. e.sequence ≤ x.sequence) (done ++ x ∷ [])
All-raise q x [] h a = (omega arith, tt)
All-raise q x (y ∷ done) h a = (omega (arith, a.0), All-raise q x done h a.1)

sort_into-Rises :
    (q : ℕ) (l done : List AuditEntry)
    → All (λ e. e.sequence ≤ q) done
    → Rises q l
    → sort_into by_sequence l done ≡ done ++ l
unfolding sort_into
sort_into-Rises q [] done a r = simp append-nil
sort_into-Rises q (x ∷ l) done a r = rw (insert_by-last x done (All-weaken q x done r.0 a)) (
    sort_into-Rises x.sequence l (done ++ x ∷ []) (All-raise q x done r.0 a) r.1
    ∙ append_assoc done (x ∷ []) l)

IsChained-Rises :
    (writer : Text) (hash : Text) (seq : ℕ) (l : List AuditEntry)
    → seq + 1 < 2 ^ 64
    → All (IsOwn writer) l
    → IsChained (some hash) (some seq) l
    → Rises seq l
IsChained-Rises writer hash seq [] b own c = tt
IsChained-Rises writer hash seq (e ∷ l) b own c = (
  omega (arith, c.0.sequence_next seq refl, b),
  IsChained-Rises writer e.content_hash e.sequence l own.0.1 own.1 c.1,
)

group_by_writer-first :
    (e : AuditEntry) (l : List AuditEntry)
    → group_by_writer (e ∷ l) ≡ group_into l ((e.writer_id, e ∷ []) ∷ [])
unfolding group_by_writer group_into push_entry
group_by_writer-first e l = refl

sort_by-first :
    (e : AuditEntry) (l : List AuditEntry)
    → sort_by by_sequence (e ∷ l) ≡ sort_into by_sequence l (e ∷ [])
unfolding sort_by sort_into insert_by
sort_by-first e l = refl

module _ (k : Keys) where
  content_check-same :
      (writer : Text) (e : AuditEntry) (r : VerificationResult)
      → sha3_256_hex k.crypto (Entry.content_bytes k.json_entry e) ≡ e.content_hash
      → content_check k writer e r ≡ r
  unfolding content_check
  content_check-same writer e r h = let q = (text_eq_iff _ _).1 h in rw q refl

  sequence_check-same :
      (writer : Text) (ph : Option Text) (ps : Option ℕ) (e : AuditEntry) (r : VerificationResult)
      → Follows ph ps e
      → sequence_check k writer ps e r ≡ r
  unfolding sequence_check
  sequence_check-same writer ph none e r f = elim (Bool-cases (e.sequence == 0)) [
    | inl z ↦ rw z (rw ((text_eq_iff e.prev_hash []).1 (f.genesis refl (ground arith))) refl)
    | inr z ↦ rw z refl
  ]
  sequence_check-same writer ph (some ps) e r f =
      let q : (e.sequence == next_u64 ps) ≡ true = ground (arith, f.sequence_next ps refl) in
      rw q refl

  link_check-same :
      (writer : Text) (ph : Option Text) (ps : Option ℕ) (e : AuditEntry) (r : VerificationResult)
      → Follows ph ps e
      → link_check k writer ph e r ≡ r
  unfolding link_check
  link_check-same writer none ps e r f = refl
  link_check-same writer (some ph) ps e r f =
      rw ((text_eq_iff e.prev_hash ph).1 (f.linked ph refl)) refl

  signature_check-valid :
      (writer : Text) (e : AuditEntry) (r : VerificationResult)
      → decode_and_verify k e.content_hash e.signature ≡ checked true
      → (signature_check k writer e r).valid ≡ r.valid
  unfolding signature_check
  signature_check-valid writer e r h = rw (h, signature_check) refl

  check_entry-valid :
      (writer : Text) (e : AuditEntry) (p : Pass)
      → Follows p.prev_hash p.prev_seq e
      → IsAuthentic k e
      → (check_entry k writer e p).result.valid ≡ p.result.valid
  unfolding check_entry
  check_entry-valid writer e p f a =
      signature_check-valid writer e _ a.signature_verifies
      ∙ ap (λ r. r.valid)
          (link_check-same writer p.prev_hash p.prev_seq e _ f
            ∙ (sequence_check-same writer p.prev_hash p.prev_seq e _ f
                ∙ content_check-same writer e _ a.hash_matches))

  check_chain-valid :
      (writer : Text) (l : List AuditEntry) (p : Pass)
      → IsChained p.prev_hash p.prev_seq l
      → All (IsAuthentic k) l
      → (check_chain k writer l p).result.valid ≡ p.result.valid
  unfolding check_chain check_entry
  check_chain-valid writer [] p c a = refl
  check_chain-valid writer (e ∷ l) p c a =
      check_chain-valid writer l (check_entry k writer e p) c.1 a.1
      ∙ check_entry-valid writer e p c.0 a.0

  check_writers-one :
      (writer : Text) (entries sorted : List AuditEntry)
      → sort_by by_sequence entries ≡ sorted
      → IsChained none none sorted
      → All (IsAuthentic k) sorted
      → (check_writers k ((writer, entries) ∷ []) [] clean_result).1.valid ≡ true
  unfolding check_writers
  check_writers-one writer entries sorted s c a = rw s (check_chain-valid writer sorted _ c a)

  verify_sharded-group :
      (writer : Text) (entries group : List AuditEntry)
      → group_by_writer entries ≡ (writer, group) ∷ []
      → (verify_sharded k entries []).valid
        ≡ (check_writers k ((writer, group) ∷ []) [] clean_result).1.valid
  unfolding verify_sharded check_checkpoints sort_by sort_into
  verify_sharded-group writer entries group g = rw g refl

  verify_sharded-empty : (verify_sharded k [] []).valid ≡ true
  unfolding verify_sharded check_checkpoints check_writers group_by_writer group_into sort_by
      sort_into
  verify_sharded-empty = refl

  -- Entries of one writer that are authentic and chained from a genesis, with sequences below
  -- 2 ^ 64 - 1, are accepted.
  pub verify_sharded-accepts :
      (writer : Text) (entries : List AuditEntry)
      → All (IsOwn writer) entries
      → IsChained none none entries
      → All (IsAuthentic k) entries
      → (verify_sharded k entries []).valid ≡ true
  verify_sharded-accepts writer [] own c a = verify_sharded-empty
  verify_sharded-accepts writer (e ∷ l) own c a =
      let grouped =
        group_by_writer-first e l
        ∙ ap (λ v. group_into l ((v, e ∷ []) ∷ [])) own.0.0
        ∙ group_into-own writer l (e ∷ []) own.1 in
      let rises = IsChained-Rises writer e.content_hash e.sequence l own.0.1 own.1 c.1 in
      let sorted =
        sort_by-first e l ∙ sort_into-Rises e.sequence l (e ∷ []) (omega arith, tt) rises in
      verify_sharded-group writer (e ∷ l) (e ∷ l) grouped
      ∙ check_writers-one writer (e ∷ l) (e ∷ l) sorted c a
