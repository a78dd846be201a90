-- ===== src/Audit/Verifier/Index.antt =====
-- crates/qw-audit/src/verifier.rs: the tip index holds only what the log's entries say.
use quanta_watch.Prelude.{
  ℕ, ◌≡◌, refl, ◌==◌, ==_iff, &&_iff, ◌&&◌, Text, text_eq, text_ltb, ◌∙◌, text_eq_iff, some, List,
  [], ◌∷◌, In, All, All-sort_by, All-append, All-of-In, All-In, Bool-cases, inl, inr, sort_by,
}
use quanta_watch.Audit.Entry.{AuditEntry}
use quanta_watch.Audit.Verifier.Result.{VerificationResult}
use quanta_watch.Audit.Verifier.Groups.{
  TipIndex, tip_get, by_sequence, push_entry, group_into, group_by_writer,
}
use quanta_watch.Audit.Verifier.Grouping.{entries_of}
use quanta_watch.Audit.Verifier.{Keys, Pass, check_entry, check_chain, check_writers}

module _ (entries : List AuditEntry) where
  -- An entry of the log, under the name of its writer.
  abbrev IsOwn : Text → AuditEntry → Type 0
  IsOwn w e = (e.writer_id ≡ w) × In e entries

  -- Some entry of the log has this writer, sequence and content hash.
  abbrev pub IsBacked : Text × ℕ × Text → Type 0
  IsBacked t =
      (e : AuditEntry) × In e entries
      × (e.writer_id ≡ t.0)
      × (e.sequence ≡ t.1)
      × (e.content_hash ≡ t.2)

  abbrev AreOwn : List (Text × List AuditEntry) → Type 0
  AreOwn [] = Unit
  AreOwn ((w, group) ∷ groups) = All (IsOwn w) group × AreOwn groups

  AreOwn-push_entry :
      (e : AuditEntry) (groups : List (Text × List AuditEntry))
      → In e entries
      → AreOwn groups
      → AreOwn (push_entry e groups)
  unfolding push_entry
  AreOwn-push_entry e [] i h = (((refl, i), tt), tt)
  AreOwn-push_entry e ((w, group) ∷ groups) i h = elim (Bool-cases (text_eq e.writer_id w)) [
    | inl q ↦
        rw q
          (All-append (IsOwn w) group (e ∷ []) h.0 (((text_eq_iff e.writer_id w).0 q, i), tt), h.1)
    | inr q ↦ elim (Bool-cases (text_ltb e.writer_id w)) [
      | inl l ↦ rw q (rw l (((refl, i), tt), h))
      | inr l ↦ rw q (rw l (h.0, AreOwn-push_entry e groups i h.1))
    ]
  ]

  AreOwn-group_into :
      (l : List AuditEntry) (groups : List (Text × List AuditEntry))
      → All (λ e. In e entries) l
      → AreOwn groups
      → AreOwn (group_into l groups)
  unfolding group_into
  AreOwn-group_into [] groups i h = h
  AreOwn-group_into (e ∷ l) groups i h =
      AreOwn-group_into l (push_entry e groups) i.1 (AreOwn-push_entry e groups i.0 h)

  All-entries_of :
      (w : Text) (groups : List (Text × List AuditEntry))
      → AreOwn groups
      → All (λ e. In e entries) (entries_of w groups)
  unfolding entries_of
  All-entries_of w [] h = tt
  All-entries_of w ((v, group) ∷ groups) h = elim (Bool-cases (text_eq v w)) [
    | inl q ↦ rw q (All-of-In _ group (λ x i. (All-In (IsOwn v) x group h.0 i).1))
    | inr q ↦ rw q (All-entries_of w groups h.1)
  ]

  -- A writer's chain has entries of the log only.
  pub All-writer_chain :
      (w : Text)
      → All (λ e. In e entries) (sort_by by_sequence (entries_of w (group_by_writer entries)))
  unfolding group_by_writer
  All-writer_chain w =
      All-sort_by by_sequence (λ e. In e entries) _
        (All-entries_of w (group_into entries [])
          (AreOwn-group_into entries [] (All-of-In _ entries (λ e i. i)) tt))

  module _ (k : Keys) where
    check_chain-IsBacked :
        (w : Text) (chain : List AuditEntry) (p : Pass)
        → All (IsOwn w) chain
        → All IsBacked p.tip_index
        → All IsBacked (check_chain k w chain p).tip_index
    unfolding check_chain check_entry
    check_chain-IsBacked w [] p i h = h
    check_chain-IsBacked w (e ∷ chain) p i h =
        check_chain-IsBacked w chain (check_entry k w e p) i.1 ((e, i.0.1, i.0.0, refl, refl), h)

    check_writers-IsBacked :
        (groups : List (Text × List AuditEntry)) (tips : TipIndex) (r : VerificationResult)
        → AreOwn groups
        → All IsBacked tips
        → All IsBacked (check_writers k groups tips r).0
    unfolding check_writers
    check_writers-IsBacked [] tips r i h = h
    check_writers-IsBacked ((w, group) ∷ groups) tips r i h =
        check_writers-IsBacked groups _ _ i.1 (
          check_chain-IsBacked w (sort_by by_sequence group) _
            (All-sort_by by_sequence (IsOwn w) group i.0) h)

    -- What `verify_sharded` looks up in its index is an entry of the log.
    pub tip_index-IsBacked :
        (r : VerificationResult) → All IsBacked (check_writers k (group_by_writer entries) [] r).0
    unfolding group_by_writer
    tip_index-IsBacked r =
        check_writers-IsBacked (group_into entries []) [] r
          (AreOwn-group_into entries [] (All-of-In _ entries (λ e i. i)) tt) tt

  pub tip_get-IsBacked :
      (tips : TipIndex) (w : Text) (seq : ℕ) (h : Text)
      → All IsBacked tips
      → tip_get tips w seq ≡ some h
      → IsBacked (w, seq, h)
  unfolding tip_get
  tip_get-IsBacked [] w seq h b e = cc
  tip_get-IsBacked ((v, s, g) ∷ tips) w seq h b e = elim (Bool-cases (text_eq v w && (s == seq))) [
    | inl q ↦
        let (found, own, fw, fs, fh) = b.0 in
        let hit : some g ≡ some h = rw q at e in
        let (eq_w, eq_s) = (&&_iff (text_eq v w) (s == seq)).0 q in
        (found, own, fw ∙ (text_eq_iff v w).0 eq_w, fs ∙ (==_iff s seq).0 eq_s, fh ∙ the_hash hit)
    | inr q ↦ tip_get-IsBacked tips w seq h b.1 (rw q at e)
  ]
    where
      the_hash : some g ≡ some h → g ≡ h
      the_hash hit = cc
