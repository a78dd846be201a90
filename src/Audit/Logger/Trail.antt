-- ===== src/Audit/Logger/Trail.antt =====
-- crates/qw-audit/src/logger.rs: the entries that a replica appends, over any number of restarts, are
-- an authentic chain.
use mathlib.Core.Path.{subst}
use quanta_watch.Prelude.{
  ℕ, ◌+◌, ◌^◌, ◌<◌, ◌≤◌, ◌≡◌, inl, inr, refl, sym, ap, ◌∙◌, Text, Option, Option-cases, none, some,
  List, [], ◌∷◌, ◌++◌, All, length, arith, leb, Bool-cases,
}
use quanta_watch.Crypto.Primitives.{IsSound}
use quanta_watch.Audit.Entry
use quanta_watch.Audit.Entry.{AuditEvent, AuditEntry}
use quanta_watch.Audit.Chain.{AuditChain, advance, next_u64}
use quanta_watch.Audit.Verifier.Acceptance.{IsOwn}
use quanta_watch.Audit.Verifier.{Keys, decode_and_verify}
use quanta_watch.Audit.Verifier.Entries.{IsAuthentic, IsChained}
use quanta_watch.Audit.Logger.{
  AuditBackend, LogCommand, log, checkpoint, flush, shutdown, Writer, resumed, hashed, write_entry,
  commit, log_event, receive, writer_task, restarts,
}
use quanta_watch.Audit.Logger.Tips.{
  IsLawful, tip_hash, tip_seq, Continues, start, commands_of, end_tip, IsChained-append,
  end_tip-append, All-join, Continues-start, Follows-tip,
}

module _ {S : Type 0} (backend : AuditBackend S) (k : Keys) (batch : ℕ) (writer_id : Text)
    (lawful : IsLawful backend) (sound : IsSound k.crypto k.public_key) where
  advance-moves :
      (hash : Text) (chain : AuditChain)
      → ((advance k.crypto hash chain).0.last_hash ≡ hash)
        × ((advance k.crypto hash chain).0.sequence ≡ next_u64 chain.sequence)
  unfolding advance
  advance-moves hash chain =
      elim (Bool-cases
        (leb chain.batch_size (length (chain.batch_buffer ++ k.crypto.sha3_256 hash ∷ [])))) [
          | inl e ↦ rw e (refl, refl)
          | inr e ↦ rw e (refl, refl)
        ]

  signed-IsAuthentic :
      (chain : AuditChain) (id : Text) (timestamp : ℕ) (session_id : Text) (event : AuditEvent)
      (sig : Text) (root : Option Text)
      → let entry = hashed backend k batch writer_id chain id timestamp session_id event in
        k.crypto.sign entry.content_hash ≡ some sig
        → IsAuthentic k
            (record entry { signature = k.crypto.base64_encode sig; merkle_root = root })
  unfolding hashed decode_and_verify Entry.content_bytes
  signed-IsAuthentic chain id timestamp session_id event sig root h = record {
    hash_matches = refl;
    signature_verifies =
        rw (sound.decode_encode sig, decode_and_verify) (rw (sound.verify_sign _ sig h) refl);
  }

  -- Where a writer stands that has appended its entries after the tip `t`.
  record Stands (t : Option (ℕ × Text)) (w : Writer backend k batch writer_id) : Type 0 where
    pub chained : IsChained (tip_hash t) (tip_seq t) w.appended
    pub authentic : All (IsAuthentic k) w.appended
    pub own : All (IsOwn writer_id) w.appended
    pub tip : backend.writer_tip writer_id w.store ≡ end_tip t w.appended
    pub continues : Continues (end_tip t w.appended) w.chain

  appended_tip :
      (now : Option (ℕ × Text)) (e : AuditEntry) (store : S)
      → e.writer_id ≡ writer_id
      → backend.writer_tip writer_id store ≡ now
      → e.sequence ≡ start now
      → backend.writer_tip writer_id (backend.append_entry e store)
        ≡ some (e.sequence, e.content_hash)
  appended_tip none e store own h s =
      subst
        (λ v.
          backend.writer_tip v (backend.append_entry e store) ≡ some (e.sequence, e.content_hash))
        own (lawful.tip-first e store (ap (λ v. backend.writer_tip v store) own ∙ h))
  appended_tip (some (seq, hash)) e store own h s =
      subst
        (λ v.
          backend.writer_tip v (backend.append_entry e store) ≡ some (e.sequence, e.content_hash))
        own
        (lawful.tip-next e store seq hash (ap (λ v. backend.writer_tip v store) own ∙ h)
          (omega arith))

  commit-Stands :
      (t : Option (ℕ × Text)) (w : Writer backend k batch writer_id) (timestamp : ℕ)
      → Stands t w
      → Stands t (commit backend k batch writer_id timestamp w)
  unfolding commit
  commit-Stands t w timestamp st = record {
    chained = st.chained;
    authentic = st.authentic;
    own = st.own;
    tip = lawful.tip-commit _ writer_id w.store ∙ st.tip;
    continues = st.continues;
  }

  commit-sequence :
      (w : Writer backend k batch writer_id) (timestamp : ℕ)
      → (commit backend k batch writer_id timestamp w).chain.sequence ≡ w.chain.sequence
  unfolding commit
  commit-sequence w timestamp = refl

  written-Stands :
      (t : Option (ℕ × Text)) (w : Writer backend k batch writer_id) (id : Text) (timestamp : ℕ)
      (session_id : Text) (event : AuditEvent) (sig : Text)
      → Stands t w
      → w.chain.sequence + 1 < 2 ^ 64
      → let entry = hashed backend k batch writer_id w.chain id timestamp session_id event in
        k.crypto.sign entry.content_hash ≡ some sig
        → let w' = write_entry backend k batch writer_id w entry sig in
          Stands t w' × (w'.chain.sequence ≤ w.chain.sequence + 1)
  unfolding write_entry hashed
  written-Stands t w id timestamp session_id event sig st b h =
      let entry = hashed backend k batch writer_id w.chain id timestamp session_id event in
      let moved = advance-moves entry.content_hash w.chain in
      let root = (advance k.crypto entry.content_hash w.chain).1 in
      let signed : AuditEntry = record entry {
        signature = k.crypto.base64_encode sig;
        merkle_root = root;
      } in
      let tip = end_tip t w.appended in
      let begins = Continues-start tip w.chain st.continues in
      (
        record {
          chained =
              IsChained-append t w.appended (signed ∷ []) st.chained
                (Follows-tip tip w.chain signed st.continues refl refl, tt);
          authentic =
              All-join (IsAuthentic k) w.appended (signed ∷ []) st.authentic
                (signed-IsAuthentic w.chain id timestamp session_id event sig root h, tt);
          own = All-join (IsOwn writer_id) w.appended (signed ∷ []) st.own ((refl, b), tt);
          tip =
              appended_tip tip signed w.store refl st.tip begins
              ∙ sym (end_tip-append t w.appended signed);
          continues =
              rw (end_tip-append t w.appended signed) (moved.0, (omega (arith, moved.1, b), b));
        },
        omega (arith, moved.1, b),
      )

  log-Stands :
      (t : Option (ℕ × Text)) (w : Writer backend k batch writer_id) (id : Text) (timestamp : ℕ)
      (session_id : Text) (event : AuditEvent)
      → Stands t w
      → w.chain.sequence + 1 < 2 ^ 64
      → let w' =
          log_event backend k batch writer_id w
            (hashed backend k batch writer_id w.chain id timestamp session_id event) in
        Stands t w' × (w'.chain.sequence ≤ w.chain.sequence + 1)
  unfolding log_event
  log-Stands t w id timestamp session_id event st b =
      let entry = hashed backend k batch writer_id w.chain id timestamp session_id event in
      elim (Option-cases (k.crypto.sign entry.content_hash)) [
        | inl e ↦ rw (e, log_event) (st, omega arith)
        | inr (sig, e) ↦
            rw (e, log_event) (written-Stands t w id timestamp session_id event sig st b e)
      ]

  receive-Stands :
      (t : Option (ℕ × Text)) (commands : List LogCommand) (w : Writer backend k batch writer_id)
      → Stands t w
      → w.chain.sequence + length commands < 2 ^ 64
      → let w' = receive backend k batch writer_id w commands in
        Stands t w' × (w'.chain.sequence ≤ w.chain.sequence + length commands)
  unfolding receive
  receive-Stands t [] w st b = (st, omega arith)
  receive-Stands t (log id timestamp session_id event ∷ commands) w st b =
      let (next, grown) = log-Stands t w id timestamp session_id event st (omega arith) in
      let rest = receive-Stands t commands _ next (omega (arith, b, grown)) in
      (rest.0, omega (arith, rest.1, grown))
  receive-Stands t (checkpoint timestamp ∷ commands) w st b =
      let same = commit-sequence w timestamp in
      let rest =
        receive-Stands t commands _ (commit-Stands t w timestamp st) (omega (arith, b, same)) in
      (rest.0, omega (arith, rest.1, same))
  receive-Stands t (flush ∷ commands) w st b =
      let rest = receive-Stands t commands w st (omega arith) in (rest.0, omega (arith, rest.1))
  receive-Stands t (shutdown timestamp ∷ commands) w st b =
      (commit-Stands t w timestamp st, omega (arith, commit-sequence w timestamp))

  resumed-Continues :
      (t : Option (ℕ × Text)) (store : S)
      → backend.writer_tip writer_id store ≡ t
      → start t < 2 ^ 64
      → Continues t (resumed backend k batch writer_id store)
  unfolding resumed
  resumed-Continues none store h b = rw (h, resumed) (refl, refl)
  resumed-Continues (some (seq, hash)) store h b = rw (h, resumed) (refl, (omega arith, b))

  writer_task-Stands :
      (t : Option (ℕ × Text)) (store : S) (commands : List LogCommand)
      → backend.writer_tip writer_id store ≡ t
      → start t + length commands < 2 ^ 64
      → let w = writer_task backend k batch writer_id store commands in
        Stands t w × (start (end_tip t w.appended) ≤ start t + length commands)
  unfolding writer_task
  writer_task-Stands t store commands h b =
      let c = resumed-Continues t store h (omega arith) in
      let ran =
        receive-Stands t commands _
          (record { chained = tt; authentic = tt; own = tt; tip = h; continues = c })
          (omega (arith, b, Continues-start t _ c)) in
      (ran.0, omega (arith, ran.1, Continues-start t _ c, Continues-start _ _ ran.0.continues))

  pub IsChained-runs :
      (runs : List (List LogCommand)) (t : Option (ℕ × Text)) (store : S)
      → backend.writer_tip writer_id store ≡ t
      → start t + commands_of runs < 2 ^ 64
      → let entries = (restarts backend k batch writer_id store runs).1 in
        IsChained (tip_hash t) (tip_seq t) entries
        × (All (IsAuthentic k) entries × All (IsOwn writer_id) entries)
  unfolding restarts
  IsChained-runs [] t store h b = (tt, (tt, tt))
  IsChained-runs (commands ∷ runs) t store h b =
      let (st, grown) = writer_task-Stands t store commands h (omega arith) in
      let (chained, (authentic, own)) = IsChained-runs runs _ _ st.tip (omega (arith, b, grown)) in
      (
        IsChained-append t _ _ st.chained chained,
        (
          All-join (IsAuthentic k) _ _ st.authentic authentic,
          All-join (IsOwn writer_id) _ _ st.own own,
        ),
      )
