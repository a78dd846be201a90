-- ===== src/Audit/Entry.antt =====
-- crates/qw-audit/src/entry.rs. A timestamp is its nanoseconds since the epoch; the `f64` of a posture
-- score is its bit pattern, since no code of the audit log computes with it.
use quanta_watch.Prelude.{ℕ, Text, Bool, Option, none, some, [], List}

pub data AuditEvent : Type 0 where
  session_created : (agent_name provider model client_ip : Text) → AuditEvent
  request_processed :
      (provider model prompt_hash response_hash policy_decision : Text)
      (tools_requested tools_allowed tools_denied : List Text) (threats_detected latency_ms : ℕ)
      → AuditEvent
  threat_blocked : (category severity pattern' : Text) → AuditEvent
  policy_violation : (rule reason agent_name : Text) → AuditEvent
  session_closed : (total_requests total_tokens : ℕ) → AuditEvent
  scan_completed :
      (scan_id scanner_id target : Text) (finding_count : ℕ) (status : Text) → AuditEvent
  finding_created : (finding_id category severity pqc_status asset : Text) → AuditEvent
  posture_changed : (previous_score new_score : ℕ) (trigger : Text) → AuditEvent
  integration_sync : (integration_id action detail : Text) → AuditEvent
  login_succeeded : (principal auth_method client_ip : Text) → AuditEvent
  login_failed : (username client_ip : Text) → AuditEvent
  logout : (principal : Text) → AuditEvent
  access_denied : (principal method path required_permission : Text) → AuditEvent
  admin_action : (principal method path permission : Text) → AuditEvent
  crypto_policy_enforced : (provider agent action channel_status required : Text) → AuditEvent
  agility_policy_enforced : (policy_id severity resource action outcome : Text) → AuditEvent
  overlay_route_protected : (route_id listen upstream mode : Text) → AuditEvent
  certificate_issued :
      (cert_id subject key_type serial not_after : Text) (renewed : Bool) → AuditEvent
  certificate_revoked : (cert_id subject reason : Text) → AuditEvent

pub record AuditEntry : Type 0 where
  pub id : Text
  pub timestamp : ℕ
  pub writer_id : Text
  pub sequence : ℕ
  pub session_id : Text
  pub event : AuditEvent
  pub prev_hash : Text
  pub content_hash : Text
  pub signature : Text
  pub merkle_root : Option Text

-- The object that `content_bytes` serialises: all but the hash, the signature and the Merkle root.
pub record EntryContent : Type 0 where
  pub id : Text
  pub timestamp : ℕ
  pub writer_id : Text
  pub sequence : ℕ
  pub session_id : Text
  pub event : AuditEvent
  pub prev_hash : Text

unfoldable pub content_of : AuditEntry → EntryContent
content_of e = record {
  id = e.id;
  timestamp = e.timestamp;
  writer_id = e.writer_id;
  sequence = e.sequence;
  session_id = e.session_id;
  event = e.event;
  prev_hash = e.prev_hash;
}

-- `json` is `serde_json::to_vec` on such an object, `none` an error (`unwrap_or_default`).
unfoldable pub content_bytes : (EntryContent → Option Text) → AuditEntry → Text
unfolding content_of
content_bytes json e = elim (json (content_of e)) [ none ↦ [] | some bytes ↦ bytes ]

-- `AuditEntry::new`; the fresh id and the clock's reading are arguments.
unfoldable pub new : Text → ℕ → Text → ℕ → Text → AuditEvent → Text → AuditEntry
new id timestamp writer_id sequence session_id event prev_hash = record {
  id = id;
  timestamp = timestamp;
  writer_id = writer_id;
  sequence = sequence;
  session_id = session_id;
  event = event;
  prev_hash = prev_hash;
  content_hash = [];
  signature = [];
  merkle_root = none;
}
