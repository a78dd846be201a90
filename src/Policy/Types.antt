-- ===== src/Policy/Types.antt =====
-- crates/qw-policy/src/types.rs
use quanta_watch.Prelude.{ℕ, Text, Bool, true, false, Option, List, []}

pub data DefaultEffect : Type 0 where
  allow deny : DefaultEffect

pub record AgentPolicy : Type 0 where
  pub description : Text
  pub allowed_models : List Text
  pub allowed_tools : List Text
  pub blocked_tools : List Text
  pub blocked_actions : List Text
  pub data_policy : Option Text
  pub max_tokens_per_session : Option ℕ
  pub max_requests_per_minute : Option ℕ
  pub offline : Bool

-- `agents` is a `HashMap`: the list of its entries, in the order of an iteration.
pub record PolicyConfig : Type 0 where
  pub version : Text
  pub default_effect : DefaultEffect
  pub agents : List (Text × AgentPolicy)

pub record RequestContext : Type 0 where
  pub agent_name : Text
  pub session_id : Text
  pub model : Text
  pub provider : Text
  pub tools_requested : List Text
  pub client_ip : Text
  pub labels : List (Text × Text)

pub data Effect : Type 0 where
  allow deny : Effect

-- What the text of a reason is formatted from.
pub data Reason : Type 0 where
  default_allow : Reason
  no_policy_defined : (agent : Text) → Reason
  model_not_allowed : (model agent : Text) → Reason
  all_tools_denied : (agent : Text) → Reason
  offline_only : (agent provider : Text) → Reason
  some_tools_denied : (agent : Text) → Reason
  all_checks_passed : (agent : Text) → Reason

pub record PolicyDecision : Type 0 where
  pub effect : Effect
  pub reason : Reason
  pub tools_allowed : List Text
  pub tools_denied : List Text

-- `PolicyDecision::allow` and `PolicyDecision::deny`
abbrev pub decide_allow : Reason → PolicyDecision
decide_allow reason = record {
  effect = Effect.allow;
  reason = reason;
  tools_allowed = [];
  tools_denied = [];
}

abbrev pub decide_deny : Reason → PolicyDecision
decide_deny reason = record {
  effect = Effect.deny;
  reason = reason;
  tools_allowed = [];
  tools_denied = [];
}

abbrev pub is_allow : Effect → Bool
is_allow Effect.allow = true
is_allow Effect.deny = false

abbrev pub is_allowed : PolicyDecision → Bool
is_allowed d = is_allow d.effect
