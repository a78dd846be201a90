-- ===== src/Policy/Engine.antt =====
-- `PolicyEngine` of crates/qw-policy/src/engine.rs.
pub mod Decisions
use quanta_watch.Prelude.{
  Text, codes, text_eq, has_item, any, Bool, true, false, not, ◌&&◌, ◌||◌, Option, none, some, List,
  [], ◌∷◌, ◌++◌, map, if◌then◌else◌,
}
use quanta_watch.Policy.Types.{
  DefaultEffect, AgentPolicy, PolicyConfig, RequestContext, Effect, PolicyDecision, Reason,
  default_allow, no_policy_defined, model_not_allowed, all_tools_denied, offline_only,
  some_tools_denied, all_checks_passed, decide_allow, decide_deny,
}
use quanta_watch.Policy.Glob.{matches_glob}

abbrev pub is_empty {ℓ} : {A : Type ℓ} → List A → Bool
is_empty [] = true
is_empty (_ ∷ _) = false

-- `agents.get(name)`
unfoldable pub get_agent_policy : List (Text × AgentPolicy) → Text → Option AgentPolicy
unfolding text_eq
get_agent_policy [] name = none
get_agent_policy ((key, policy) ∷ agents) name =
    if text_eq key name then some policy else get_agent_policy agents name

-- `agent_names`
unfoldable pub agent_names : PolicyConfig → List Text
agent_names config = map (λ entry. entry.0) config.agents

unfoldable pub is_cloud_provider : Text → Bool
unfolding has_item
is_cloud_provider = has_item (
    codes "anthropic"
    ∷ codes "openai"
    ∷ codes "bedrock"
    ∷ codes "gemini"
    ∷ codes "deepseek-cloud"
    ∷ [])

abbrev pub matches_any : List Text → Text → Bool
matches_any patterns value = any (λ p. matches_glob p value) patterns

-- Whether the loop over the requested tools puts this one on the allowed list.
unfoldable pub is_tool_allowed : AgentPolicy → Text → Bool
is_tool_allowed policy tool =
    if matches_any policy.blocked_tools tool
    then false
    else is_empty policy.allowed_tools || matches_any policy.allowed_tools tool

-- The loop over the requested tools: `(tools_allowed, tools_denied)`.
unfoldable pub partition_tools :
    AgentPolicy → List Text → List Text → List Text → List Text × List Text
unfolding is_tool_allowed
partition_tools policy [] allowed denied = (allowed, denied)
partition_tools policy (tool ∷ tools) allowed denied =
    let ok = is_tool_allowed policy tool in
    partition_tools policy tools (if ok then allowed ++ tool ∷ [] else allowed)
      (if ok then denied else denied ++ tool ∷ [])

abbrev pub is_model_allowed : AgentPolicy → Text → Bool
is_model_allowed policy model =
    is_empty policy.allowed_models || matches_any policy.allowed_models model

-- `evaluate` after the look-up of the agent's policy.
unfoldable pub evaluate_agent : AgentPolicy → RequestContext → PolicyDecision
evaluate_agent policy ctx =
    if not (is_model_allowed policy ctx.model)
    then decide_deny (model_not_allowed ctx.model ctx.agent_name)
    else let (allowed, denied) = partition_tools policy ctx.tools_requested [] [] in
      if not (is_empty denied) && is_empty allowed
      then record {
        effect = Effect.deny;
        reason = all_tools_denied ctx.agent_name;
        tools_allowed = allowed;
        tools_denied = denied;
      }
      else if policy.offline && is_cloud_provider ctx.provider
      then decide_deny (offline_only ctx.agent_name ctx.provider)
      else if not (is_empty denied)
      then record {
        effect = Effect.allow;
        reason = some_tools_denied ctx.agent_name;
        tools_allowed = allowed;
        tools_denied = denied;
      }
      else record {
        effect = Effect.allow;
        reason = all_checks_passed ctx.agent_name;
        tools_allowed = allowed;
        tools_denied = denied;
      }

unfoldable pub evaluate : PolicyConfig → RequestContext → PolicyDecision
unfolding get_agent_policy evaluate_agent partition_tools is_cloud_provider
evaluate config ctx = elim (get_agent_policy config.agents ctx.agent_name) [
  | some policy ↦ evaluate_agent policy ctx
  | none ↦ elim config.default_effect [
    | DefaultEffect.allow ↦ decide_allow default_allow
    | DefaultEffect.deny ↦ decide_deny (no_policy_defined ctx.agent_name)
  ]
]
