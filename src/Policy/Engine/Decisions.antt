-- ===== src/Policy/Engine/Decisions.antt =====
-- `PolicyEngine::evaluate` of crates/qw-policy/src/engine.rs: when a request is allowed, and with
-- which tools.
use mathlib.Core.List.{append-nil, append_assoc}
use quanta_watch.Prelude.{
  ◌≡◌, ◌∙◌, Text, Bool, true, false, not, ◌&&◌, ◌||◌, Bool-cases, some, List, [], ◌∷◌, ◌++◌, keep,
  In, ◌⊎◌, inl, inr, arith,
}
use quanta_watch.Policy.Types.{
  AgentPolicy, PolicyConfig, RequestContext, PolicyDecision, is_allowed,
}
use quanta_watch.Policy.Engine.{
  is_empty, get_agent_policy, is_cloud_provider, matches_any, is_tool_allowed, partition_tools,
  is_model_allowed, evaluate_agent, evaluate,
}

-- The tools of a request that a policy lets through, and those that it does not.
abbrev pub permitted : AgentPolicy → List Text → List Text
permitted policy = keep (is_tool_allowed policy)

abbrev pub refused : AgentPolicy → List Text → List Text
refused policy = keep (λ tool. not (is_tool_allowed policy tool))

partition_tools-split :
    (policy : AgentPolicy) (tools allowed denied : List Text)
    → partition_tools policy tools allowed denied
      ≡ (allowed ++ permitted policy tools, denied ++ refused policy tools)
unfolding partition_tools
partition_tools-split policy [] allowed denied = simp append-nil
partition_tools-split policy (tool ∷ tools) allowed denied =
    elim (Bool-cases (is_tool_allowed policy tool)) [
      | inl e ↦
          rw e
            (partition_tools-split policy tools (allowed ++ tool ∷ []) denied ∙ simp append_assoc)
      | inr e ↦
          rw e
            (partition_tools-split policy tools allowed (denied ++ tool ∷ []) ∙ simp append_assoc)
    ]

abbrev IsDecided : AgentPolicy → RequestContext → PolicyDecision → Type 0
IsDecided policy ctx d =
    (is_allowed d ≡ (
      is_model_allowed policy ctx.model
      && ((is_empty (refused policy ctx.tools_requested)
            || not (is_empty (permitted policy ctx.tools_requested)))
          && not (policy.offline && is_cloud_provider ctx.provider))))
    × (is_allowed d ≡ true
        → (d.tools_allowed ≡ permitted policy ctx.tools_requested)
          × (d.tools_denied ≡ refused policy ctx.tools_requested))

evaluate_agent-decides :
    (policy : AgentPolicy) (ctx : RequestContext) → IsDecided policy ctx (evaluate_agent policy ctx)
unfolding evaluate_agent
evaluate_agent-decides policy ctx =
    rw (partition_tools-split policy ctx.tools_requested [] []) (ground arith)

evaluate-found :
    (config : PolicyConfig) (ctx : RequestContext) (policy : AgentPolicy)
    → get_agent_policy config.agents ctx.agent_name ≡ some policy
    → evaluate config ctx ≡ evaluate_agent policy ctx
unfolding evaluate
evaluate-found config ctx policy found = rw (found, evaluate)

-- For an agent that has a policy: the request is allowed exactly if the model is, some requested tool
-- is let through where one is refused, and an offline agent does not ask for a cloud provider; and an
-- allowed decision carries the requested tools that the policy lets through and those that it refuses,
-- each in the order of the request.
pub evaluate-decides :
    (config : PolicyConfig) (ctx : RequestContext) (policy : AgentPolicy)
    → get_agent_policy config.agents ctx.agent_name ≡ some policy
    → (is_allowed (evaluate config ctx) ≡ (
        is_model_allowed policy ctx.model
        && ((is_empty (refused policy ctx.tools_requested)
              || not (is_empty (permitted policy ctx.tools_requested)))
            && not (policy.offline && is_cloud_provider ctx.provider))))
      × (is_allowed (evaluate config ctx) ≡ true
          → ((evaluate config ctx).tools_allowed ≡ permitted policy ctx.tools_requested)
            × ((evaluate config ctx).tools_denied ≡ refused policy ctx.tools_requested))
evaluate-decides config ctx policy found =
    rw (evaluate-found config ctx policy found) (evaluate_agent-decides policy ctx)

In-keep : (p : Text → Bool) (t : Text) (l : List Text) → In t (keep p l) → In t l × (p t ≡ true)
In-keep p t [] i = elim i [ ]
In-keep p t (x ∷ l) i = elim (Bool-cases (p x)) [
  | inl e ↦ elim (kept e) [
    | inl q ↦ (inl q, rw q e)
    | inr j ↦ let (k, f) = In-keep p t l j in (inr k, f)
  ]
  | inr e ↦ let (k, f) = In-keep p t l (rw e at i) in (inr k, f)
]
  where
    kept : p x ≡ true → (t ≡ x) ⊎ In t (keep p l)
    kept e = rw e at i

-- A tool on an allowed decision's list was requested, matches no blocked pattern, and matches an
-- allowed pattern where the policy has any.
pub evaluate-tools_allowed :
    (config : PolicyConfig) (ctx : RequestContext) (policy : AgentPolicy) (tool : Text)
    → get_agent_policy config.agents ctx.agent_name ≡ some policy
    → is_allowed (evaluate config ctx) ≡ true
    → In tool (evaluate config ctx).tools_allowed
    → In tool ctx.tools_requested
      × (matches_any policy.blocked_tools tool ≡ false)
      × ((policy.allowed_tools ≡ []) ⊎ (matches_any policy.allowed_tools tool ≡ true))
unfolding is_tool_allowed
evaluate-tools_allowed config ctx policy tool found ok i =
    let e = ((evaluate-decides config ctx policy found).1 ok).0 in
    let (j, p) = In-keep (is_tool_allowed policy) tool ctx.tools_requested (rw e at i) in
    (j, ground arith, ground arith)
