-- ===== src/Policy/Loader/Validity.antt =====
-- crates/qw-policy/src/yaml_parser.rs: what a policy that loads is like.
use mathlib.Core.Path.{subst}
use quanta_watch.Prelude.{
  ◌≡◌, ◌↔◌, refl, sym, ◌∙◌, Text, codes, text_eq, text_eq_iff, has_item, true, false, not, ◌&&◌,
  Bool-cases, Option, none, some, Option-cases, List, [], ◌∷◌, All, All-In, &&_iff, In, ◌⊎◌, inl,
  inr, ◌≢◌, arith,
}
use quanta_watch.Policy.Types.{AgentPolicy, PolicyConfig}
use quanta_watch.Policy.Loader.{
  ok, err, allowed_and_blocked, yaml_parse, io, invalid_condition, PolicyError, conflict,
  validate_policy, parse_policy,
}

-- No tool of an agent is both allowed and blocked, but for the star.
abbrev pub IsConsistent : AgentPolicy → Type 0
IsConsistent agent =
    (tool : Text)
    → In tool agent.allowed_tools
    → tool ≢ codes "*"
    → has_item agent.blocked_tools tool ≡ false

conflict-none :
    (agent : AgentPolicy) (tools : List Text)
    → conflict agent tools ≡ none
    → (tool : Text) → In tool tools
    → tool ≢ codes "*"
    → has_item agent.blocked_tools tool ≡ false
unfolding conflict
conflict-none agent [] h tool i n = elim i [ ]
conflict-none agent (x ∷ tools) h tool (inl p) n =
    rw p (ground (arith, text_eq_iff x (codes "*"), not_star))
  where
    not_star : x ≢ codes "*"
    not_star e = n (p ∙ e)
conflict-none agent (x ∷ tools) h tool (inr i) n = conflict-none agent tools (ground arith) tool i n

conflict-some :
    (agent : AgentPolicy) (tools : List Text) (tool : Text)
    → conflict agent tools ≡ some tool
    → In tool tools × (tool ≢ codes "*") × (has_item agent.blocked_tools tool ≡ true)
unfolding conflict
conflict-some agent [] tool h = cc
conflict-some agent (x ∷ tools) tool h =
    elim (Bool-cases (has_item agent.blocked_tools x && not (text_eq x (codes "*")))) [
      | inl e ↦
          let same : some x ≡ some tool = rw e at h in
          let (b, n) =
            (&&_iff (has_item agent.blocked_tools x) (not (text_eq x (codes "*")))).0 e in
          (
            inl (cc),
            λ q. star_no n (hit same ∙ q),
            subst (λ z. has_item agent.blocked_tools z ≡ true) (hit same) b,
          )
      | inr e ↦ let (i, n, b) = conflict-some agent tools tool (rw e at h) in (inr i, n, b)
    ]
  where
    hit : some x ≡ some tool → x ≡ tool
    hit same = cc

    star_no : not (text_eq x (codes "*")) ≡ true → x ≡ codes "*" → ⊥
    star_no n q = ground (arith, text_eq_iff x (codes "*"))

validate_policy-none :
    (agents : List (Text × AgentPolicy))
    → validate_policy agents ≡ none
    → All (λ entry. IsConsistent entry.1) agents
unfolding validate_policy
validate_policy-none [] h = tt
validate_policy-none ((name, agent) ∷ agents) h =
    elim (Option-cases (conflict agent agent.allowed_tools)) [
      | inl e ↦
          (conflict-none agent agent.allowed_tools e, validate_policy-none agents (ground arith))
      | inr (tool, e) ↦ absurd (ground arith)
    ]

-- A rejected policy has an agent that allows and blocks the tool that the error names.
abbrev pub IsConflict : PolicyError → Text × AgentPolicy → Type 0
IsConflict (allowed_and_blocked name tool) entry =
    (entry.0 ≡ name)
    × In tool entry.1.allowed_tools
    × (tool ≢ codes "*")
    × (has_item entry.1.blocked_tools tool ≡ true)
IsConflict _ entry = ⊥

validate_policy-some :
    (agents : List (Text × AgentPolicy)) (e : PolicyError)
    → validate_policy agents ≡ some e
    → (entry : Text × AgentPolicy) × In entry agents × IsConflict e entry
unfolding validate_policy
validate_policy-some [] e h = cc
validate_policy-some ((name, agent) ∷ agents) e h =
    elim (Option-cases (conflict agent agent.allowed_tools)) [
      | inl c ↦
          let (entry, i, k) = validate_policy-some agents e (ground arith) in (entry, inr i, k)
      | inr (tool, c) ↦ (
        (name, agent),
        inl refl,
        subst (λ z. IsConflict z (name, agent)) (hit tool c)
            (let (i, n, b) = conflict-some agent agent.allowed_tools tool c in (refl, i, n, b)),
      )
    ]
  where
    hit :
        (tool : Text)
        → conflict agent agent.allowed_tools ≡ some tool
        → allowed_and_blocked name tool ≡ e
    hit tool c = ground arith

consistent-conflict :
    (e : PolicyError) (entry : Text × AgentPolicy) → IsConsistent entry.1 → IsConflict e entry → ⊥
consistent-conflict (allowed_and_blocked name tool) entry c (p, i, n, b) =
    true≢false (sym b ∙ c tool i n)
  where
    true≢false : true ≡ false → ⊥
    true≢false h = cc
consistent-conflict yaml_parse entry c h = h
consistent-conflict io entry c h = h
consistent-conflict (invalid_condition t) entry c h = h

consistent-validates :
    (agents : List (Text × AgentPolicy))
    → All (λ entry. IsConsistent entry.1) agents
    → validate_policy agents ≡ none
consistent-validates agents h = elim (Option-cases (validate_policy agents)) [
  | inl v ↦ v
  | inr (e, v) ↦
      let (entry, i, k) = validate_policy-some agents e v in
      absurd
        (consistent-conflict e entry (All-In (λ entry. IsConsistent entry.1) entry agents h i) k)
]

loaded-parses :
    (parse_yaml : Text → Option PolicyConfig) (yaml : Text) (config : PolicyConfig)
    → parse_policy parse_yaml yaml ≡ ok config
    → (parse_yaml yaml ≡ some config) × (validate_policy config.agents ≡ none)
unfolding parse_policy
loaded-parses parse_yaml yaml config h = ground arith

refused-because :
    (parse_yaml : Text → Option PolicyConfig) (yaml : Text) (e : PolicyError)
    → parse_policy parse_yaml yaml ≡ err e
    → ((parse_yaml yaml ≡ none) × (e ≡ yaml_parse))
      ⊎ ((config : PolicyConfig) × (parse_yaml yaml ≡ some config)
          × (validate_policy config.agents ≡ some e))
unfolding parse_policy
refused-because parse_yaml yaml e h = elim (Option-cases (parse_yaml yaml)) [
  | inl p ↦ inl (p, ground (arith, h, p))
  | inr (config, p) ↦ inr (config, p, ground (arith, h, p))
]

-- A policy text loads as a configuration exactly if that is what it parses as, and no agent of it both
-- allows and blocks a tool other than the star. An error says that the text does not parse, or the text
-- parses and the error names an agent of it and a tool that the agent both allows and blocks.
pub parse_policy-validates :
    (parse_yaml : Text → Option PolicyConfig) (yaml : Text)
    → ((config : PolicyConfig)
        → (parse_policy parse_yaml yaml ≡ ok config)
          ↔ ((parse_yaml yaml ≡ some config) × All (λ entry. IsConsistent entry.1) config.agents))
      × ((e : PolicyError)
          → parse_policy parse_yaml yaml ≡ err e
          → ((parse_yaml yaml ≡ none) × (e ≡ yaml_parse))
            ⊎ ((config : PolicyConfig) × (parse_yaml yaml ≡ some config)
                × (entry : Text × AgentPolicy) × In entry config.agents
                × IsConflict e entry))
unfolding parse_policy
parse_policy-validates parse_yaml yaml = (
  λ config. (
    λ h.
        let (p, v) = loaded-parses parse_yaml yaml config h in
        (p, validate_policy-none config.agents v),
    λ h. ground (arith, h.0, consistent-validates config.agents h.1),
  ),
  λ e h. elim (refused-because parse_yaml yaml e h) [
    | inl p ↦ inl p
    | inr (config, p, v) ↦
        let (entry, i, c) = validate_policy-some config.agents e v in inr (config, p, entry, i, c)
  ],
)
