-- ===== src/Policy/Loader.antt =====
-- crates/qw-policy/src/yaml_parser.rs and error.rs. The file system and `serde_yaml` are parameters.
pub mod Validity
use quanta_watch.Prelude.{
  Text, codes, text_eq, has_item, Bool, true, false, not, ◌&&◌, Option, none, some, List, [], ◌∷◌,
  if◌then◌else◌,
}
use quanta_watch.Policy.Types.{AgentPolicy, PolicyConfig}
use quanta_watch.Policy.Engine.{is_empty}

pub data PolicyError : Type 0 where
  allowed_and_blocked : (agent tool : Text) → PolicyError
  yaml_parse : PolicyError
  io : PolicyError
  invalid_condition : Text → PolicyError

pub data Loaded : Type 0 where
  ok : PolicyConfig → Loaded
  err : PolicyError → Loaded

-- The inner loop of `validate_policy`: a tool that is both allowed and blocked, but for `*`.
unfoldable pub conflict : AgentPolicy → List Text → Option Text
conflict agent [] = none
conflict agent (tool ∷ tools) =
    if has_item agent.blocked_tools tool && not (text_eq tool (codes "*"))
    then some tool
    else conflict agent tools

-- `validate_policy`, `none` for `Ok(())`; its warning changes nothing.
unfoldable pub validate_policy : List (Text × AgentPolicy) → Option PolicyError
unfolding conflict has_item
validate_policy [] = none
validate_policy ((name, agent) ∷ agents) = elim (conflict agent agent.allowed_tools) [
  | some tool ↦ some (allowed_and_blocked name tool)
  | none ↦ validate_policy agents
]

module _ (parse_yaml : Text → Option PolicyConfig) where
  unfoldable pub parse_policy : Text → Loaded
  unfolding validate_policy
  parse_policy yaml = elim (parse_yaml yaml) [
    | none ↦ err yaml_parse
    | some config ↦ elim (validate_policy config.agents) [ some e ↦ err e | none ↦ ok config ]
  ]

  -- `load_policy`: `read` is `read_to_string` of the path, `none` an error.
  unfoldable pub load_policy : Option Text → Loaded
  load_policy none = err io
  load_policy (some content) = parse_policy content
