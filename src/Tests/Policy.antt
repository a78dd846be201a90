-- ===== src/Tests/Policy.antt =====
-- crates/qw-policy/src on small policies and patterns.
use quanta_watch.Prelude.{
  ℕ, ◌≡◌, ◌≢◌, ◌↔◌, ◌⊎◌, refl, inl, In, All, Text, codes, has_byte, true, false, not, ◌&&◌, ◌||◌,
  none, some, [], ◌∷◌, ◌++◌, length, ◌≤◌, ◌+◌,
}
use quanta_watch.Policy.Types.{DefaultEffect, AgentPolicy, PolicyConfig, RequestContext, is_allowed}
use quanta_watch.Policy.Glob.{matches_glob}
use quanta_watch.Policy.Glob.Meaning.{
  matches_glob-means, matches_glob-overlaps, matches_glob-many_stars,
}
use quanta_watch.Policy.Engine.{
  is_empty, get_agent_policy, is_cloud_provider, matches_any, is_model_allowed, evaluate,
}
use quanta_watch.Policy.Engine.Decisions.{
  permitted, refused, evaluate-decides, evaluate-tools_allowed,
}
use quanta_watch.Policy.Loader.{PolicyError, yaml_parse, ok, err, parse_policy}
use quanta_watch.Policy.Loader.Validity.{IsConsistent, IsConflict, parse_policy-validates}

abbrev coder : AgentPolicy
coder = record {
  description = [];
  allowed_models = [];
  allowed_tools = codes "read_*" ∷ [];
  blocked_tools = codes "read_secret" ∷ [];
  blocked_actions = [];
  data_policy = none;
  max_tokens_per_session = none;
  max_requests_per_minute = none;
  offline = false;
}

abbrev config : PolicyConfig
config = record {
  version = codes "1";
  default_effect = DefaultEffect.deny;
  agents = (codes "coder", coder) ∷ [];
}

abbrev request : RequestContext
request = record {
  agent_name = codes "coder";
  session_id = [];
  model = codes "m";
  provider = codes "local";
  tools_requested = codes "read_file" ∷ codes "read_secret" ∷ [];
  client_ip = [];
  labels = [];
}

found : get_agent_policy config.agents (codes "coder") ≡ some coder
unfolding get_agent_policy
found = refl

allowed : is_allowed (evaluate config request) ≡ true
unfolding evaluate matches_glob
allowed = refl

tools : (evaluate config request).tools_allowed ≡ codes "read_file" ∷ []
unfolding evaluate matches_glob
tools = refl

evaluate-decides_example :
    (is_allowed (evaluate config request) ≡ (
      is_model_allowed coder (codes "m")
      && ((is_empty (refused coder request.tools_requested)
            || not (is_empty (permitted coder request.tools_requested)))
          && not (false && is_cloud_provider (codes "local")))))
    × (is_allowed (evaluate config request) ≡ true
        → ((evaluate config request).tools_allowed ≡ permitted coder request.tools_requested)
          × ((evaluate config request).tools_denied ≡ refused coder request.tools_requested))
evaluate-decides_example = evaluate-decides config request coder found

read_file-listed : In (codes "read_file") (evaluate config request).tools_allowed
read_file-listed = rw tools (inl refl)

evaluate-tools_allowed_example :
    In (codes "read_file") request.tools_requested
    × (matches_any coder.blocked_tools (codes "read_file") ≡ false)
    × ((coder.allowed_tools ≡ []) ⊎ (matches_any coder.allowed_tools (codes "read_file") ≡ true))
evaluate-tools_allowed_example =
    evaluate-tools_allowed config request coder (codes "read_file") found allowed read_file-listed

parse_policy-validates_example :
    ((other : PolicyConfig)
      → (parse_policy (λ _. some config) [] ≡ ok other)
        ↔ ((some config ≡ some other) × All (λ entry. IsConsistent entry.1) other.agents))
    × ((e : PolicyError)
        → parse_policy (λ _. some config) [] ≡ err e
        → ((some config ≡ none) × (e ≡ yaml_parse))
          ⊎ ((other : PolicyConfig) × (some config ≡ some other)
              × (entry : Text × AgentPolicy) × In entry other.agents
              × IsConflict e entry))
parse_policy-validates_example = parse_policy-validates (λ _. some config) []

matches_glob-means_example :
    ((m : Text)
      → codes "read_file" ≡ codes "read_" ++ (m ++ [])
      → matches_glob (codes "read_" ++ b'*' ∷ []) (codes "read_file") ≡ true)
    × (length (codes "read_") + length {A = ℕ} [] ≤ length (codes "read_file")
        → matches_glob (codes "read_" ++ b'*' ∷ []) (codes "read_file") ≡ true
        → (m : Text) × (codes "read_file" ≡ codes "read_" ++ (m ++ [])))
unfolding has_byte
matches_glob-means_example = matches_glob-means (codes "read_") [] (codes "read_file") refl refl

matches_glob-overlaps_example :
    (matches_glob
        ((codes "a" ++ codes "b") ++ b'*' ∷ (codes "b" ++ codes "c"))
        (codes "a" ++ (codes "b" ++ codes "c"))
      ≡ true)
    × (codes "b" ≢ []
        → ¬ (
            (m : Text) × (codes "a" ++ (codes "b" ++ codes "c")
              ≡ (codes "a" ++ codes "b") ++ (m ++ (codes "b" ++ codes "c")))))
unfolding has_byte
matches_glob-overlaps_example = matches_glob-overlaps (codes "a") (codes "b") (codes "c") refl refl

matches_glob-many_stars_example :
    (matches_glob ([] ++ b'*' ∷ (codes "exec" ++ b'*' ∷ [])) (codes "exec_command") ≡ true)
    ↔ ([] ++ b'*' ∷ (codes "exec" ++ b'*' ∷ []) ≡ codes "exec_command")
unfolding has_byte
matches_glob-many_stars_example =
    matches_glob-many_stars [] (codes "exec") [] (codes "exec_command") refl refl
