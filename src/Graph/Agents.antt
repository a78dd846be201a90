-- ===== src/Graph/Agents.antt =====
-- crates/qw-graph/src/lib.rs: the part of `build_graph` on agents and what they reach.
use quanta_watch.Prelude.{
  ℕ, ◌+◌, ◌*◌, ◌/◌, min, Text, codes, text_eq, starts_with, Bool, true, false, ◌&&◌, ◌||◌, Option,
  none, some, List, [], ◌∷◌, ◌++◌, leb, ltb, if◌then◌else◌, ◌==◌,
}
use quanta_watch.Store.{lookup}
use quanta_watch.Gateway.CryptoPolicy.{PqcStatus, classical_secure, classical_weak, unknown}
use quanta_watch.Graph.{
  IdentityInput, AgentInput, FlowRow, Node, AttackPath, data_class_for, channel_weight,
  providers_for_models, severity_for,
}
use quanta_watch.Graph.Maps.{set_insert}
use quanta_watch.Graph.Build.{
  Builder, push, add_edge, add_path, add_blast, or_status, ProviderInfo, Context, provider_node,
  each, is_privileged, identity_id,
}

-- The requests of an agent to a provider, and those that were sensitive; the last row counts.
unfoldable pub flow_of : List FlowRow → Text → Text → Option (ℕ × ℕ)
unfolding text_eq
flow_of [] agent provider = none
flow_of (f ∷ flows) agent provider =
    let rest = flow_of flows agent provider in
    elim rest [
      | some found ↦ some found
      | none ↦
          if text_eq f.agent agent && text_eq f.provider provider
          then some (f.requests, f.sensitive)
          else none
    ]

-- An agent as the loops over its identities and providers see it.
pub record AgentView : Type 0 where
  pub name : Text
  pub offline : Bool
  pub agent_id : Text
  pub data_label : Text
  pub data_weight : ℕ
  pub data_id : Text

-- `replace(' ', "_")`
unfoldable pub underscored : Text → Text
underscored [] = []
underscored (c ∷ s) = (if c == b' ' then b'_' else c) ∷ underscored s

unfoldable pub view_of : AgentInput → AgentView
unfolding data_class_for underscored
view_of agent =
    let (label, weight) = data_class_for agent.allowed_tools agent.offline in
    record {
      name = agent.name;
      offline = agent.offline;
      agent_id = codes "agent:" ++ agent.name;
      data_label = label;
      data_weight = weight;
      data_id = codes "data:" ++ (agent.name ++ (b':' ∷ underscored label));
    }

abbrev pub em_dash : Text
em_dash = 226 ∷ 128 ∷ 148 ∷ []

unfoldable pub access_path : AgentView → IdentityInput → AttackPath
unfolding severity_for
access_path v i =
    let score = (v.data_weight * 600 + 500) / 1000 in
    record {
      id = codes "access:" ++ (i.label ++ (codes "->" ++ v.name));
      severity = severity_for score;
      score = score;
      hndl = false;
      observed = false;
      request_count = 0;
      kind = codes "access-risk";
      data_class = v.data_label;
      agent = v.name;
      provider = em_dash;
      tls_version = none;
      channel_pqc = unknown;
      node_ids = identity_id i.label ∷ v.agent_id ∷ v.data_id ∷ [];
    }

-- Who can drive the agent; a privileged API key that reaches sensitive data is a path.
unfoldable pub add_access : AgentView → IdentityInput → Builder → Builder
unfolding add_edge add_path access_path starts_with is_privileged
add_access v i b =
    let b' = add_edge b (identity_id i.label) v.agent_id (codes "can-access") false in
    if starts_with i.label (codes "apikey:") && is_privileged i.role && leb 650 v.data_weight
    then add_path b' (access_path v i)
    else b'

abbrev pub is_harvestable : PqcStatus → Bool
is_harvestable classical_secure = true
is_harvestable classical_weak = true
is_harvestable _ = false

-- Sensitive traffic that was seen counts for more, then any traffic.
unfoldable pub flow_score : AgentView → PqcStatus → (requests sensitive : ℕ) → ℕ
unfolding channel_weight
flow_score v status requests sensitive =
    let exposure = if v.offline then 35 else 100 in
    let boost = if ltb 0 sensitive then 120 else if ltb 0 requests then 108 else 100 in
    (min (v.data_weight * channel_weight status * exposure * boost) 1_000_000_000 + 500_000)
    / 1_000_000

abbrev pub status_of : Option ProviderInfo → PqcStatus
status_of none = unknown
status_of (some info) = info.status

abbrev tls_of : Option ProviderInfo → Option Text
tls_of none = none
tls_of (some info) = some info.tls

abbrev pub or_no_flow : Option (ℕ × ℕ) → ℕ × ℕ
or_no_flow none = (0, 0)
or_no_flow (some f) = f

unfoldable pub flow_path : Context → AgentView → Text → ℕ → ℕ → AttackPath
unfolding flow_score severity_for lookup
flow_path ctx v p requests score =
    let info = lookup p ctx.providers in
    record {
      id = codes "flow:" ++ (v.name ++ (codes "->" ++ p));
      severity = severity_for score;
      score = score;
      hndl = is_harvestable (status_of info);
      observed = ltb 0 requests;
      request_count = requests;
      kind = codes "data-exposure";
      data_class = v.data_label;
      agent = v.name;
      provider = p;
      tls_version = tls_of info;
      channel_pqc = status_of info;
      node_ids = v.data_id ∷ v.agent_id ∷ (codes "provider:" ++ p) ∷ [];
    }

-- The path over a channel that is not PQC-ready and scores 15 or more.
unfoldable pub score_route :
    Context → AgentView → Text → (requests sensitive : ℕ) → Builder → Builder
unfolding add_blast add_path flow_path flow_score channel_weight lookup
score_route ctx v p requests sensitive b =
    let status = status_of (lookup p ctx.providers) in
    let score = flow_score v status requests sensitive in
    if channel_weight status == 0 || ltb score 150
    then b
    else add_path
        (add_blast b (codes "provider:" ++ p) (v.data_weight * (if ltb 0 requests then 13 else 10)))
        (flow_path ctx v p requests score)

-- A provider that an agent may use or was seen to use.
unfoldable pub add_route : Context → AgentView → Text → Builder → Builder
unfolding push provider_node flow_of add_edge score_route lookup
add_route ctx v p b =
    let seen = push b (provider_node ctx p (or_status (lookup p ctx.overrides) unknown)) in
    let (requests, sensitive) = or_no_flow (flow_of ctx.flows v.name p) in
    score_route ctx v p requests sensitive
      (add_edge seen v.agent_id (codes "provider:" ++ p) (codes "routes-to") (ltb 0 requests))

unfoldable pub seen_providers : List FlowRow → Text → List Text → List Text
unfolding text_eq set_insert
seen_providers [] agent set = set
seen_providers (f ∷ flows) agent set =
    let with_it = set_insert f.provider set in
    seen_providers flows agent (if text_eq f.agent agent then with_it else set)

abbrev pub agent_node : AgentView → Node
agent_node v = record {
  id = v.agent_id;
  kind = codes "agent";
  label = v.name;
  pqc_status = codes "n/a";
  risk = 0;
  blast_radius = 0;
  observed = false;
}

abbrev pub data_node : AgentView → Node
data_node v = record {
  id = v.data_id;
  kind = codes "data";
  label = v.data_label;
  pqc_status = codes "n/a";
  risk = v.data_weight;
  blast_radius = 0;
  observed = false;
}

-- The agent and its data.
unfoldable pub start_agent : AgentView → Builder → Builder
unfolding push add_edge
start_agent v b =
    add_edge (push (push b (agent_node v)) (data_node v)) v.data_id v.agent_id (codes "handles")
      false

unfoldable pub add_agent : Context → AgentInput → Builder → Builder
unfolding start_agent view_of each add_access add_route seen_providers providers_for_models
add_agent ctx agent b =
    let v = view_of agent in
    each (add_route ctx v)
      (seen_providers ctx.flows agent.name (providers_for_models agent.allowed_models))
      (each (add_access v) ctx.identities (start_agent v b))
