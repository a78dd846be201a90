-- ===== src/Graph/Targets.antt =====
-- crates/qw-graph/src/lib.rs: the part of `build_graph` on hosts, and the whole.
use quanta_watch.Prelude.{
  ℕ, ◌+◌, ◌*◌, ◌/◌, Text, codes, decimal, Bool, false, not, ◌||◌, Option, none, some, List, [], ◌∷◌,
  ◌++◌, keep, ltb, sort_by, if◌then◌else◌, ◌==◌,
}
use quanta_watch.Store.{lookup}
use quanta_watch.Gateway.CryptoPolicy.{PqcStatus, unknown}
use quanta_watch.Scanner.{FindingRecord}
use quanta_watch.Graph.{
  ExposedService, HostContainerRow, TargetRow, GraphInputs, Node, AttackPath, Graph, channel_weight,
  severity_for, parse_status, is_air_gapped,
}
use quanta_watch.Graph.Build.{
  Builder, push, add_edge, add_path, add_blast, Context, provider_map, cert_by_host, is_suppressed,
  add_provider, each, add_identity,
}
use quanta_watch.Graph.Agents.{em_dash, is_harvestable, add_agent}
use quanta_watch.Graph.Assets.{env_weight, add_dependencies, add_asset}

abbrev pub host_id : TargetRow → Text
host_id t = codes "host:" ++ t.id

abbrev pub service_id : TargetRow → ExposedService → Text
service_id t s = codes "service:" ++ (t.id ++ (b':' ∷ decimal s.port))

unfoldable pub service_path : TargetRow → ExposedService → ℕ → AttackPath
unfolding severity_for parse_status
service_path t s score = record {
  id = service_id t s;
  severity = severity_for score;
  score = score;
  hndl = is_harvestable (parse_status s.pqc_status);
  observed = false;
  request_count = 0;
  kind = codes "external-asset";
  data_class = t.environment;
  agent = em_dash;
  provider = t.host ++ (b':' ∷ decimal s.port);
  tls_version = none;
  channel_pqc = parse_status s.pqc_status;
  node_ids = host_id t ∷ service_id t s ∷ [];
}

-- A channel that is not characterized yet counts for less.
unfoldable pub service_score : TargetRow → PqcStatus → ℕ
unfolding env_weight channel_weight
service_score t unknown =
    (channel_weight unknown * env_weight t.environment t.tags * 55 * 1000 + 500_000) / 1_000_000
service_score t status =
    (channel_weight status * env_weight t.environment t.tags * 100 * 1000 + 500_000) / 1_000_000

unfoldable pub service_node : TargetRow → ExposedService → Node
unfolding channel_weight parse_status
service_node t s = record {
  id = service_id t s;
  kind = codes "service";
  label = b':' ∷ decimal s.port ++ (b' ' ∷ s.service);
  pqc_status = s.pqc_status;
  risk = channel_weight (parse_status s.pqc_status) * 10;
  blast_radius = 0;
  observed = false;
}

-- Only a service that can be reached is a path.
unfoldable pub add_service : TargetRow → ExposedService → Builder → Builder
unfolding push add_edge add_blast add_path service_node service_path service_score parse_status
    channel_weight env_weight is_air_gapped
add_service t s b =
    let status = parse_status s.pqc_status in
    let b' =
      add_edge (push b (service_node t s)) (host_id t) (service_id t s) (codes "exposes") false in
    let cw = channel_weight status in
    if not s.exposed || cw == 0 || is_air_gapped t.tags || ltb (service_score t status) 150
    then b'
    else add_path (add_blast b' (host_id t) (cw * env_weight t.environment t.tags))
        (service_path t s (service_score t status))

abbrev pub container_id : TargetRow → HostContainerRow → Text
container_id t c = codes "container:" ++ (t.id ++ (b':' ∷ c.name))

unfoldable pub container_node : TargetRow → HostContainerRow → Node
container_node t c = record {
  id = container_id t c;
  kind = codes "container";
  label = c.name;
  pqc_status = codes "n/a";
  risk = 0;
  blast_radius = 0;
  observed = false;
}

unfoldable pub add_container : TargetRow → HostContainerRow → Builder → Builder
unfolding push add_edge container_node
add_container t c b =
    add_edge (push b (container_node t c)) (host_id t) (container_id t c) (codes "runs") false

unfoldable pub host_node : TargetRow → Node
unfolding is_air_gapped channel_weight parse_status
host_node t = record {
  id = host_id t;
  kind = codes "host";
  label = t.name;
  pqc_status = t.pqc_status;
  risk = if is_air_gapped t.tags then 0 else channel_weight (parse_status t.pqc_status) * 10;
  blast_radius = 0;
  observed = false;
}

unfoldable pub add_target : TargetRow → Builder → Builder
unfolding push each add_service add_container host_node
add_target t b =
    let b' = push b (host_node t) in
    each (add_container t) t.containers (each (add_service t) t.exposed_services b')

abbrev or_radius : Option ℕ → ℕ → ℕ
or_radius none radius = radius
or_radius (some blast) radius = (blast + 500) / 1000

-- The blast radius of a node, in tenths.
unfoldable pub fold_blast : List (Text × ℕ) → List Node → List Node
unfolding lookup
fold_blast blast [] = []
fold_blast blast (n ∷ nodes) =
    record n { blast_radius = or_radius (lookup n.id blast) n.blast_radius }
    ∷ fold_blast blast nodes

abbrev pub empty_builder : Builder
empty_builder = record { nodes = []; edges = []; paths = []; blast = [] }

abbrev pub live_findings : GraphInputs → List FindingRecord
live_findings inputs = keep (λ f. not (is_suppressed f)) inputs.findings

unfoldable pub context_of : GraphInputs → List (Text × PqcStatus) → Context
unfolding provider_map cert_by_host
context_of inputs overrides = record {
  overrides = overrides;
  providers = provider_map overrides inputs.providers [];
  flows = inputs.flows;
  identities = inputs.identities;
  certs = cert_by_host (live_findings inputs) [];
}

unfoldable pub add_all : Context → GraphInputs → Builder → Builder
unfolding each add_provider add_identity add_agent add_dependencies add_asset add_target
add_all ctx inputs b =
    let b1 = each (add_provider ctx) ctx.providers b in
    let b2 = each add_identity inputs.identities b1 in
    let b3 = each (add_agent ctx) inputs.agents b2 in
    let b4 = add_dependencies (live_findings inputs) [] b3 in
    each add_target inputs.targets (each add_asset inputs.assets b4)

abbrev pub scores_higher : AttackPath → AttackPath → Bool
scores_higher p q = ltb q.score p.score

-- The graph, with a provider's status as the overrides force it and the paths by falling score.
unfoldable pub build_graph : GraphInputs → List (Text × PqcStatus) → Graph
unfolding context_of add_all fold_blast sort_by
build_graph inputs overrides =
    let b = add_all (context_of inputs overrides) inputs empty_builder in
    record {
      nodes = fold_blast b.blast b.nodes;
      edges = b.edges;
      paths = sort_by scores_higher b.paths;
    }
