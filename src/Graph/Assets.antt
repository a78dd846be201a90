-- ===== src/Graph/Assets.antt =====
-- crates/qw-graph/src/lib.rs: the part of `build_graph` on dependencies and assets.
use quanta_watch.Prelude.{
  ℕ, zero, suc, ◌+◌, ◌*◌, ◌/◌, Text, codes, starts_with, has_text, to_lowercase, has_item, Bool,
  true, false, not, ◌&&◌, ◌||◌, none, List, [], ◌∷◌, ◌++◌, any, leb, ltb, if◌then◌else◌,
}
use quanta_watch.Gateway.CryptoPolicy.{PqcStatus, classical_weak, to_string}
use quanta_watch.Scanner.{FindingRecord, crypto_library}
use quanta_watch.Graph.{
  AssetRow, Node, AttackPath, channel_weight, severity_for, parse_status, is_air_gapped,
}
use quanta_watch.Graph.Build.{Builder, push, add_path}
use quanta_watch.Graph.Agents.{em_dash, is_harvestable}

-- `title.replace(needle, "")`, past the first `skip` bytes.
unfoldable pub remove_text : Text → (needle : Text) → (skip length : ℕ) → Text
unfolding starts_with
remove_text [] needle skip length = []
remove_text (c ∷ s) needle (suc skip) length = remove_text s needle skip length
remove_text (c ∷ s) needle zero length =
    let inside = remove_text s needle (length) length in
    let after = remove_text s needle zero length in
    if starts_with (c ∷ s) needle then inside else c ∷ after

-- The library of a finding, without the 19 bytes of the prefix.
unfoldable pub library_of : FindingRecord → Text
unfolding remove_text
library_of f = remove_text f.title (codes "Crypto dependency: ") 0 18

abbrev pub is_library : FindingRecord → Bool
is_library f = elim f.asset_type [ crypto_library ↦ true | _ ↦ false ]

abbrev pub is_weak : PqcStatus → Bool
is_weak classical_weak = true
is_weak _ = false

unfoldable pub dependency_path : FindingRecord → Text → AttackPath
unfolding channel_weight severity_for
dependency_path f lib =
    let score = (channel_weight f.pqc_status * 450 + 50) / 100 in
    record {
      id = codes "asset:" ++ lib;
      severity = severity_for score;
      score = score;
      hndl = false;
      observed = false;
      request_count = 0;
      kind = codes "external-asset";
      data_class = codes "Codebase";
      agent = em_dash;
      provider = em_dash;
      tls_version = none;
      channel_pqc = f.pqc_status;
      node_ids = (codes "dependency:" ++ lib) ∷ [];
    }

unfoldable pub dependency_node : FindingRecord → Text → Node
unfolding channel_weight to_string
dependency_node f lib = record {
  id = codes "dependency:" ++ lib;
  kind = codes "dependency";
  label = lib;
  pqc_status = to_string f.pqc_status;
  risk = channel_weight f.pqc_status * 10;
  blast_radius = 0;
  observed = false;
}

-- A classical library, once; a weak one is a path.
unfoldable pub add_dependency : FindingRecord → Text → Builder → Builder
unfolding push add_path dependency_path dependency_node
add_dependency f lib b =
    let b' = push b (dependency_node f lib) in
    if is_weak f.pqc_status then add_path b' (dependency_path f lib) else b'

unfoldable pub add_dependencies : List FindingRecord → (dep_seen : List Text) → Builder → Builder
unfolding has_item library_of add_dependency
add_dependencies [] dep_seen b = b
add_dependencies (f ∷ findings) dep_seen b =
    let lib = library_of f in
    let skipped = add_dependencies findings dep_seen b in
    let added = add_dependencies findings (lib ∷ dep_seen) (add_dependency f lib b) in
    if is_library f && is_harvestable f.pqc_status && not (has_item dep_seen lib)
    then added
    else skipped

-- Production, and what is exposed or a customer's, weighs more.
unfoldable pub env_weight : Text → List Text → ℕ
unfolding has_text to_lowercase
env_weight environment tags =
    if has_text (to_lowercase environment) (codes "prod")
      || any (λ t. has_text t (codes "external") || has_text t (codes "customer")) tags
    then 95
    else 60

unfoldable pub asset_path : AssetRow → ℕ → AttackPath
unfolding severity_for parse_status
asset_path a score = record {
  id = codes "asset:" ++ a.id;
  severity = severity_for score;
  score = score;
  hndl = is_harvestable (parse_status a.pqc_status);
  observed = false;
  request_count = 0;
  kind = codes "external-asset";
  data_class = a.environment;
  agent = em_dash;
  provider = a.address;
  tls_version = a.tls_version;
  channel_pqc = parse_status a.pqc_status;
  node_ids = (codes "asset:" ++ a.id) ∷ [];
}

unfoldable pub asset_node : AssetRow → Node
unfolding is_air_gapped channel_weight parse_status
asset_node a = record {
  id = codes "asset:" ++ a.id;
  kind = codes "asset";
  label = a.id;
  pqc_status = a.pqc_status;
  risk = if is_air_gapped a.tags then 0 else channel_weight (parse_status a.pqc_status) * 10;
  blast_radius = 0;
  observed = false;
}

unfoldable pub add_asset : AssetRow → Builder → Builder
unfolding push add_path asset_path asset_node parse_status channel_weight is_air_gapped env_weight
add_asset a b =
    let cw = channel_weight (parse_status a.pqc_status) in
    let air = is_air_gapped a.tags in
    let b' = push b (asset_node a) in
    let score = (cw * env_weight a.environment a.tags * 1000 + 5000) / 10_000 in
    if ltb 0 cw && not air && leb 150 score then add_path b' (asset_path a score) else b'
