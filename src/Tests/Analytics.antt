-- ===== src/Tests/Analytics.antt =====
-- crates/qw-cbom, crates/qw-scanner and crates/qw-graph: a policy, an identifier and a small graph.
use quanta_watch.Prelude.{Bool, map, ◌≡◌, refl, codes, true, false, none, some, [], ◌∷◌, All, In}
use quanta_watch.Gateway.CryptoPolicy.{classical_weak, classical_secure}
use quanta_watch.Scanner.{
  FindingRecord, weak_algorithm, high, protocol_endpoint, high_confidence, opened,
}
use quanta_watch.Scanner.Algorithms.{resolve}
use quanta_watch.Scanner.Algorithms.Names.{IsSettled, resolve-IsSettled}
use quanta_watch.Cbom.Agility.{CryptoAgilityPolicy, glob_match}
use quanta_watch.Cbom.Agility.Evaluation.{evaluate_policy, fingerprints}
use quanta_watch.Cbom.Agility.Violations.{IsExact, evaluate_policy-IsExact}
use quanta_watch.Graph.{AttackPath, GraphInputs, AssetRow, TargetRow, host_of, is_air_gapped}
use quanta_watch.Graph.Assets.{add_asset}
use quanta_watch.Graph.Targets.{build_graph, add_target, empty_builder}
use quanta_watch.Graph.WellFormed.{IsWellFormed, build_graph-IsWellFormed}
use quanta_watch.Graph.AirGap.{is_air_gapped-paths}
use quanta_watch.Graph.Exposure.{EnrichedPath, enrich, enrich_paths}
use quanta_watch.Graph.Exposure.Ranking.{IsRanked, IsRow, how_many, enrich_paths-IsRanked}

abbrev no_weak_crypto : CryptoAgilityPolicy
no_weak_crypto = record {
  id = codes "no-weak-crypto";
  name = codes "No weak cryptography";
  description = [];
  selector = record { asset_types = []; environment = none; kinds = []; tags = [] };
  match_ = record {
    categories = [];
    pqc_status = codes "classical_weak" ∷ [];
    algorithm_glob = some (codes "ssh*");
    min_severity = some (codes "Medium");
  };
  severity = codes "critical";
  deadline = none;
  action = codes "open_pr";
  enforcement = codes "monitor";
}

abbrev bastion : FindingRecord
bastion = record {
  id = codes "f1";
  scan_id = codes "s";
  category = weak_algorithm;
  severity = high;
  title = codes "t";
  description = [];
  asset_type = protocol_endpoint;
  algorithm = some (codes "SSH-RSA");
  pqc_status = classical_weak;
  location = codes "bastion:22";
  remediation = none;
  created_at = 0;
  confidence = high_confidence;
  evidence = [];
  status = opened;
  note = none;
}

bastion-violates :
    fingerprints (evaluate_policy no_weak_crypto (bastion ∷ bastion ∷ []) [] 0)
    ≡ codes "bastion:22|weak_algorithm|SSH-RSA" ∷ []
unfolding fingerprints evaluate_policy
bastion-violates = refl

evaluate_policy-IsExact_example :
    IsExact no_weak_crypto
      (bastion ∷ bastion ∷ [])
      []
      (evaluate_policy no_weak_crypto (bastion ∷ bastion ∷ []) [] 0)
evaluate_policy-IsExact_example =
    evaluate_policy-IsExact no_weak_crypto (bastion ∷ bastion ∷ []) [] 0

glob-interior : glob_match (codes "a*b*C") (codes "AxxbyyC") ≡ true
unfolding glob_match
glob-interior = refl

resolve-unknown : resolve (codes " 1.2.3.4 ") ≡ codes "unknown (1.2.3.4)"
unfolding resolve
resolve-unknown = refl

resolve-IsSettled_example : IsSettled (resolve (codes " 1.2.3.4 "))
resolve-IsSettled_example = resolve-IsSettled (codes " 1.2.3.4 ")

host_of-url : host_of (codes "https://api.example.com:443/v1") ≡ codes "api.example.com"
unfolding host_of
host_of-url = refl

abbrev web : TargetRow
web = record {
  id = codes "h1";
  name = codes "web";
  host = codes "10.0.0.5";
  environment = codes "production";
  tags = codes "Air-Gapped" ∷ [];
  exposed_services =
      record {
        port = 443;
        service = codes "https";
        pqc_status = codes "classical_weak";
        exposed = true;
      }
      ∷ [];
  containers = record { name = codes "db"; image = codes "postgres" } ∷ [];
  pqc_status = codes "classical_weak";
}

abbrev balancer : AssetRow
balancer = record {
  id = codes "lb";
  kind = codes "load_balancer";
  address = codes "lb.internal";
  environment = codes "staging";
  tags = [];
  pqc_status = codes "classical_secure";
  tls_version = none;
}

abbrev estate : GraphInputs
estate = record {
  providers =
      record {
        name = codes "openai";
        pqc_status = classical_secure;
        tls_version = codes "1.3";
        endpoint = codes "https://api.openai.com";
      }
      ∷ [];
  identities = record { label = codes "apikey:ci"; role = codes "operator" } ∷ [];
  agents =
      record {
        name = codes "helper";
        offline = false;
        allowed_tools = codes "read_email" ∷ [];
        allowed_models = codes "gpt-4o" ∷ [];
      }
      ∷ [];
  flows = [];
  findings = [];
  assets = balancer ∷ [];
  targets = record web { tags = [] } ∷ [];
}

build_graph-IsWellFormed_example : IsWellFormed (build_graph estate [])
build_graph-IsWellFormed_example = build_graph-IsWellFormed estate []

is_air_gapped-paths_example :
    (is_air_gapped web.tags ≡ true → (add_target web empty_builder).paths ≡ [])
    × (is_air_gapped balancer.tags ≡ true → (add_asset balancer empty_builder).paths ≡ [])
is_air_gapped-paths_example = is_air_gapped-paths web balancer empty_builder

enrich_paths-IsRanked_example :
    (IsRanked (enrich_paths (build_graph estate []).paths))
    × ((All (IsRow (build_graph estate []).paths) (enrich_paths (build_graph estate []).paths))
        × (((p : AttackPath)
              → In p (build_graph estate []).paths
              → In (enrich p) (enrich_paths (build_graph estate []).paths))
            × ((picks : EnrichedPath → Bool)
                → how_many picks (enrich_paths (build_graph estate []).paths)
                  ≡ how_many picks (map enrich (build_graph estate []).paths))))
enrich_paths-IsRanked_example = enrich_paths-IsRanked (build_graph estate []).paths
