-- ===== src/Graph/Build.antt =====
-- crates/qw-graph/src/lib.rs: the steps of `build_graph`, and its part on providers and identities.
use quanta_watch.Prelude.{
  ℕ, ◌+◌, ◌*◌, Text, codes, text_eq, Bool, true, false, ◌||◌, Option, none, some, List, [], ◌∷◌,
  ◌++◌, any, ltb, if◌then◌else◌,
}
use quanta_watch.Store.{lookup, insert}
use quanta_watch.Gateway.CryptoPolicy.{PqcStatus, pqc_ready, to_string}
use quanta_watch.Scanner.{FindingRecord, certificate, suppressed}
use quanta_watch.Graph.{
  ProviderChannel, IdentityInput, FlowRow, Node, Edge, AttackPath, channel_weight, host_of,
}
use quanta_watch.Graph.Maps.{map_insert}

-- What the build has so far. The ids that were seen are those of the nodes. The blast radius of a node
-- is in ten-thousandths here.
pub record Builder : Type 0 where
  pub nodes : List Node
  pub edges : List Edge
  pub paths : List AttackPath
  pub blast : List (Text × ℕ)

unfoldable pub has_node : List Node → Text → Bool
unfolding text_eq
has_node [] id = false
has_node (n ∷ nodes) id = text_eq n.id id || has_node nodes id

unfoldable pub push : Builder → Node → Builder
unfolding has_node
push b n = if has_node b.nodes n.id then b else record b { nodes = b.nodes ++ n ∷ [] }

unfoldable pub add_edge : Builder → (source target kind : Text) → Bool → Builder
add_edge b source target kind observed = record b {
  edges =
      b.edges ++ record { source = source; target = target; kind = kind; observed = observed } ∷ [];
}

unfoldable pub add_path : Builder → AttackPath → Builder
add_path b p = record b { paths = b.paths ++ p ∷ [] }

abbrev or_zero : Option ℕ → ℕ
or_zero none = 0
or_zero (some n) = n

unfoldable pub add_blast : Builder → Text → ℕ → Builder
unfolding lookup insert
add_blast b id amount = record b {
  blast = insert id (or_zero (lookup id b.blast) + amount) b.blast;
}

abbrev pub or_status : Option PqcStatus → PqcStatus → PqcStatus
or_status none s = s
or_status (some t) s = t

pub record ProviderInfo : Type 0 where
  pub status : PqcStatus
  pub tls : Text
  pub endpoint : Text

-- What the parts of the build read.
pub record Context : Type 0 where
  pub overrides : List (Text × PqcStatus)
  pub providers : List (Text × ProviderInfo)
  pub flows : List FlowRow
  pub identities : List IdentityInput
  pub certs : List (Text × PqcStatus)

unfoldable pub provider_map :
    List (Text × PqcStatus)
    → List ProviderChannel
    → List (Text × ProviderInfo)
    → List (Text × ProviderInfo)
unfolding lookup map_insert
provider_map overrides [] rows = rows
provider_map overrides (c ∷ cs) rows = provider_map overrides cs (
    map_insert c.name
      (record {
        status = or_status (lookup c.name overrides) c.pqc_status;
        tls = c.tls_version;
        endpoint = c.endpoint;
      })
      rows)

abbrev is_certificate : FindingRecord → Bool
is_certificate f = elim f.asset_type [ certificate ↦ true | _ ↦ false ]

abbrev pub is_suppressed : FindingRecord → Bool
is_suppressed f = elim f.status [ suppressed ↦ true | _ ↦ false ]

-- The worst status of the certificates of each host.
unfoldable pub cert_by_host : List FindingRecord → List (Text × PqcStatus) → List (Text × PqcStatus)
unfolding host_of lookup insert channel_weight
cert_by_host [] rows = rows
cert_by_host (f ∷ findings) rows =
    let host = host_of f.location in
    let old = or_status (lookup host rows) pqc_ready in
    let worst =
      if ltb (channel_weight old) (channel_weight f.pqc_status) then f.pqc_status else old in
    cert_by_host findings (if is_certificate f then insert host worst rows else rows)

abbrev observed_provider : List FlowRow → Text → Bool
observed_provider flows name = any (λ f. text_eq f.provider name) flows

unfoldable pub provider_node : Context → Text → PqcStatus → Node
unfolding channel_weight to_string text_eq
provider_node ctx name status = record {
  id = codes "provider:" ++ name;
  kind = codes "provider";
  label = name;
  pqc_status = to_string status;
  risk = channel_weight status * 10;
  blast_radius = 0;
  observed = observed_provider ctx.flows name;
}

unfoldable pub add_provider : Context → Text × ProviderInfo → Builder → Builder
unfolding push add_edge provider_node host_of lookup channel_weight to_string
add_provider ctx (name, info) b =
    let b' = push b (provider_node ctx name info.status) in
    let host = host_of info.endpoint in
    elim (lookup host ctx.certs) [
      | none ↦ b'
      | some cs ↦
          add_edge
            (push b' (record {
              id = codes "cert:" ++ host;
              kind = codes "certificate";
              label = host ++ codes " cert";
              pqc_status = to_string cs;
              risk = channel_weight cs * 10;
              blast_radius = 0;
              observed = false;
            }))
            (codes "provider:" ++ name) (codes "cert:" ++ host) (codes "secured-by") false
    ]

-- `for x in xs`, with the builder as the state.
unfoldable pub each {ℓ} : {A : Type ℓ} → (A → Builder → Builder) → List A → Builder → Builder
each step [] b = b
each step (x ∷ xs) b = each step xs (step x b)

unfoldable pub is_privileged : Text → Bool
unfolding text_eq
is_privileged role = text_eq role (codes "admin") || text_eq role (codes "operator")

abbrev pub identity_id : Text → Text
identity_id label = codes "identity:" ++ label

unfoldable pub add_identity : IdentityInput → Builder → Builder
unfolding push is_privileged
add_identity i b = push b (record {
  id = identity_id i.label;
  kind = codes "identity";
  label = i.label;
  pqc_status = codes "n/a";
  risk = if is_privileged i.role then 550 else 200;
  blast_radius = 0;
  observed = false;
})
