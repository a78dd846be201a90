-- ===== src/Graph/Closed.antt =====
-- crates/qw-graph/src/lib.rs: the graph that is built is closed.
use quanta_watch.Prelude.{
  ℕ, ◌<◌, ◌*◌, ◌≡◌, sym, Text, codes, Bool, true, false, not, ◌&&◌, ◌||◌, List, [], ◌∷◌, ◌++◌, All,
  ltb, leb, has_item, ◌+◌, ◌/◌, arith, ◌==◌,
}
use mathlib.Core.Path.{subst}
use quanta_watch.Gateway.CryptoPolicy.{PqcStatus}
use quanta_watch.Scanner.{FindingRecord}
use quanta_watch.Graph.{
  AgentInput, AssetRow, TargetRow, ExposedService, HostContainerRow, GraphInputs, channel_weight,
  parse_status, is_air_gapped,
}
use quanta_watch.Graph.Build.{
  Builder, push, add_edge, add_path, add_blast, Context, each, add_provider, add_identity,
  identity_id,
}
use quanta_watch.Graph.Agents.{is_harvestable, add_agent}
use quanta_watch.Graph.Assets.{
  is_weak, is_library, library_of, dependency_node, asset_node, env_weight, dependency_path,
  add_dependency, add_dependencies, asset_path, add_asset,
}
use quanta_watch.Graph.Targets.{
  service_node, container_node, host_node, container_id, service_score, live_findings, service_path,
  add_service, add_container, host_id, service_id, add_target, add_all,
}
use quanta_watch.Graph.Growth.{
  Knows, IsBacked, Grows, All-map, Grows-refl, Grows-trans, push-Grows, push-Knows, path-Grows,
  each-Grows,
}
use quanta_watch.Graph.Joined.{
  if-Grows, free-Grows, push-edge-Grows, path-blast-Grows, add_provider-Grows, add_identity-Grows,
  identities-Knows, add_agent-Grows, All-const,
}

weak-positive : (s : PqcStatus) → is_weak s ≡ true → 0 < channel_weight s
unfolding channel_weight
weak-positive s h = ground arith

add_dependency-Grows :
    (f : FindingRecord) (lib : Text) (b : Builder) → Grows b (add_dependency f lib b)
unfolding add_dependency dependency_node dependency_path
add_dependency-Grows f lib b =
    let n = dependency_node f lib in
    let b' = push b n in
    let g = push-Grows b n in
    let p = dependency_path f lib in
    if-Grows b (is_weak f.pqc_status) (add_path b' p) b'
      (λ w.
        Grows-trans b b' (add_path b' p) g
          (path-Grows b' p ((push-Knows b n, tt), weak-positive f.pqc_status w)))
      (λ _. g)

add_dependencies-Grows :
    (findings : List FindingRecord) (dep_seen : List Text) (b : Builder)
    → Grows b (add_dependencies findings dep_seen b)
unfolding add_dependencies
add_dependencies-Grows [] dep_seen b = Grows-refl b
add_dependencies-Grows (f ∷ findings) dep_seen b =
    let lib = library_of f in
    if-Grows b (is_library f && is_harvestable f.pqc_status && not (has_item dep_seen lib))
      (add_dependencies findings (lib ∷ dep_seen) (add_dependency f lib b))
      (add_dependencies findings dep_seen b)
      (λ _.
        Grows-trans b (add_dependency f lib b)
          (add_dependencies findings (lib ∷ dep_seen) (add_dependency f lib b))
          (add_dependency-Grows f lib b)
          (add_dependencies-Grows findings (lib ∷ dep_seen) (add_dependency f lib b)))
      (λ _. add_dependencies-Grows findings dep_seen b)

and_positive : (w : ℕ) (x y : Bool) → (ltb 0 w && x && y) ≡ true → 0 < w
and_positive w x y h = ground arith

asset_path-IsBacked :
    (a : AssetRow) (score : ℕ) (b : Builder)
    → Knows b (codes "asset:" ++ a.id)
    → 0 < channel_weight (parse_status a.pqc_status)
    → IsBacked b.nodes (asset_path a score)
unfolding asset_path
asset_path-IsBacked a score b k w = ((k, tt), w)

asset_node-Knows :
    (a : AssetRow) (b : Builder) → Knows (push b (asset_node a)) (codes "asset:" ++ a.id)
unfolding asset_node
asset_node-Knows a b = push-Knows b (asset_node a)

add_asset-Grows : (a : AssetRow) (b : Builder) → Grows b (add_asset a b)
unfolding add_asset
add_asset-Grows a b =
    let b' = push b (asset_node a) in
    let cw = channel_weight (parse_status a.pqc_status) in
    let score = (cw * env_weight a.environment a.tags * 1000 + 5000) / 10_000 in
    let p = asset_path a score in
    let g = push-Grows b (asset_node a) in
    if-Grows b (ltb 0 cw && not (is_air_gapped a.tags) && leb 150 score) (add_path b' p) b'
      (λ h. Grows-trans b b' (add_path b' p) g (
        path-Grows b' p (
          asset_path-IsBacked a score b' (asset_node-Knows a b)
            (and_positive cw (not (is_air_gapped a.tags)) (leb 150 score) h))))
      (λ _. g)

service_path-IsBacked :
    (t : TargetRow) (s : ExposedService) (score : ℕ) (b : Builder)
    → Knows b (host_id t)
    → Knows b (service_id t s)
    → 0 < channel_weight (parse_status s.pqc_status)
    → IsBacked b.nodes (service_path t s score)
unfolding service_path
service_path-IsBacked t s score b h k w = ((h, (k, tt)), w)

service_node-Knows :
    (t : TargetRow) (s : ExposedService) (b : Builder)
    → Knows (push b (service_node t s)) (service_id t s)
unfolding service_node
service_node-Knows t s b = push-Knows b (service_node t s)

or_positive : (x y z : Bool) (w : ℕ) → (x || w == 0 || y || z) ≡ false → 0 < w
or_positive x y z w h = ground arith

add_service-Grows :
    (t : TargetRow) (s : ExposedService) (b : Builder)
    → Knows b (host_id t)
    → Grows b (add_service t s b)
unfolding add_service add_edge
add_service-Grows t s b h =
    let n = service_node t s in
    let b1 = push b n in
    let g = push-Grows b n in
    let known = service_node-Knows t s b in
    let host = g.keeps (host_id t) h in
    let b' = add_edge b1 (host_id t) (service_id t s) (codes "exposes") false in
    let e =
      push-edge-Grows b b1 (host_id t) (service_id t s) (codes "exposes") false g host known in
    let status = parse_status s.pqc_status in
    let cw = channel_weight status in
    let amount = cw * env_weight t.environment t.tags in
    let p = service_path t s (service_score t status) in
    if-Grows b
      (not s.exposed || cw == 0 || is_air_gapped t.tags || ltb (service_score t status) 150) b'
      (add_path (add_blast b' (host_id t) amount) p) (λ _. e)
      (λ low. Grows-trans b b' (add_path (add_blast b' (host_id t) amount) p) e (
        path-blast-Grows b' (host_id t) amount p (
          service_path-IsBacked t s (service_score t status) b' host known (
            or_positive (not s.exposed) (is_air_gapped t.tags) (ltb (service_score t status) 150) cw
              low))))

container_node-Knows :
    (t : TargetRow) (c : HostContainerRow) (b : Builder)
    → Knows (push b (container_node t c)) (container_id t c)
unfolding container_node
container_node-Knows t c b = push-Knows b (container_node t c)

add_container-Grows :
    (t : TargetRow) (c : HostContainerRow) (b : Builder)
    → Knows b (host_id t)
    → Grows b (add_container t c b)
unfolding add_container
add_container-Grows t c b h =
    let b1 = push b (container_node t c) in
    let g = push-Grows b (container_node t c) in
    push-edge-Grows b b1 (host_id t) (container_id t c) (codes "runs") false g
      (g.keeps (host_id t) h) (container_node-Knows t c b)

host_node-Knows : (t : TargetRow) (b : Builder) → Knows (push b (host_node t)) (host_id t)
unfolding host_node
host_node-Knows t b = push-Knows b (host_node t)

-- A loop whose body needs the one node.
hosted-Grows :
    {A : Type 0} (step : A → Builder → Builder) (id : Text) (xs : List A) (b : Builder)
    → ((x : A) (c : Builder) → Knows c id → Grows c (step x c))
    → Knows b id
    → Grows b (each step xs b)
hosted-Grows step id xs b body k =
    each-Grows step (λ x. id ∷ []) xs b (λ x c h. body x c (h.0))
      (All-const (All (Knows b) (id ∷ [])) xs (k, tt))

add_target-Grows : (t : TargetRow) (b : Builder) → Grows b (add_target t b)
unfolding add_target
add_target-Grows t b =
    let b1 = push b (host_node t) in
    let b2 = each (add_service t) t.exposed_services b1 in
    let known = host_node-Knows t b in
    let g : Grows b1 b2 =
      hosted-Grows (add_service t) (host_id t) t.exposed_services b1
        (λ s c h. add_service-Grows t s c h) known in
    Grows-trans b b1 (add_target t b) (push-Grows b (host_node t)) (
      Grows-trans b1 b2 (each (add_container t) t.containers b2) g (
        hosted-Grows (add_container t) (host_id t) t.containers b2
          (λ x c h. add_container-Grows t x c h) (g.keeps (host_id t) known)))

agents-Grows :
    (ctx : Context) (agents : List AgentInput) (b : Builder)
    → All (λ i. Knows b (identity_id i.label)) ctx.identities
    → Grows b (each (add_agent ctx) agents b)
unfolding each
agents-Grows ctx [] b h = Grows-refl b
agents-Grows ctx (a ∷ agents) b h =
    let b' = add_agent ctx a b in
    let g = add_agent-Grows ctx a b h in
    Grows-trans b b' (each (add_agent ctx) agents b') g (
      agents-Grows ctx agents b' (
        All-map (λ i. Knows b (identity_id i.label)) (λ i. Knows b' (identity_id i.label))
          ctx.identities (λ i k. g.keeps (identity_id i.label) k) h))

pub add_all-Grows :
    (ctx : Context) (inputs : GraphInputs) (b : Builder)
    → ctx.identities ≡ inputs.identities
    → Grows b (add_all ctx inputs b)
unfolding add_all
add_all-Grows ctx inputs b same =
    let b1 = each (add_provider ctx) ctx.providers b in
    let b2 = each add_identity inputs.identities b1 in
    let b3 = each (add_agent ctx) inputs.agents b2 in
    let b4 = add_dependencies (live_findings inputs) [] b3 in
    let b5 = each add_asset inputs.assets b4 in
    let known = identities-Knows inputs.identities b1 in
    Grows-trans b b1 (add_all ctx inputs b)
      (free-Grows (add_provider ctx) ctx.providers b (λ x c. add_provider-Grows ctx x c))
      (Grows-trans b1 b2 (add_all ctx inputs b)
        (free-Grows add_identity inputs.identities b1 add_identity-Grows)
        (Grows-trans b2 b3 (add_all ctx inputs b)
          (agents-Grows ctx inputs.agents b2
            (subst (λ z. All (λ i. Knows b2 (identity_id i.label)) z) (sym same) known))
          (Grows-trans b3 b4 (add_all ctx inputs b)
            (add_dependencies-Grows (live_findings inputs) [] b3)
            (Grows-trans b4 b5 (add_all ctx inputs b)
              (free-Grows add_asset inputs.assets b4 add_asset-Grows)
              (free-Grows add_target inputs.targets b5 add_target-Grows)))))
