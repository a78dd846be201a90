-- ===== src/Graph/AirGap.antt =====
-- crates/qw-graph/src/lib.rs: what is air-gapped has no attack path.
use quanta_watch.Prelude.{
  ◌*◌, ◌+◌, ◌/◌, ◌≡◌, refl, ap, ◌∙◌, codes, Bool, true, false, not, ◌&&◌, ◌||◌, List, [], ◌∷◌, ltb,
  leb, ◌==◌, if◌then◌else◌, arith,
}
use quanta_watch.Graph.{
  Node, AssetRow, TargetRow, ExposedService, HostContainerRow, channel_weight, parse_status,
  is_air_gapped,
}
use quanta_watch.Graph.Build.{Builder, push, add_edge, add_path, add_blast, each}
use quanta_watch.Graph.Assets.{asset_node, asset_path, add_asset, env_weight}
use quanta_watch.Graph.Targets.{
  service_node, service_id, host_id, host_node, service_path, service_score, add_service,
  add_container, container_node, add_target,
}

push-paths : (b : Builder) (n : Node) → (push b n).paths ≡ b.paths
unfolding push
push-paths b n = ground arith

each-paths :
    {A : Type 0} (step : A → Builder → Builder) (xs : List A) (b : Builder)
    → ((x : A) (c : Builder) → (step x c).paths ≡ c.paths)
    → (each step xs b).paths ≡ b.paths
unfolding each
each-paths step [] b h = refl
each-paths step (x ∷ xs) b h = each-paths step xs (step x b) h ∙ h x b

if-left {ℓ} : {A : Type ℓ} (test : Bool) (x y : A) → test ≡ true → (if test then x else y) ≡ x
if-left test x y e = rw e refl

if-right {ℓ} : {A : Type ℓ} (test : Bool) (x y : A) → test ≡ false → (if test then x else y) ≡ y
if-right test x y e = rw e refl

guard-air : (x y z air : Bool) → air ≡ true → (x || y || air || z) ≡ true
guard-air x y z air h = ground arith

add_service-paths :
    (t : TargetRow) (s : ExposedService) (b : Builder)
    → is_air_gapped t.tags ≡ true
    → (add_service t s b).paths ≡ b.paths
unfolding add_service add_edge
add_service-paths t s b h =
    let status = parse_status s.pqc_status in
    let cw = channel_weight status in
    let b' =
      add_edge (push b (service_node t s)) (host_id t) (service_id t s) (codes "exposes") false in
    ap (λ z. z.paths)
      (if-left
        (not s.exposed || cw == 0 || is_air_gapped t.tags || ltb (service_score t status) 150) b'
        (add_path (add_blast b' (host_id t) (cw * env_weight t.environment t.tags))
          (service_path t s (service_score t status)))
        (guard-air (not s.exposed) (cw == 0) (ltb (service_score t status) 150)
          (is_air_gapped t.tags) h))
    ∙ push-paths b (service_node t s)

add_container-paths :
    (t : TargetRow) (c : HostContainerRow) (b : Builder) → (add_container t c b).paths ≡ b.paths
unfolding add_container add_edge
add_container-paths t c b = push-paths b (container_node t c)

add_target-paths :
    (t : TargetRow) (b : Builder) → is_air_gapped t.tags ≡ true → (add_target t b).paths ≡ b.paths
unfolding add_target
add_target-paths t b h =
    let b1 = push b (host_node t) in
    let b2 = each (add_service t) t.exposed_services b1 in
    each-paths (add_container t) t.containers b2 (add_container-paths t)
    ∙ (each-paths (add_service t) t.exposed_services b1 (λ s c. add_service-paths t s c h)
        ∙ push-paths b (host_node t))

not_air : (x y air : Bool) → air ≡ true → (x && not air && y) ≡ false
not_air x y air h = ground arith

add_asset-paths :
    (a : AssetRow) (b : Builder) → is_air_gapped a.tags ≡ true → (add_asset a b).paths ≡ b.paths
unfolding add_asset
add_asset-paths a b h =
    let b' = push b (asset_node a) in
    let cw = channel_weight (parse_status a.pqc_status) in
    let score = (cw * env_weight a.environment a.tags * 1000 + 5000) / 10_000 in
    ap (λ z. z.paths)
      (if-right (ltb 0 cw && not (is_air_gapped a.tags) && leb 150 score)
        (add_path b' (asset_path a score)) b'
        (not_air (ltb 0 cw) (leb 150 score) (is_air_gapped a.tags) h))
    ∙ push-paths b (asset_node a)

-- Whatever its services, containers and posture are, a host that is tagged as air-gapped adds no attack
-- path to the graph, and neither does an asset.
pub is_air_gapped-paths :
    (t : TargetRow) (a : AssetRow) (b : Builder)
    → (is_air_gapped t.tags ≡ true → (add_target t b).paths ≡ b.paths)
      × (is_air_gapped a.tags ≡ true → (add_asset a b).paths ≡ b.paths)
is_air_gapped-paths t a b = (add_target-paths t b, add_asset-paths a b)
