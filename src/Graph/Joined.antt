-- ===== src/Graph/Joined.antt =====
-- crates/qw-graph/src/lib.rs: the part of the graph on providers and agents is closed.
use quanta_watch.Prelude.{
  ℕ, ◌<◌, ◌*◌, ◌≡◌, refl, inl, inr, Text, codes, Bool, true, false, ◌||◌, List, [], ◌∷◌, ◌++◌, All,
  ltb, if◌then◌else◌, Option-cases, arith, ◌==◌,
}
use quanta_watch.Store.{lookup}
use quanta_watch.Gateway.CryptoPolicy.{unknown}
use quanta_watch.Graph.{
  IdentityInput, AgentInput, AttackPath, channel_weight, host_of, providers_for_models,
}
use quanta_watch.Graph.Build.{
  Builder, push, add_edge, add_path, add_blast, or_status, ProviderInfo, Context, provider_node,
  each, add_provider, add_identity, identity_id,
}
use quanta_watch.Graph.Agents.{
  AgentView, view_of, or_no_flow, flow_of, flow_score, score_route, agent_node, data_node,
  start_agent, seen_providers, access_path, add_access, flow_path, add_route, add_agent, status_of,
}
use quanta_watch.Graph.Growth.{
  Knows, IsBacked, Grows, All-map, Grows-refl, Grows-trans, push-Grows, push-Knows, edge-Grows,
  path-Grows, blast-Grows, each-Grows,
}

pub if-Grows :
    (b : Builder) (test : Bool) (x y : Builder)
    → (test ≡ true → Grows b x)
    → (test ≡ false → Grows b y)
    → Grows b (if test then x else y)
if-Grows b true x y hx hy = hx refl
if-Grows b false x y hx hy = hy refl

-- A loop whose body needs no nodes.
pub free-Grows :
    {A : Type 0} (step : A → Builder → Builder) (xs : List A) (b : Builder)
    → ((x : A) (c : Builder) → Grows c (step x c))
    → Grows b (each step xs b)
unfolding each
free-Grows step [] b body = Grows-refl b
free-Grows step (x ∷ xs) b body =
    Grows-trans b (step x b) _ (body x b) (free-Grows step xs (step x b) body)

pub push-edge-Grows :
    (b c : Builder) (source target kind : Text) (observed : Bool)
    → Grows b c
    → Knows c source
    → Knows c target
    → Grows b (add_edge c source target kind observed)
push-edge-Grows b c source target kind observed g s t =
    Grows-trans b c _ g (edge-Grows c source target kind observed s t)

pub add_provider-Grows :
    (ctx : Context) (row : Text × ProviderInfo) (b : Builder) → Grows b (add_provider ctx row b)
unfolding add_provider provider_node
add_provider-Grows ctx (name, info) b =
    let n = provider_node ctx name info.status in
    elim (Option-cases (lookup (host_of info.endpoint) ctx.certs)) [
      | inl e ↦ rw (e, add_provider) (push-Grows b n)
      | inr (cs, e) ↦
          rw (e, add_provider)
            (push-edge-Grows b _ _ _ _ false
              (Grows-trans b (push b n) _ (push-Grows b n) (push-Grows (push b n) _))
              ((push-Grows (push b n) _).keeps _ (push-Knows b n)) (push-Knows (push b n) _))
    ]

pub add_identity-Grows : (i : IdentityInput) (b : Builder) → Grows b (add_identity i b)
unfolding add_identity
add_identity-Grows i b = push-Grows b _

add_identity-Knows :
    (i : IdentityInput) (b : Builder) → Knows (add_identity i b) (identity_id i.label)
unfolding add_identity
add_identity-Knows i b = push-Knows b _

pub identities-Knows :
    (is : List IdentityInput) (b : Builder)
    → All (λ i. Knows (each add_identity is b) (identity_id i.label)) is
unfolding each
identities-Knows [] b = tt
identities-Knows (i ∷ is) b = (
  (free-Grows add_identity is (add_identity i b) add_identity-Grows).keeps (identity_id i.label)
      (add_identity-Knows i b),
  identities-Knows is (add_identity i b),
)

add_access-Grows :
    (v : AgentView) (i : IdentityInput) (b : Builder)
    → All (Knows b) (identity_id i.label ∷ v.agent_id ∷ v.data_id ∷ [])
    → Grows b (add_access v i b)
unfolding add_access access_path add_edge channel_weight
add_access-Grows v i b h =
    let g =
      edge-Grows b (identity_id i.label) v.agent_id (codes "can-access") false (h.0) (h.1.0) in
    if-Grows b _ _ _ (λ _. Grows-trans b _ _ g (path-Grows _ (access_path v i) (h, omega arith)))
      (λ _. g)

flow_path-IsBacked :
    (ctx : Context) (v : AgentView) (p : Text) (requests score : ℕ) (b : Builder)
    → Knows b v.data_id
    → Knows b v.agent_id
    → Knows b (codes "provider:" ++ p)
    → 0 < channel_weight (status_of (lookup p ctx.providers))
    → IsBacked b.nodes (flow_path ctx v p requests score)
unfolding flow_path
flow_path-IsBacked ctx v p requests score b d a k w = ((d, (a, (k, tt))), w)

weight_positive : (w score : ℕ) → (w == 0 || ltb score 150) ≡ false → 0 < w
weight_positive w score h = ground arith

pub path-blast-Grows :
    (b : Builder) (id : Text) (amount : ℕ) (p : AttackPath)
    → IsBacked b.nodes p
    → Grows b (add_path (add_blast b id amount) p)
unfolding add_blast
path-blast-Grows b id amount p h =
    Grows-trans b (add_blast b id amount) (add_path (add_blast b id amount) p)
      (blast-Grows b id amount) (path-Grows (add_blast b id amount) p h)

score_route-Grows :
    (ctx : Context) (v : AgentView) (p : Text) (requests sensitive : ℕ) (b : Builder)
    → Knows b v.data_id
    → Knows b v.agent_id
    → Knows b (codes "provider:" ++ p)
    → Grows b (score_route ctx v p requests sensitive b)
unfolding score_route
score_route-Grows ctx v p requests sensitive b d a k =
    let status = status_of (lookup p ctx.providers) in
    let score = flow_score v status requests sensitive in
    let path = flow_path ctx v p requests score in
    if-Grows b (channel_weight status == 0 || ltb score 150) b
      (add_path
        (add_blast b (codes "provider:" ++ p) (v.data_weight * (if ltb 0 requests then 13 else 10)))
        path)
      (λ _. Grows-refl b)
      (λ low.
        path-blast-Grows b (codes "provider:" ++ p)
          (v.data_weight * (if ltb 0 requests then 13 else 10)) path
          (flow_path-IsBacked ctx v p requests score b d a k
            (weight_positive (channel_weight status) score low)))

add_route-Grows :
    (ctx : Context) (v : AgentView) (p : Text) (b : Builder)
    → All (Knows b) (v.agent_id ∷ v.data_id ∷ [])
    → Grows b (add_route ctx v p b)
unfolding add_route add_edge provider_node
add_route-Grows ctx v p b h =
    let n = provider_node ctx p (or_status (lookup p ctx.overrides) unknown) in
    let id = codes "provider:" ++ p in
    let flow = or_no_flow (flow_of ctx.flows v.name p) in
    let b' = add_edge (push b n) v.agent_id id (codes "routes-to") (ltb 0 (flow.0)) in
    let g = push-Grows b n in
    let known = push-Knows b n in
    let agent = g.keeps v.agent_id (h.0) in
    Grows-trans b b' (score_route ctx v p (flow.0) (flow.1) b')
      (push-edge-Grows b (push b n) v.agent_id id (codes "routes-to") (ltb 0 (flow.0)) g agent
        known)
      (score_route-Grows ctx v p (flow.0) (flow.1) b' (g.keeps v.data_id (h.1.0)) agent known)

start_agent-Grows : (v : AgentView) (b : Builder) → Grows b (start_agent v b)
unfolding start_agent
start_agent-Grows v b =
    let b1 = push b (agent_node v) in
    let b2 = push b1 (data_node v) in
    let g = push-Grows b1 (data_node v) in
    push-edge-Grows b b2 v.data_id v.agent_id (codes "handles") false
      (Grows-trans b b1 b2 (push-Grows b (agent_node v)) g) (push-Knows b1 (data_node v))
      (g.keeps v.agent_id (push-Knows b (agent_node v)))

start_agent-Knows :
    (v : AgentView) (b : Builder)
    → Knows (start_agent v b) v.agent_id × Knows (start_agent v b) v.data_id
unfolding start_agent add_edge
start_agent-Knows v b =
    let b1 = push b (agent_node v) in
    (
      (push-Grows b1 (data_node v)).keeps v.agent_id (push-Knows b (agent_node v)),
      push-Knows b1 (data_node v),
    )

pub All-const : {A : Type 0} (P : Type 0) (xs : List A) → P → All (λ x. P) xs
All-const P [] p = tt
All-const P (x ∷ xs) p = (p, All-const P xs p)

-- The loops over the identities and the providers, for any view of an agent.
loops-Grows :
    (ctx : Context) (v : AgentView) (providers : List Text) (b : Builder)
    → Knows b v.agent_id
    → Knows b v.data_id
    → All (λ i. Knows b (identity_id i.label)) ctx.identities
    → Grows b (each (add_route ctx v) providers (each (add_access v) ctx.identities b))
loops-Grows ctx v providers b a d h =
    let b' = each (add_access v) ctx.identities b in
    let g : Grows b b' =
      each-Grows (add_access v) (λ i. identity_id i.label ∷ v.agent_id ∷ v.data_id ∷ [])
        ctx.identities b (λ i c k. add_access-Grows v i c k)
        (All-map (λ i. Knows b (identity_id i.label))
          (λ i. All (Knows b) (identity_id i.label ∷ v.agent_id ∷ v.data_id ∷ [])) ctx.identities
          (λ i k. (k, (a, (d, tt)))) h) in
    Grows-trans b b' (each (add_route ctx v) providers b') g (
      each-Grows (add_route ctx v) (λ p. v.agent_id ∷ v.data_id ∷ []) providers b'
        (λ p c k. add_route-Grows ctx v p c k)
        (All-const (All (Knows b') (v.agent_id ∷ v.data_id ∷ [])) providers
          (g.keeps v.agent_id a, (g.keeps v.data_id d, tt))))

pub add_agent-Grows :
    (ctx : Context) (agent : AgentInput) (b : Builder)
    → All (λ i. Knows b (identity_id i.label)) ctx.identities
    → Grows b (add_agent ctx agent b)
unfolding add_agent
add_agent-Grows ctx agent b h =
    let v = view_of agent in
    let b' = start_agent v b in
    let known = start_agent-Knows v b in
    let g = start_agent-Grows v b in
    Grows-trans b b' (add_agent ctx agent b) g (
      loops-Grows ctx v
        (seen_providers ctx.flows agent.name (providers_for_models agent.allowed_models)) b'
        (known.0) (known.1)
        (All-map (λ i. Knows b (identity_id i.label)) (λ i. Knows b' (identity_id i.label))
          ctx.identities (λ i k. g.keeps (identity_id i.label) k) h))
