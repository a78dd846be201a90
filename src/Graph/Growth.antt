-- ===== src/Graph/Growth.antt =====
-- crates/qw-graph/src/lib.rs: what the steps of `build_graph` keep. Edges and paths are between nodes
-- that are there, ids are unique, and a path is over a channel that can be attacked.
use quanta_watch.Prelude.{
  ℕ, ◌<◌, ◌≡◌, refl, ◌∙◌, inl, inr, Text, text_eq, text_eq_iff, text_eq_refl, Bool, true, false,
  not, ◌&&◌, ◌||◌, List, [], ◌∷◌, ◌++◌, All, Bool-cases, arith,
}
use quanta_watch.Graph.{Node, AttackPath, channel_weight}
use quanta_watch.Graph.Build.{Builder, has_node, push, add_edge, add_path, add_blast, each}

abbrev pub Knows : Builder → Text → Type 0
Knows b id = has_node b.nodes id ≡ true

abbrev pub ids_distinct : List Node → Bool
ids_distinct [] = true
ids_distinct (n ∷ nodes) = not (has_node nodes n.id) && ids_distinct nodes

-- A path over nodes of the graph, by a channel that is not PQC-ready.
abbrev pub IsBacked : List Node → AttackPath → Type 0
IsBacked nodes p =
    All (λ id. has_node nodes id ≡ true) p.node_ids × (0 < channel_weight p.channel_pqc)

pub record IsClosed (b : Builder) : Type 0 where
  pub unique : ids_distinct b.nodes ≡ true
  pub joined :
      All (λ e. (has_node b.nodes e.source ≡ true) × (has_node b.nodes e.target ≡ true)) b.edges
  pub backed : All (IsBacked b.nodes) b.paths

-- A step that keeps the graph closed and its nodes in it.
pub record Grows (b b' : Builder) : Type 0 where
  pub closed : IsClosed b → IsClosed b'
  pub keeps : (id : Text) → Knows b id → Knows b' id

module _ {A : Type 0} where
  pub All-map : (P Q : A → Type 0) (xs : List A) → ((x : A) → P x → Q x) → All P xs → All Q xs
  All-map P Q [] f h = tt
  All-map P Q (x ∷ xs) f h = (f x (h.0), All-map P Q xs f (h.1))

  pub All-snoc : (P : A → Type 0) (xs : List A) (x : A) → All P xs → P x → All P (xs ++ x ∷ [])
  All-snoc P [] x h p = (p, tt)
  All-snoc P (y ∷ xs) x h p = (h.0, All-snoc P xs x (h.1) p)

has_node-snoc :
    (nodes : List Node) (n : Node) (id : Text)
    → has_node (nodes ++ n ∷ []) id ≡ (has_node nodes id || text_eq n.id id)
unfolding has_node
has_node-snoc [] n id = ground arith
has_node-snoc (m ∷ nodes) n id = ground (arith, has_node-snoc nodes n id)

ids_distinct-snoc :
    (nodes : List Node) (n : Node)
    → ids_distinct nodes ≡ true
    → has_node nodes n.id ≡ false
    → ids_distinct (nodes ++ n ∷ []) ≡ true
unfolding has_node
ids_distinct-snoc [] n h k = refl
ids_distinct-snoc (m ∷ nodes) n h k =
    let rest = ids_distinct-snoc nodes n in
    let found = has_node-snoc nodes n m.id in
    ground (arith, rest, found, text_eq_iff n.id m.id, text_eq_refl m.id, text_eq_iff m.id n.id)

pub Grows-refl : (b : Builder) → Grows b b
Grows-refl b = record { closed = λ c. c; keeps = λ id h. h }

pub Grows-trans : (b c d : Builder) → Grows b c → Grows c d → Grows b d
Grows-trans b c d g h = record {
  closed = λ x. h.closed (g.closed x);
  keeps = λ id x. h.keeps id (g.keeps id x);
}

-- More nodes, the same edges and paths.
wider-IsClosed :
    (b : Builder) (nodes : List Node)
    → ids_distinct nodes ≡ true
    → ((id : Text) → has_node b.nodes id ≡ true → has_node nodes id ≡ true)
    → IsClosed b
    → IsClosed (record b { nodes = nodes })
wider-IsClosed b nodes u k c = record {
  unique = u;
  joined = All-map _ _ b.edges (λ e h. (k e.source (h.0), k e.target (h.1))) c.joined;
  backed = All-map _ _ b.paths (λ p h. (All-map _ _ p.node_ids k (h.0), h.1)) c.backed;
}

pub push-Grows : (b : Builder) (n : Node) → Grows b (push b n)
unfolding push
push-Grows b n = elim (Bool-cases (has_node b.nodes n.id)) [
  | inl e ↦ rw e (Grows-refl b)
  | inr e ↦
      let kept : (id : Text) → has_node b.nodes id ≡ true → has_node (b.nodes ++ n ∷ []) id ≡ true =
        λ id h. has_node-snoc b.nodes n id ∙ (rw h refl) in
      rw e (record {
        closed = λ c.
            wider-IsClosed b (b.nodes ++ n ∷ []) (ids_distinct-snoc b.nodes n c.unique e) kept c;
        keeps = kept;
      })
]

pub push-Knows : (b : Builder) (n : Node) → Knows (push b n) n.id
unfolding push
push-Knows b n = elim (Bool-cases (has_node b.nodes n.id)) [
  | inl e ↦ rw e e
  | inr e ↦ rw e (has_node-snoc b.nodes n n.id ∙ (rw e (text_eq_refl n.id)))
]

pub edge-Grows :
    (b : Builder) (source target kind : Text) (observed : Bool)
    → Knows b source
    → Knows b target
    → Grows b (add_edge b source target kind observed)
unfolding add_edge
edge-Grows b source target kind observed s t = record {
  closed = λ c. record {
    unique = c.unique;
    joined = All-snoc _ b.edges _ c.joined (s, t);
    backed = c.backed;
  };
  keeps = λ id h. h;
}

pub path-Grows : (b : Builder) (p : AttackPath) → IsBacked b.nodes p → Grows b (add_path b p)
unfolding add_path
path-Grows b p h = record {
  closed = λ c. record {
    unique = c.unique;
    joined = c.joined;
    backed = All-snoc _ b.paths p c.backed h;
  };
  keeps = λ id k. k;
}

pub blast-Grows : (b : Builder) (id : Text) (amount : ℕ) → Grows b (add_blast b id amount)
unfolding add_blast
blast-Grows b id amount = record {
  closed = λ c. record { unique = c.unique; joined = c.joined; backed = c.backed };
  keeps = λ other k. k;
}

-- A loop whose body needs some nodes for each element.
pub each-Grows :
    {A : Type 0} (step : A → Builder → Builder) (need : A → List Text) (xs : List A) (b : Builder)
    → ((x : A) (c : Builder) → All (Knows c) (need x) → Grows c (step x c))
    → All (λ x. All (Knows b) (need x)) xs
    → Grows b (each step xs b)
unfolding each
each-Grows step need [] b body h = Grows-refl b
each-Grows step need (x ∷ xs) b body h =
    let first = body x b (h.0) in
    Grows-trans b (step x b) (each step xs (step x b)) first (
      each-Grows step need xs (step x b) body
        (All-map _ _ xs (λ y k. All-map _ _ (need y) first.keeps k) (h.1)))
