-- ===== src/Graph/WellFormed.antt =====
-- crates/qw-graph/src/lib.rs: the graph that `build_graph` returns.
use quanta_watch.Prelude.{
  ℕ, ◌≤◌, ◌≡◌, refl, ap, ◌∙◌, Text, text_eq, true, not, ◌&&◌, ◌||◌, List, [], ◌∷◌, All, Bool-cases,
  inl, inr, sort_by, sort_into, insert_by, All-insert_by, All-sort_by, arith,
}
use quanta_watch.Gateway.CryptoPolicy.{PqcStatus}
use quanta_watch.Graph.{Node, AttackPath, GraphInputs, Graph}
use quanta_watch.Graph.Build.{Builder, has_node}
use quanta_watch.Graph.Targets.{
  context_of, add_all, empty_builder, fold_blast, scores_higher, build_graph,
}
use quanta_watch.Graph.Growth.{ids_distinct, IsBacked, IsClosed, All-map}
use quanta_watch.Graph.Closed.{add_all-Grows}

-- By falling score.
abbrev pub IsFalling : List AttackPath → Type 0
IsFalling [] = Unit {0}
IsFalling (p ∷ ps) = All (λ q. q.score ≤ p.score) ps × IsFalling ps

insert-IsFalling :
    (p : AttackPath) (ps : List AttackPath)
    → IsFalling ps
    → IsFalling (insert_by scores_higher p ps)
unfolding insert_by
insert-IsFalling p [] h = (tt, tt)
insert-IsFalling p (q ∷ ps) h = elim (Bool-cases (scores_higher p q)) [
  | inl e ↦ rw e (
    (
      ground arith,
      All-map (λ r. r.score ≤ q.score) (λ r. r.score ≤ p.score) ps (λ r k. ground arith) (h.0),
    ),
    h,
  )
  | inr e ↦ rw e (
    All-insert_by scores_higher (λ r. r.score ≤ q.score) p ps (ground arith) (h.0),
    insert-IsFalling p ps (h.1),
  )
]

sort-IsFalling :
    (ps done : List AttackPath) → IsFalling done → IsFalling (sort_into scores_higher ps done)
unfolding sort_into
sort-IsFalling [] done h = h
sort-IsFalling (p ∷ ps) done h =
    sort-IsFalling ps (insert_by scores_higher p done) (insert-IsFalling p done h)

has_node-fold :
    (blast : List (Text × ℕ)) (nodes : List Node) (id : Text)
    → has_node (fold_blast blast nodes) id ≡ has_node nodes id
unfolding has_node fold_blast
has_node-fold blast [] id = refl
has_node-fold blast (n ∷ nodes) id = ap (λ z. text_eq n.id id || z) (has_node-fold blast nodes id)

ids_distinct-fold :
    (blast : List (Text × ℕ)) (nodes : List Node)
    → ids_distinct (fold_blast blast nodes) ≡ ids_distinct nodes
unfolding fold_blast
ids_distinct-fold blast [] = refl
ids_distinct-fold blast (n ∷ nodes) =
    ap (λ z. not z && ids_distinct (fold_blast blast nodes)) (has_node-fold blast nodes n.id)
    ∙ ap (λ z. not (has_node nodes n.id) && z) (ids_distinct-fold blast nodes)

-- A graph without loose ends.
pub record IsWellFormed (g : Graph) : Type 0 where
  pub unique : ids_distinct g.nodes ≡ true
  pub joined :
      All (λ e. (has_node g.nodes e.source ≡ true) × (has_node g.nodes e.target ≡ true)) g.edges
  pub backed : All (IsBacked g.nodes) g.paths
  pub falling : IsFalling g.paths

empty-IsClosed : IsClosed empty_builder
empty-IsClosed = record { unique = refl; joined = tt; backed = tt }

folded-IsWellFormed :
    (b : Builder)
    → IsClosed b
    → IsWellFormed (record {
      nodes = fold_blast b.blast b.nodes;
      edges = b.edges;
      paths = sort_by scores_higher b.paths;
    })
unfolding sort_by
folded-IsWellFormed b c =
    let kept : (id : Text)
        → has_node b.nodes id ≡ true
        → has_node (fold_blast b.blast b.nodes) id ≡ true =
      λ id h. has_node-fold b.blast b.nodes id ∙ h in
    record {
      unique = ids_distinct-fold b.blast b.nodes ∙ c.unique;
      joined =
          All-map (λ e. (has_node b.nodes e.source ≡ true) × (has_node b.nodes e.target ≡ true))
            (λ e.
              (has_node (fold_blast b.blast b.nodes) e.source ≡ true)
              × (has_node (fold_blast b.blast b.nodes) e.target ≡ true))
            b.edges (λ e h. (kept e.source (h.0), kept e.target (h.1))) c.joined;
      backed = All-sort_by scores_higher (IsBacked (fold_blast b.blast b.nodes)) b.paths (
          All-map (IsBacked b.nodes) (IsBacked (fold_blast b.blast b.nodes)) b.paths
            (λ p h. (
              All-map (λ id. has_node b.nodes id ≡ true)
                  (λ id. has_node (fold_blast b.blast b.nodes) id ≡ true) p.node_ids kept (h.0),
              h.1,
            ))
            c.backed);
      falling = sort-IsFalling b.paths [] tt;
    }

-- In the graph that is built no id is there twice, every edge joins two of its nodes, every attack path
-- runs over its nodes by a channel that is not PQC-ready, and the paths stand by falling score.
pub build_graph-IsWellFormed :
    (inputs : GraphInputs) (overrides : List (Text × PqcStatus))
    → IsWellFormed (build_graph inputs overrides)
unfolding build_graph context_of
build_graph-IsWellFormed inputs overrides =
    folded-IsWellFormed (add_all (context_of inputs overrides) inputs empty_builder) (
      (add_all-Grows (context_of inputs overrides) inputs empty_builder refl).closed empty-IsClosed)
