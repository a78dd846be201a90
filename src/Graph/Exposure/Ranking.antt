-- ===== src/Graph/Exposure/Ranking.antt =====
-- crates/qw-graph/src/lib.rs: the ranked work list.
use native.Mathlib.Nat.{mul-le-mul}
use quanta_watch.Prelude.{
  ap, ℕ, ◌+◌, ◌*◌, ◌/◌, ◌≤◌, ◌<◌, ◌≡◌, ◌⊎◌, refl, inl, inr, Text, text_eq, Bool, true, false, List,
  [], ◌∷◌, All, In, map, if◌then◌else◌, Bool-cases, sort_by, sort_into, insert_by, All-insert_by,
  All-sort_by, In-sort_by, arith,
}
use quanta_watch.Gateway.CryptoPolicy.{PqcStatus}
use quanta_watch.Graph.{AttackPath, channel_weight}
use quanta_watch.Graph.Growth.{All-map}
use quanta_watch.Graph.Exposure.{
  data_values, value_in, data_value_for_label, is_access, reach_of, exploitability_of, EnrichedPath,
  enrich, ranks_before, enrich_paths,
}

-- No row may stand before a row that ranks before it.
abbrev InOrder : List EnrichedPath → Type 0
InOrder [] = Unit {0}
InOrder (x ∷ xs) = All (λ y. ranks_before y x ≡ false) xs × InOrder xs

ranks_before_trans :
    (x y z : EnrichedPath)
    → ranks_before x y ≡ true
    → ranks_before z y ≡ false
    → ranks_before z x ≡ false
ranks_before_trans x y z h k = ground arith

ranks_before-asymmetric : (x y : EnrichedPath) → ranks_before x y ≡ true → ranks_before y x ≡ false
ranks_before-asymmetric x y h = ground arith

insert-InOrder :
    (x : EnrichedPath) (xs : List EnrichedPath) → InOrder xs → InOrder (insert_by ranks_before x xs)
unfolding insert_by
insert-InOrder x [] h = (tt, tt)
insert-InOrder x (y ∷ xs) h = elim (Bool-cases (ranks_before x y)) [
  | inl e ↦ rw e (
    (
      ranks_before-asymmetric x y e,
      All-map (λ z. ranks_before z y ≡ false) (λ z. ranks_before z x ≡ false) xs
          (λ z k. ranks_before_trans x y z e k) (h.0),
    ),
    h,
  )
  | inr e ↦ rw e (
    All-insert_by ranks_before (λ z. ranks_before z y ≡ false) x xs e (h.0),
    insert-InOrder x xs (h.1),
  )
]

sort-InOrder :
    (xs done : List EnrichedPath) → InOrder done → InOrder (sort_into ranks_before xs done)
unfolding sort_into
sort-InOrder [] done h = h
sort-InOrder (x ∷ xs) done h =
    sort-InOrder xs (insert_by ranks_before x done) (insert-InOrder x done h)

-- A row that may stand behind another: it is less exploitable, or as exploitable and scores no higher.
abbrev pub IsBehind : EnrichedPath → EnrichedPath → Type 0
IsBehind x y =
    (y.exploitability < x.exploitability)
    ⊎ ((y.exploitability ≡ x.exploitability) × (y.path.score ≤ x.path.score))

abbrev pub IsRanked : List EnrichedPath → Type 0
IsRanked [] = Unit {0}
IsRanked (x ∷ xs) = All (IsBehind x) xs × IsRanked xs

ranks_before-IsBehind : (x y : EnrichedPath) → ranks_before y x ≡ false → IsBehind x y
ranks_before-IsBehind x y h = ground arith

InOrder-IsRanked : (xs : List EnrichedPath) → InOrder xs → IsRanked xs
InOrder-IsRanked [] h = tt
InOrder-IsRanked (x ∷ xs) h = (
  All-map (λ y. ranks_before y x ≡ false) (IsBehind x) xs (ranks_before-IsBehind x) h.0,
  InOrder-IsRanked xs h.1,
)

-- How many rows a test picks out.
unfoldable pub how_many : (EnrichedPath → Bool) → List EnrichedPath → ℕ
how_many picks [] = 0
how_many picks (x ∷ xs) = (if picks x then 1 else 0) + how_many picks xs

insert-how_many :
    (picks : EnrichedPath → Bool) (x : EnrichedPath) (xs : List EnrichedPath)
    → how_many picks (insert_by ranks_before x xs) ≡ (if picks x then 1 else 0) + how_many picks xs
unfolding how_many insert_by
insert-how_many picks x [] = refl
insert-how_many picks x (y ∷ xs) = elim (Bool-cases (ranks_before x y)) [
  | inl e ↦ rw e refl
  | inr e ↦ rw e (let rest = insert-how_many picks x xs in omega arith)
]

sort-how_many :
    (picks : EnrichedPath → Bool) (xs done : List EnrichedPath)
    → how_many picks (sort_into ranks_before xs done) ≡ how_many picks xs + how_many picks done
unfolding how_many sort_into
sort-how_many picks [] done = omega arith
sort-how_many picks (x ∷ xs) done =
    let rest = sort-how_many picks xs (insert_by ranks_before x done) in
    let put = insert-how_many picks x done in omega arith

value_in-bound :
    (rows : List (Text × ℕ)) (label : Text) → All (λ r. r.1 ≤ 100) rows → value_in rows label ≤ 100
unfolding value_in
value_in-bound [] label h = omega arith
value_in-bound ((name, value) ∷ rows) label h = elim (Bool-cases (text_eq name label)) [
  | inl e ↦ rw e (h.0)
  | inr e ↦ rw e (value_in-bound rows label (h.1))
]

channel_weight-bound : (s : PqcStatus) → channel_weight s ≤ 100
unfolding channel_weight
channel_weight-bound s = ground arith

reach_of-cases : (p : AttackPath) → (reach_of p ≡ 100) ⊎ ((reach_of p ≡ 85) ⊎ (reach_of p ≡ 55))
unfolding reach_of
reach_of-cases p = ground arith

data_value-bound : (label : Text) → data_value_for_label label ≤ 100
unfolding data_value_for_label
data_value-bound label = value_in-bound data_values label (ground arith)

scaled-bound : (r s v : ℕ) → r ≤ 100 → s ≤ 100 → v ≤ 100 → (r * s * v + 5000) / 10_000 ≤ 100
scaled-bound r s v hr hs hv =
    let p : r * s * v ≤ 100 * 100 * 100 = mul-le-mul (mul-le-mul hr hs) hv in omega arith

exploitability_of-bound :
    (p : AttackPath) → ((exploitability_of p).0 ≤ 100) × ((exploitability_of p).1 ≤ 100)
unfolding exploitability_of
exploitability_of-bound p =
    let reach : reach_of p ≤ 100 = ground (arith, reach_of-cases p) in
    let share : (if is_access p then 75 else channel_weight p.channel_pqc) ≤ 100 =
      ground (arith, channel_weight-bound p.channel_pqc) in
    (
      scaled-bound (reach_of p) (if is_access p then 75 else channel_weight p.channel_pqc)
          (data_value_for_label p.data_class) reach share (data_value-bound p.data_class),
      reach,
    )

-- A row of the work list: one of the paths, with its exploitability and its chain, both shares at most
-- a hundred.
abbrev pub IsRow : List AttackPath → EnrichedPath → Type 0
IsRow paths x =
    (p : AttackPath) × In p paths
    × (x ≡ enrich p)
    × (x.exploitability ≤ 100)
    × (x.reachability ≤ 100)

enriched-IsRow :
    (all paths : List AttackPath)
    → ((p : AttackPath) → In p paths → In p all)
    → All (IsRow all) (map enrich paths)
unfolding enrich
enriched-IsRow all [] h = tt
enriched-IsRow all (p ∷ paths) h =
    let bound = exploitability_of-bound p in
    ((p, h p (inl refl), refl, bound.0, bound.1), enriched-IsRow all paths (λ q i. h q (inr i)))

In-map : (p : AttackPath) (paths : List AttackPath) → In p paths → In (enrich p) (map enrich paths)
In-map p [] i = elim i [ ]
In-map p (q ∷ paths) (inl e) = inl (ap enrich e)
In-map p (q ∷ paths) (inr i) = inr (In-map p paths i)

-- The work list has the rows of the paths, each as often as there are paths for it, so that any test
-- picks as many of them before and after the sort; a row has its path's exploitability and
-- reachability, each at most 100; and a row that stands behind another has a lower exploitability, or
-- the same and a score that is no higher.
pub enrich_paths-IsRanked :
    (paths : List AttackPath)
    → (IsRanked (enrich_paths paths))
      × ((All (IsRow paths) (enrich_paths paths))
          × (((p : AttackPath) → In p paths → In (enrich p) (enrich_paths paths))
              × ((picks : EnrichedPath → Bool)
                  → how_many picks (enrich_paths paths) ≡ how_many picks (map enrich paths))))
unfolding enrich_paths sort_by how_many
enrich_paths-IsRanked paths = (
  InOrder-IsRanked _ (sort-InOrder (map enrich paths) [] tt),
  (
    All-sort_by ranks_before (IsRow paths) (map enrich paths)
        (enriched-IsRow paths paths (λ p i. i)),
    (
      λ p i. In-sort_by ranks_before (enrich p) (map enrich paths) (In-map p paths i),
      λ picks. let n = sort-how_many picks (map enrich paths) [] in omega arith,
    ),
  ),
)
