-- ===== src/Crypto/Merkle/Inclusion.antt =====
-- crates/qw-crypto/src/merkle.rs: a proof made for a leaf in range is found, and it verifies.
use native.Mathlib.Nat.{le_refl}
use quanta_watch.Prelude.{
  ℕ, zero, suc, ◌+◌, ◌*◌, ◌/◌, ◌≤◌, ◌<◌, ◌≡◌, refl, Text, not, true, some, List, [], ◌∷◌, length,
  get_elem?, get_elem?-some, get_elem?-some_lt, text_eq_iff, arith,
}
use quanta_watch.Crypto.Merkle.{
  ProofNode, MerkleProof, is_even, sibling_index, next_level, climb, compute_root, proof_loop,
  compute_proof, fold_node, fold_path, verify_proof,
}

sibling_index-suc-suc :
    (i n : ℕ) → sibling_index (suc (suc i)) (suc (suc n)) ≡ suc (suc (sibling_index i n))
unfolding sibling_index
sibling_index-suc-suc i n = ground arith

is_even-suc-suc : (i : ℕ) → is_even (suc (suc i)) ≡ is_even i
unfolding is_even
is_even-suc-suc i = ground arith

half-suc-suc : (i : ℕ) → suc (suc i) / 2 ≡ suc (i / 2)
half-suc-suc i = omega arith

sibling_index-zero : (n : ℕ) → sibling_index 0 (suc (suc n)) ≡ 1
unfolding sibling_index
sibling_index-zero n = ground arith

sibling_index-lt : (i n : ℕ) → i < n → sibling_index i n < n
unfolding sibling_index
sibling_index-lt i n h = ground arith

module _ (sha : Text → Text) where
  pub length-next_level : (l : List Text) → length (next_level sha l) * 2 ≤ length l + 1
  unfolding next_level
  length-next_level [] = omega arith
  length-next_level (a ∷ []) = omega arith
  length-next_level (a ∷ b ∷ rest) = omega (arith, length-next_level rest)

  le-length-next_level : (l : List Text) → length l ≤ length (next_level sha l) * 2
  unfolding next_level
  le-length-next_level [] = omega arith
  le-length-next_level (a ∷ []) = omega arith
  le-length-next_level (a ∷ b ∷ rest) = omega (arith, le-length-next_level rest)

  -- One round of the proof: a digest and its sibling give the digest above.
  get_elem?-next_level :
      (l : List Text) (i : ℕ) (x s : Text)
      → get_elem? l i ≡ some x
      → get_elem? l (sibling_index i (length l)) ≡ some s
      → get_elem? (next_level sha l) (i / 2)
        ≡ some (fold_node sha (record { hash = s; is_left = not (is_even i) }) x)
  unfolding next_level
  get_elem?-next_level [] i x s hx hs = cc
  get_elem?-next_level (a ∷ []) zero x s hx hs = unfold is_even sibling_index in cc
  get_elem?-next_level (a ∷ []) (suc i) x s hx hs = cc
  get_elem?-next_level (a ∷ b ∷ rest) zero x s hx hs =
      let e : some b ≡ some s = rw (sibling_index-zero (length rest)) at hs in unfold is_even in cc
  get_elem?-next_level (a ∷ b ∷ rest) (suc zero) x s hx hs = unfold is_even sibling_index in cc
  get_elem?-next_level (a ∷ b ∷ rest) (suc (suc i)) x s hx hs = rw (half-suc-suc i) (
      rw (is_even-suc-suc i)
        (get_elem?-next_level rest i x s hx (rw (sibling_index-suc-suc i (length rest)) at hs)))

  -- The loop of `compute_proof` on a level that holds a leaf, and the path that it makes.
  proof_loop_verifies :
      (fuel : ℕ) (l : List Text) (i : ℕ) (x : Text)
      → length l ≤ fuel
      → get_elem? l i ≡ some x
      → (path : List ProofNode) × (top : Text) × (proof_loop sha fuel l i ≡ some (path, top ∷ []))
        × (climb sha fuel l ≡ top ∷ [])
        × (fold_path sha path x ≡ top)
  unfolding proof_loop climb fold_path
  proof_loop_verifies fuel [] i x h hx = cc
  proof_loop_verifies zero (a ∷ []) i x h hx = absurd (omega arith)
  proof_loop_verifies (suc fuel) (a ∷ []) zero x h hx = ([], a, refl, refl, cc)
  proof_loop_verifies (suc fuel) (a ∷ []) (suc i) x h hx = cc
  proof_loop_verifies zero (a ∷ b ∷ rest) i x h hx = absurd (omega arith)
  proof_loop_verifies (suc fuel) (a ∷ b ∷ rest) i x h hx =
      let level = a ∷ b ∷ rest in
      let (s, hs) =
        get_elem?-some level (sibling_index i (length level))
          (sibling_index-lt i (length level) (get_elem?-some_lt level i x hx)) in
      let node : ProofNode = record { hash = s; is_left = not (is_even i) } in
      let (path, top, found, climbed, folded) =
        proof_loop_verifies fuel (next_level sha level) (i / 2) (fold_node sha node x)
          (omega (arith, length-next_level level)) (get_elem?-next_level level i x s hx hs) in
      (node ∷ path, top, rw (hs, found), climbed, folded)

pub compute_root_lem :
    (sha : Text → Text) (l : List Text)
    → 0 < length l
    → compute_root sha l ≡ get_elem? (climb sha (length l) l) 0
unfolding compute_root
compute_root_lem sha [] h = absurd (omega arith)
compute_root_lem sha (a ∷ []) h = refl
compute_root_lem sha (a ∷ b ∷ rest) h = refl

-- For a leaf in range `compute_proof` does not panic, and its proof is of that leaf, carries the
-- root that `compute_root` computes, and is accepted by `verify_proof`.
pub compute_proof-verifies :
    (sha : Text → Text) (leaves : List Text) (index : ℕ)
    → index < length leaves
    → (p : MerkleProof) × (compute_proof sha leaves index ≡ some p)
      × (get_elem? leaves index ≡ some p.leaf)
      × (compute_root sha leaves ≡ some p.root)
      × (verify_proof sha p ≡ true)
compute_proof-verifies sha leaves index h =
    let (x, hx) = get_elem?-some leaves index h in
    let (path, top, found, climbed, folded) =
      proof_loop_verifies sha (length leaves) leaves index x (le_refl _) hx in
    (
      record { leaf = x; proof = path; root = top },
      unfold compute_proof in rw (found, hx),
      hx,
      rw (compute_root_lem sha leaves (omega arith)) (rw climbed),
      unfold verify_proof in (text_eq_iff _ _).1 folded,
    )
