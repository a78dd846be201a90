-- ===== src/Crypto/Merkle/Binding.antt =====
-- crates/qw-crypto/src/merkle.rs: what an accepted proof says of its leaf.
use mathlib.Core.Path.{subst}
use quanta_watch.Prelude.{
  ◌≡◌, ◌⊎◌, inl, inr, refl, sym, ◌∙◌, Text, Bool, true, false, List, [], ◌∷◌, ◌++◌, map, length,
  All, text_eq_iff, eq_or_ne, arith, if◌then◌else◌,
}
use quanta_watch.Crypto.Merkle.{ProofNode, MerkleProof, fold_node, fold_path, verify_proof}

-- Two inputs that a hash function does not tell apart.
pub record Collision (sha : Text → Text) : Type 0 where
  pub one : Text
  pub other : Text
  pub differ : ¬ (one ≡ other)
  pub same_hash : sha one ≡ sha other

-- A `[u8; 32]`.
abbrev pub IsDigest : Text → Type 0
IsDigest d = length d ≡ 32

pub record IsWellSized (p : MerkleProof) : Type 0 where
  pub leaf_size : IsDigest p.leaf
  pub node_sizes : All (λ n. IsDigest n.hash) p.proof

-- The sides of a path, which say where in the tree the leaf stands.
abbrev pub sides : List ProofNode → List Bool
sides = map (λ n. n.is_left)

append-cancel : (a b c d : Text) → length a ≡ length c → a ++ b ≡ c ++ d → (a ≡ c) × (b ≡ d)
append-cancel [] b [] d e h = (refl, h)
append-cancel [] b (y ∷ c) d e h = absurd (omega arith)
append-cancel (x ∷ a) b [] d e h = absurd (omega arith)
append-cancel (x ∷ a) b (y ∷ c) d e h =
    let (p, q) = append-cancel a b c d (omega arith) (cc) in (cc (p, the_head), q)
  where
    the_head : x ≡ y
    the_head = cc

-- The input of one round of the hash, by the side of the sibling.
abbrev joined : Bool → Text → Text → Text
joined is_left hash current = if is_left then hash ++ current else current ++ hash

joined-injective :
    (side : Bool) (h k x y : Text)
    → IsDigest h
    → IsDigest k
    → IsDigest x
    → IsDigest y
    → joined side h x ≡ joined side k y
    → x ≡ y
joined-injective true h k x y hh hk hx hy e = (append-cancel h x k y (omega arith) e).1
joined-injective false h k x y hh hk hx hy e = (append-cancel x h y k (omega arith) e).0

module _ (sha : Text → Text) (sha_size : (x : Text) → IsDigest (sha x)) where
  hash-injective : (x y : Text) → sha x ≡ sha y → (x ≡ y) ⊎ Collision sha
  hash-injective x y h = elim (eq_or_ne x y) [
    | inl e ↦ inl e
    | inr n ↦ inr (record { one = x; other = y; differ = n; same_hash = h })
  ]

  -- Equal results of two paths with the same sides come from equal digests, or show a collision.
  fold_path-injective :
      (p q : List ProofNode) (x y : Text)
      → sides p ≡ sides q
      → All (λ n. IsDigest n.hash) p
      → All (λ n. IsDigest n.hash) q
      → IsDigest x
      → IsDigest y
      → fold_path sha p x ≡ fold_path sha q y
      → (x ≡ y) ⊎ Collision sha
  unfolding fold_path
  fold_path-injective [] [] x y s hp hq hx hy e = inl e
  fold_path-injective [] (n ∷ q) x y s hp hq hx hy e = cc
  fold_path-injective (m ∷ p) [] x y s hp hq hx hy e = cc
  fold_path-injective (m ∷ p) (n ∷ q) x y s hp hq hx hy e =
      elim (fold_path-injective p q (fold_node sha m x) (fold_node sha n y) (cc) hp.1 hq.1
        (sha_size _) (sha_size _) e) [
          | inr c ↦ inr c
          | inl same ↦ elim (hash-injective _ _ same) [
            | inr c ↦ inr c
            | inl joins ↦ inl (
                joined-injective n.is_left m.hash n.hash x y hp.0 hq.0 hx hy (
                  subst (λ side. joined side m.hash x ≡ joined n.is_left n.hash y)
                    (same_head m.is_left n.is_left (sides p) (sides q) s) joins))
          ]
        ]
    where
      same_head : (a b : Bool) (r t : List Bool) → a ∷ r ≡ b ∷ t → a ≡ b
      same_head a b r t h = cc

-- Two accepted proofs of one root along the same sides, that is, for the same place in trees of one
-- height, are of the same leaf, unless they show two inputs on which the hash collides.
pub verify_proof-binds :
    (sha : Text → Text) (p q : MerkleProof)
    → ((x : Text) → IsDigest (sha x))
    → IsWellSized p
    → IsWellSized q
    → sides p.proof ≡ sides q.proof
    → p.root ≡ q.root
    → verify_proof sha p ≡ true
    → verify_proof sha q ≡ true
    → (p.leaf ≡ q.leaf) ⊎ Collision sha
unfolding verify_proof
verify_proof-binds sha p q size wp wq s r vp vq =
    fold_path-injective sha size p.proof q.proof p.leaf q.leaf s wp.node_sizes wq.node_sizes
      wp.leaf_size wq.leaf_size ((text_eq_iff _ _).0 vp ∙ r ∙ sym ((text_eq_iff _ _).0 vq))
