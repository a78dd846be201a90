-- ===== src/Tests/Crypto.antt =====
-- crates/qw-crypto/src/merkle.rs on small trees, with a stand-in for the hash: the length of its
-- input, padded to 32 bytes.
use quanta_watch.Prelude.{
  ℕ, ◌≡◌, ◌⊎◌, refl, Text, text_eq, true, false, some, List, [], ◌∷◌, ◌++◌, length, replicate,
  get_elem?, arith,
}
use quanta_watch.Crypto.Merkle.{MerkleProof, compute_root, compute_proof, verify_proof}
use quanta_watch.Crypto.Merkle.Inclusion.{compute_proof-verifies}
use quanta_watch.Crypto.Merkle.Padding.{compute_root-double_last}
use quanta_watch.Crypto.Merkle.Binding.{Collision, verify_proof-binds}

abbrev sha : Text → Text
sha x = length x ∷ replicate 31 0

abbrev leaf : ℕ → Text
leaf n = n ∷ replicate 31 7

abbrev three : List Text
three = leaf 1 ∷ leaf 2 ∷ leaf 3 ∷ []

compute_proof-verifies_example :
    (p : MerkleProof) × (compute_proof sha three 2 ≡ some p)
    × (get_elem? three 2 ≡ some p.leaf)
    × (compute_root sha three ≡ some p.root)
    × (verify_proof sha p ≡ true)
compute_proof-verifies_example = compute_proof-verifies sha three 2 (omega arith)

compute_root-double_last_example :
    compute_root sha (leaf 1 ∷ leaf 2 ∷ leaf 3 ∷ leaf 3 ∷ []) ≡ compute_root sha three
compute_root-double_last_example = compute_root-double_last sha (leaf 1) (leaf 2) (leaf 3 ∷ []) refl

abbrev proof_of_one : MerkleProof
proof_of_one = record {
  leaf = leaf 1;
  proof = record { hash = leaf 2; is_left = false } ∷ [];
  root = sha (leaf 1 ++ leaf 2);
}

proof_of_one-accepted : verify_proof sha proof_of_one ≡ true
unfolding verify_proof text_eq
proof_of_one-accepted = refl

verify_proof-binds_example : (leaf 1 ≡ leaf 1) ⊎ Collision sha
verify_proof-binds_example =
    verify_proof-binds sha proof_of_one proof_of_one (λ x. refl)
      (record { leaf_size = refl; node_sizes = (refl, tt) })
      (record { leaf_size = refl; node_sizes = (refl, tt) }) refl refl proof_of_one-accepted
      proof_of_one-accepted
