-- ===== src/Crypto/Merkle.antt =====
-- crates/qw-crypto/src/merkle.rs: the Merkle tree of audit batches and checkpoints.
pub mod Inclusion
pub mod Binding
pub mod Padding
use quanta_watch.Prelude.{
  ℕ, zero, suc, ◌+◌, ◌-◌, ◌/◌, ◌%◌, Text, Bool, not, Option, none, some, List, [], ◌∷◌, ◌++◌,
  length, get_elem?, replicate, ltb, ◌==◌, if◌then◌else◌, ◌>>=◌, text_eq,
}

-- A node of a proof path: the sibling's digest, and whether it stands left of the running digest.
pub record ProofNode : Type 0 where
  pub hash : Text
  pub is_left : Bool

pub record MerkleProof : Type 0 where
  pub leaf : Text
  pub proof : List ProofNode
  pub root : Text

unfoldable pub is_even : ℕ → Bool
is_even i = i % 2 == 0

-- The sibling of `idx` in a level of `len` digests; the last of an odd level is its own sibling.
unfoldable pub sibling_index : ℕ → ℕ → ℕ
unfolding is_even
sibling_index idx len =
    if is_even idx then (if ltb (idx + 1) len then idx + 1 else idx) else idx - 1

-- `sha` is `sha3_256`, of a library; it is a parameter.
module _ (sha : Text → Text) where
  -- One level up: the digests of the chunks of two, a lone last digest doubled.
  unfoldable pub next_level : List Text → List Text
  next_level [] = []
  next_level (a ∷ []) = sha (a ++ a) ∷ []
  next_level (a ∷ b ∷ rest) = sha (a ++ b) ∷ next_level rest

  -- `while current_level.len() > 1`, with fuel.
  unfoldable pub climb : ℕ → List Text → List Text
  unfolding next_level
  climb zero level = level
  climb (suc fuel) [] = []
  climb (suc fuel) (a ∷ []) = a ∷ []
  climb (suc fuel) (a ∷ b ∷ rest) = climb fuel (next_level (a ∷ b ∷ rest))

  -- `none` is a panic by an index out of range.
  unfoldable pub compute_root : List Text → Option Text
  unfolding climb
  compute_root [] = some (replicate 32 0)
  compute_root (a ∷ []) = some a
  compute_root (a ∷ b ∷ rest) = get_elem? (climb (length (a ∷ b ∷ rest)) (a ∷ b ∷ rest)) 0

  -- The loop of `compute_proof`: the path, and the last level; `none` is a panic, or no fuel left.
  unfoldable pub proof_loop : ℕ → List Text → ℕ → Option (List ProofNode × List Text)
  unfolding is_even sibling_index next_level
  proof_loop fuel [] idx = some ([], [])
  proof_loop fuel (a ∷ []) idx = some ([], a ∷ [])
  proof_loop zero (a ∷ b ∷ rest) idx = none
  proof_loop (suc fuel) (a ∷ b ∷ rest) idx =
      let level = a ∷ b ∷ rest in
      let later = proof_loop fuel (next_level level) (idx / 2) in
      do
        s ← get_elem? level (sibling_index idx (length level))
        (path, top) ← later
        some (record { hash = s; is_left = not (is_even idx) } ∷ path, top)

  unfoldable pub compute_proof : List Text → ℕ → Option MerkleProof
  unfolding proof_loop
  compute_proof leaves index = do
    (path, top) ← proof_loop (length leaves) leaves index
    l ← get_elem? leaves index
    r ← get_elem? top 0
    some (record { leaf = l; proof = path; root = r })

  -- One round of `verify_proof`.
  abbrev pub fold_node : ProofNode → Text → Text
  fold_node node current = sha (if node.is_left then node.hash ++ current else current ++ node.hash)

  unfoldable pub fold_path : List ProofNode → Text → Text
  fold_path [] current = current
  fold_path (node ∷ path) current = fold_path path (fold_node node current)

  unfoldable pub verify_proof : MerkleProof → Bool
  unfolding fold_path
  verify_proof p = text_eq (fold_path p.proof p.leaf) p.root
