-- ===== src/Crypto/Merkle/Padding.antt =====
-- crates/qw-crypto/src/merkle.rs: what the doubling of an odd last leaf does to the root.
use native.Mathlib.Nat.{le_refl}
use quanta_watch.Prelude.{
  ℕ, zero, suc, ◌%◌, ◌≡◌, refl, ap, Text, List, [], ◌∷◌, ◌++◌, length, length-append, get_elem?,
  ◌≤◌, arith,
}
use quanta_watch.Crypto.Merkle.Inclusion.{length-next_level, compute_root_lem}
use quanta_watch.Crypto.Merkle.{next_level, climb, compute_root}

-- The last element of a list that is not empty.
abbrev pub last_of {ℓ} : {A : Type ℓ} → A → List A → A
last_of a [] = a
last_of a (b ∷ rest) = last_of b rest

module _ (sha : Text → Text) where
  next_level-double_last :
      (a : Text) (rest : List Text)
      → length rest % 2 ≡ 0
      → next_level sha ((a ∷ rest) ++ last_of a rest ∷ []) ≡ next_level sha (a ∷ rest)
  unfolding next_level
  next_level-double_last a [] h = refl
  next_level-double_last a (b ∷ []) h = absurd (omega arith)
  next_level-double_last a (b ∷ c ∷ rest) h =
      ap (λ l. sha (a ++ b) ∷ l) (next_level-double_last c rest (omega arith))

  -- More fuel than the level is long changes nothing.
  climb_fuel :
      (m n : ℕ) (l : List Text) → length l ≤ m → length l ≤ n → climb sha m l ≡ climb sha n l
  unfolding climb
  climb_fuel zero zero l hm hn = refl
  climb_fuel (suc m) zero [] hm hn = refl
  climb_fuel zero (suc n) [] hm hn = refl
  climb_fuel (suc m) zero (a ∷ rest) hm hn = absurd (omega arith)
  climb_fuel zero (suc n) (a ∷ rest) hm hn = absurd (omega arith)
  climb_fuel (suc m) (suc n) [] hm hn = refl
  climb_fuel (suc m) (suc n) (a ∷ []) hm hn = refl
  climb_fuel (suc m) (suc n) (a ∷ b ∷ rest) hm hn =
      climb_fuel m n (next_level sha (a ∷ b ∷ rest))
        (omega (arith, length-next_level sha (a ∷ b ∷ rest)))
        (omega (arith, length-next_level sha (a ∷ b ∷ rest)))

  climb-double_last :
      (m : ℕ) (a b : Text) (rest : List Text)
      → length rest % 2 ≡ 1
      → climb sha (suc m) ((a ∷ b ∷ rest) ++ last_of b rest ∷ []) ≡ climb sha (suc m) (a ∷ b ∷ rest)
  unfolding climb
  climb-double_last m a b rest h =
      ap (climb sha m) (next_level-double_last a (b ∷ rest) (omega arith))

-- Appending a copy of its last leaf to a batch of odd length, three or more, leaves the Merkle root
-- as it was: the root does not tell such a batch from the longer one.
pub compute_root-double_last :
    (sha : Text → Text) (a b : Text) (rest : List Text)
    → length rest % 2 ≡ 1
    → compute_root sha ((a ∷ b ∷ rest) ++ last_of b rest ∷ []) ≡ compute_root sha (a ∷ b ∷ rest)
compute_root-double_last sha a b rest h =
    let l = a ∷ b ∷ rest in
    let e = length-append {0} rest (last_of b rest ∷ []) in
    rw (compute_root_lem sha (l ++ last_of b rest ∷ []) (omega arith)) (
      rw (compute_root_lem sha l (omega arith)) (
        ap (λ top. get_elem? top 0)
          (rw
            (climb_fuel sha (length l) (length (l ++ last_of b rest ∷ [])) l (le_refl _)
              (omega (arith, e)))
            (climb-double_last sha _ a b rest h))))
