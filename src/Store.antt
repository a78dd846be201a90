-- ===== src/Store.antt =====
-- crates/qw-store/src/lib.rs: a table with a text as its primary key, as the rows that are in it.
use quanta_watch.Prelude.{
  Text, text_eq, text_eq_iff, text_eq_refl, ◌≡◌, refl, ◌∙◌, Option, none, some, List, [], ◌∷◌,
  false, if◌then◌else◌, arith,
}

module _ {ℓ} {V : Type ℓ} where
  -- `SELECT`
  unfoldable pub lookup : Text → List (Text × V) → Option V
  unfolding text_eq
  lookup k [] = none
  lookup k ((j, v) ∷ rows) = let rest = lookup k rows in if text_eq j k then some v else rest

  -- `DELETE`
  unfoldable pub erase : Text → List (Text × V) → List (Text × V)
  unfolding text_eq
  erase k [] = []
  erase k ((j, v) ∷ rows) = let rest = erase k rows in if text_eq j k then rest else (j, v) ∷ rest

  -- `INSERT OR REPLACE`
  unfoldable pub insert : Text → V → List (Text × V) → List (Text × V)
  unfolding erase
  insert k v rows = (k, v) ∷ erase k rows

  pub lookup-erase :
      (k j : Text) (rows : List (Text × V))
      → lookup j (erase k rows) ≡ (if text_eq k j then none else lookup j rows)
  unfolding lookup erase
  lookup-erase k j [] = ground arith
  lookup-erase k j ((i, v) ∷ rows) =
      ground (arith, lookup-erase k j rows, text_eq_iff k j, text_eq_iff i k, text_eq_iff i j)

  pub lookup-insert :
      (k j : Text) (v : V) (rows : List (Text × V))
      → lookup j (insert k v rows) ≡ (if text_eq k j then some v else lookup j rows)
  unfolding lookup insert
  lookup-insert k j v rows = ground (arith, lookup-erase k j rows)

  pub lookup-erase_self : (k : Text) (rows : List (Text × V)) → lookup k (erase k rows) ≡ none
  lookup-erase_self k rows = lookup-erase k k rows ∙ (rw (text_eq_refl k) refl)

  pub lookup-insert_self :
      (k : Text) (v : V) (rows : List (Text × V)) → lookup k (insert k v rows) ≡ some v
  lookup-insert_self k v rows = lookup-insert k k v rows ∙ (rw (text_eq_refl k) refl)

  pub lookup-insert_ne :
      (k j : Text) (v : V) (rows : List (Text × V))
      → text_eq k j ≡ false
      → lookup j (insert k v rows) ≡ lookup j rows
  lookup-insert_ne k j v rows n = lookup-insert k j v rows ∙ (rw n refl)

  pub lookup-erase_ne :
      (k j : Text) (rows : List (Text × V))
      → text_eq k j ≡ false
      → lookup j (erase k rows) ≡ lookup j rows
  lookup-erase_ne k j rows n = lookup-erase k j rows ∙ (rw n refl)
