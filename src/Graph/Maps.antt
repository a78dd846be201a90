-- ===== src/Graph/Maps.antt =====
-- `BTreeMap` and `BTreeSet` of texts: their entries in order.
use quanta_watch.Prelude.{Text, text_eq, text_ltb, List, [], ◌∷◌, if◌then◌else◌}

unfoldable pub set_insert : Text → List Text → List Text
unfolding text_eq text_ltb
set_insert t [] = t ∷ []
set_insert t (x ∷ set) =
    let rest = set_insert t set in
    if text_eq x t then x ∷ set else if text_ltb t x then t ∷ x ∷ set else x ∷ rest

unfoldable pub map_insert {ℓ} : {V : Type ℓ} → Text → V → List (Text × V) → List (Text × V)
unfolding text_eq text_ltb
map_insert k v [] = (k, v) ∷ []
map_insert k v ((j, w) ∷ rows) =
    let rest = map_insert k v rows in
    if text_eq j k
    then (k, v) ∷ rows
    else if text_ltb k j
    then (k, v) ∷ (j, w) ∷ rows
    else (j, w) ∷ rest
