-- ===== src/Scanner/Algorithms/Names.antt =====
-- crates/qw-scanner/src/algorithms.rs: what the resolved names are.
use quanta_watch.Prelude.{
  ℕ, ◌≡◌, refl, sym, ap, ◌∙◌, inl, inr, Text, codes, text_eq, trim, trim_start, trim_end, is_space,
  split_on, Bool, true, false, none, some, List, [], ◌∷◌, ◌++◌, All, if◌then◌else◌, Option-cases,
  Bool-cases, arith,
}
use quanta_watch.Scanner.Algorithms.{oids, name_of, is_oid, resolve}

-- A text that resolves to itself.
abbrev pub IsSettled : Text → Type 0
IsSettled t = (resolve t ≡ t) × (is_oid t ≡ false)

names-IsSettled : All (λ e. IsSettled e.1) oids
unfolding resolve is_oid
names-IsSettled = search tt

named-IsSettled :
    (rows : List (Text × Text)) (t name : Text)
    → All (λ e. IsSettled e.1) rows
    → name_of t rows ≡ some name
    → IsSettled name
unfolding name_of
named-IsSettled [] t name h e = cc
named-IsSettled ((oid, n) ∷ rows) t name h e = elim (Bool-cases (text_eq oid t)) [
  | inl hit ↦ let same : n ≡ name = ground arith in rw (sym same) (h.0)
  | inr miss ↦ named-IsSettled rows t name (h.1) (ground arith)
]

trim_start_idem : (s : Text) → trim_start (trim_start s) ≡ trim_start s
unfolding trim_start
trim_start_idem [] = refl
trim_start_idem (c ∷ s) = ground (arith, trim_start_idem s)

-- What trimming the end leaves of a text that starts with no space.
trim_end-head :
    (c : ℕ) (s : Text) → is_space c ≡ false → trim_start (trim_end (c ∷ s)) ≡ trim_end (c ∷ s)
unfolding trim_start trim_end
trim_end-head c s n = ground arith

trim_start-end : (s : Text) → trim_start (trim_end (trim_start s)) ≡ trim_end (trim_start s)
unfolding trim_start trim_end
trim_start-end [] = refl
trim_start-end (c ∷ s) = ground (arith, trim_start-end s, trim_end-head c s)

trim_end_idem : (s : Text) → trim_end (trim_end s) ≡ trim_end s
unfolding trim_end
trim_end_idem [] = refl
trim_end_idem (c ∷ s) = ground (arith, trim_end_idem s)

trim_idem : (s : Text) → trim (trim s) ≡ trim s
unfolding trim
trim_idem s = ap trim_end (trim_start-end s) ∙ trim_end_idem (trim_start s)

trim_end-closed : (s : Text) → trim_end (s ++ codes ")") ≡ s ++ codes ")"
unfolding trim_end
trim_end-closed [] = refl
trim_end-closed (c ∷ []) = refl
trim_end-closed (c ∷ d ∷ s) = ground (arith, trim_end-closed (d ∷ s))

-- An identifier that no name is known for, as it is reported.
abbrev flagged : Text → Text
flagged t = codes "unknown (" ++ (t ++ codes ")")

flagged-trimmed : (t : Text) → trim (flagged t) ≡ flagged t
unfolding trim trim_start
flagged-trimmed t = trim_end-closed (codes "unknown (" ++ t)

flagged-no_oid : (t : Text) → is_oid (flagged t) ≡ false
unfolding is_oid split_on
flagged-no_oid t = ground arith

flagged-unnamed : (t : Text) → name_of (flagged t) oids ≡ none
unfolding name_of text_eq
flagged-unnamed t = refl

resolve-named : (raw name : Text) → name_of (trim raw) oids ≡ some name → resolve raw ≡ name
unfolding resolve
resolve-named raw name e = rw (e, resolve) refl

resolve-unnamed :
    (raw : Text)
    → name_of (trim raw) oids ≡ none
    → resolve raw ≡ (if is_oid (trim raw) then flagged (trim raw) else trim raw)
unfolding resolve
resolve-unnamed raw e = rw (e, resolve) refl

if-true {ℓ} : {A : Type ℓ} (b : Bool) (x y : A) → b ≡ true → (if b then x else y) ≡ x
if-true b x y e = rw e refl

if-false {ℓ} : {A : Type ℓ} (b : Bool) (x y : A) → b ≡ false → (if b then x else y) ≡ y
if-false b x y e = rw e refl

plain-IsSettled : (t : Text) → trim t ≡ t → name_of t oids ≡ none → is_oid t ≡ false → IsSettled t
plain-IsSettled t trimmed unnamed no_oid = (
  resolve-unnamed t (ap (λ z. name_of z oids) trimmed ∙ unnamed)
      ∙ (if-false (is_oid (trim t)) (flagged (trim t)) (trim t) (ap is_oid trimmed ∙ no_oid)
          ∙ trimmed),
  no_oid,
)

IsSettled-along : (a b : Text) → a ≡ b → IsSettled b → IsSettled a
IsSettled-along a b e h = (ap resolve e ∙ (h.0 ∙ sym e), ap is_oid e ∙ h.1)

-- What resolving gives is no bare identifier: it is a name of the table, or a text that is none, or it
-- says that the identifier is unknown. Resolving it again changes nothing.
pub resolve-IsSettled : (raw : Text) → IsSettled (resolve raw)
resolve-IsSettled raw =
    let t = trim raw in
    elim (Option-cases (name_of t oids)) [
      | inr (name, e) ↦
          IsSettled-along (resolve raw) name (resolve-named raw name e)
            (named-IsSettled oids t name names-IsSettled e)
      | inl e ↦ elim (Bool-cases (is_oid t)) [
        | inl o ↦
            IsSettled-along (resolve raw) (flagged t)
              (resolve-unnamed raw e ∙ if-true (is_oid t) (flagged t) t o)
              (plain-IsSettled (flagged t) (flagged-trimmed t) (flagged-unnamed t)
                (flagged-no_oid t))
        | inr o ↦
            IsSettled-along (resolve raw) t
              (resolve-unnamed raw e ∙ if-false (is_oid t) (flagged t) t o)
              (plain-IsSettled t (trim_idem raw) e o)
      ]
    ]
