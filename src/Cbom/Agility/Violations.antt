-- ===== src/Cbom/Agility/Violations.antt =====
-- crates/qw-cbom/src/agility.rs: what the violations of a policy are.
use quanta_watch.Prelude.{
  ℕ, ◌≡◌, ◌⊎◌, ◌↔◌, refl, sym, ap, ◌∙◌, inl, inr, Text, codes, text_eq_iff, text_eq_refl, has_item,
  Bool, true, false, not, ◌&&◌, List, [], ◌∷◌, In, map, length, Bool-cases, arith,
}
use quanta_watch.Scanner.{FindingRecord}
use quanta_watch.Cbom.Agility.{CryptoAgilityPolicy, AssetContext, Violation, PolicyResult, is_empty}
use quanta_watch.Cbom.Agility.Evaluation.{
  fingerprint, violation, violates, collect, evaluate_policy, fingerprints,
}

-- No text of the list is there twice.
unfoldable pub all_distinct : List Text → Bool
unfolding has_item
all_distinct [] = true
all_distinct (t ∷ ts) = not (has_item ts t) && all_distinct ts

abbrev prints : List Violation → List Text
prints = map (λ v. v.fingerprint)

List-cases : {A : Type 0} (l : List A) → (l ≡ []) ⊎ ((x : A) × (xs : List A) × (l ≡ x ∷ xs))
List-cases [] = inl refl
List-cases (x ∷ xs) = inr (x, xs, refl)

-- The two ways of one round of the loop.
collect-cons :
    (policy : CryptoAgilityPolicy) (assets : List AssetContext) (f : FindingRecord)
    (fs : List FindingRecord) (seen : List Text)
    → ((violates policy assets f ≡ true)
        × ((has_item seen (fingerprint f) ≡ false)
            × (collect policy assets (f ∷ fs) seen
                ≡ violation f ∷ collect policy assets fs (fingerprint f ∷ seen))))
      ⊎ (((violates policy assets f ≡ false) ⊎ (has_item seen (fingerprint f) ≡ true))
          × (collect policy assets (f ∷ fs) seen ≡ collect policy assets fs seen))
unfolding collect
collect-cons policy assets f fs seen = elim (Bool-cases (violates policy assets f)) [
  | inr v ↦ inr (inl v, rw v refl)
  | inl v ↦ elim (Bool-cases (has_item seen (fingerprint f))) [
    | inl s ↦ inr (inr s, rw v (rw s refl))
    | inr s ↦ inl (v, (s, rw v (rw s refl)))
  ]
]

collect-unseen :
    (fs : List FindingRecord) (seen : List Text) (policy : CryptoAgilityPolicy)
    (assets : List AssetContext) (t : Text)
    → has_item seen t ≡ true
    → has_item (prints (collect policy assets fs seen)) t ≡ false
unfolding collect has_item violation
collect-unseen [] seen policy assets t h = refl
collect-unseen (f ∷ fs) seen policy assets t h = elim (collect-cons policy assets f fs seen) [
  | inr (_, e) ↦ rw e (collect-unseen fs seen policy assets t h)
  | inl (v, (s, e)) ↦
      let rest = collect-unseen fs (fingerprint f ∷ seen) policy assets t in
      rw e (ground (arith, rest, text_eq_iff (fingerprint f) t))
]

collect-distinct :
    (fs : List FindingRecord) (seen : List Text) (policy : CryptoAgilityPolicy)
    (assets : List AssetContext)
    → all_distinct (prints (collect policy assets fs seen)) ≡ true
unfolding collect all_distinct has_item violation
collect-distinct [] seen policy assets = refl
collect-distinct (f ∷ fs) seen policy assets = elim (collect-cons policy assets f fs seen) [
  | inr (_, e) ↦ rw e (collect-distinct fs seen policy assets)
  | inl (v, (s, e)) ↦
      let rest = collect-distinct fs (fingerprint f ∷ seen) policy assets in
      let new = collect-unseen fs (fingerprint f ∷ seen) policy assets (fingerprint f) in
      rw e (ground (arith, rest, new, text_eq_refl (fingerprint f)))
]

-- A violation of the result is one of a finding that violates the policy.
collect-In :
    (fs : List FindingRecord) (seen : List Text) (policy : CryptoAgilityPolicy)
    (assets : List AssetContext) (v : Violation)
    → In v (collect policy assets fs seen)
    → (f : FindingRecord) × In f fs × (violates policy assets f ≡ true) × (v ≡ violation f)
unfolding collect
collect-In [] seen policy assets v i = elim i [ ]
collect-In (f ∷ fs) seen policy assets v i = elim (collect-cons policy assets f fs seen) [
  | inr (_, e) ↦
      let (g, j, h, same) = collect-In fs seen policy assets v (rw e at i) in (g, inr j, h, same)
  | inl (hit, (s, e)) ↦ elim (rw e at i) [
    | inl same ↦ (f, inl refl, hit, same)
    | inr k ↦
        let (g, j, h, same) = collect-In fs (fingerprint f ∷ seen) policy assets v k in
        (g, inr j, h, same)
  ]
]

-- A finding that violates the policy is among the fingerprints.
collect-finds :
    (fs : List FindingRecord) (seen : List Text) (policy : CryptoAgilityPolicy)
    (assets : List AssetContext) (f : FindingRecord)
    → In f fs
    → violates policy assets f ≡ true
    → has_item seen (fingerprint f) ≡ false
    → has_item (prints (collect policy assets fs seen)) (fingerprint f) ≡ true
unfolding collect has_item violation
collect-finds [] seen policy assets f i v n = elim i [ ]
collect-finds (g ∷ fs) seen policy assets f (inl same) v n =
    elim (collect-cons policy assets g fs seen) [
      | inr (inl miss, e) ↦
          let missed = ap (λ z. violates policy assets z) same ∙ miss in absurd (ground arith)
      | inr (inr met, e) ↦
          let met_f = ap (λ z. has_item seen (fingerprint z)) same ∙ met in absurd (ground arith)
      | inl (hit, (s, e)) ↦ rw e (
          ground
            (arith, (text_eq_iff (fingerprint g) (fingerprint f)).1 (ap fingerprint (sym same))))
    ]
collect-finds (g ∷ fs) seen policy assets f (inr j) v n =
    elim (collect-cons policy assets g fs seen) [
      | inr (_, e) ↦ rw e (collect-finds fs seen policy assets f j v n)
      | inl (hit, (s, e)) ↦
          let later = collect-finds fs (fingerprint g ∷ seen) policy assets f j v in
          rw e (ground (arith, later))
    ]

is_empty-In : {A : Type 0} (l : List A) (x : A) → is_empty l ≡ true → ¬ In x l
is_empty-In [] x h i = elim i [ ]
is_empty-In (y ∷ l) x h i = ground arith

empty-prints : (l : List Violation) (t : Text) → has_item (prints l) t ≡ true → is_empty l ≡ false
unfolding has_item
empty-prints [] t h = cc
empty-prints (v ∷ l) t h = refl

-- The verdict of a policy on the findings of a scan.
pub record IsExact (policy : CryptoAgilityPolicy) (findings : List FindingRecord)
    (assets : List AssetContext) (r : PolicyResult) : Type 0 where
  pub counted : r.violation_count ≡ length r.violations
  pub sound :
      (v : Violation)
      → In v r.violations
      → (f : FindingRecord) × In f findings × (violates policy assets f ≡ true) × (v ≡ violation f)
  pub complete :
      (f : FindingRecord)
      → In f findings
      → violates policy assets f ≡ true
      → has_item (fingerprints r) (fingerprint f) ≡ true
  pub distinct : all_distinct (fingerprints r) ≡ true
  pub compliant :
      (r.status ≡ codes "compliant")
      ↔ ((f : FindingRecord) → In f findings → violates policy assets f ≡ false)

first_violation :
    (policy : CryptoAgilityPolicy) (findings : List FindingRecord) (assets : List AssetContext)
    → is_empty (collect policy assets findings []) ≡ false
    → ((f : FindingRecord) → In f findings → violates policy assets f ≡ false)
    → ⊥
first_violation policy findings assets h none_does =
    elim (List-cases (collect policy assets findings [])) [
      | inl e ↦ ground (arith, ap is_empty e)
      | inr (v, vs, e) ↦
          let (f, j, hit, same) = collect-In findings [] policy assets v (rw e (inl refl)) in
          ground (arith, none_does f j)
    ]

not_compliant : codes "violated" ≡ codes "compliant" → ⊥
not_compliant h = ground (arith, text_eq_iff (codes "violated") (codes "compliant"))

status-compliant :
    (policy : CryptoAgilityPolicy) (findings : List FindingRecord) (assets : List AssetContext)
    (now : ℕ)
    → ((evaluate_policy policy findings assets now).status ≡ codes "compliant")
      ↔ (is_empty (collect policy assets findings []) ≡ true)
unfolding evaluate_policy
status-compliant policy findings assets now =
    elim (Bool-cases (is_empty (collect policy assets findings []))) [
      | inl e ↦ rw e ((λ _. refl), (λ _. refl))
      | inr e ↦ rw e ((λ h. absurd (not_compliant h)), λ h. absurd (ground arith))
    ]

-- The result of a policy is exact: its violations are those of findings that are in the policy's scope and
-- match it; every such finding is among them, by its fingerprint; no fingerprint is there twice; and
-- the policy counts as compliant exactly if no finding violates it.
pub evaluate_policy-IsExact :
    (policy : CryptoAgilityPolicy) (findings : List FindingRecord) (assets : List AssetContext)
    (now : ℕ)
    → IsExact policy findings assets (evaluate_policy policy findings assets now)
unfolding evaluate_policy fingerprints
evaluate_policy-IsExact policy findings assets now = record {
  counted = refl;
  sound = λ v i. collect-In findings [] policy assets v i;
  complete = λ f i h. collect-finds findings [] policy assets f i h refl;
  distinct = collect-distinct findings [] policy assets;
  compliant = (
    λ h f i. elim (Bool-cases (violates policy assets f)) [
      | inr miss ↦ miss
      | inl hit ↦
          let found = collect-finds findings [] policy assets f i hit refl in
          let some_found = empty-prints (collect policy assets findings []) (fingerprint f) found in
          let none_found = (status-compliant policy findings assets now).0 h in
          absurd (ground arith)
    ],
    λ none_does. elim (Bool-cases (is_empty (collect policy assets findings []))) [
      | inl e ↦ (status-compliant policy findings assets now).1 e
      | inr e ↦ absurd (first_violation policy findings assets e none_does)
    ],
  );
}
