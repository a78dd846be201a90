-- ===== src/Policy/Glob/Meaning.antt =====
-- `matches_glob` of crates/qw-policy/src/engine.rs: what a pattern with one star means, and what one
-- with more stars does.
use mathlib.Core.List.{append-nil, append_assoc}
use quanta_watch.Prelude.{
  ℕ, ◌+◌, ◌≤◌, ◌≡◌, refl, sym, ap, ◌==◌, ==_iff, &&_iff, ◌↔◌, ◌≢◌, ◌∙◌, ◌⊎◌, inl, inr, Bool-cases,
  Text, text_eq, text_eq_iff, text_eq_refl, starts_with, ends_with, has_byte, split_on, length,
  length-append, true, false, ◌&&◌, [], ◌∷◌, ◌++◌, if◌then◌else◌, arith,
}
use quanta_watch.Policy.Glob.{match_parts, matches_glob}

-- A text with no star in it.
abbrev pub IsPlain : Text → Type 0
IsPlain s = has_byte s b'*' ≡ false

IsPlain-parts : (a : ℕ) (s : Text) → IsPlain (a ∷ s) → ((a == b'*') ≡ false) × IsPlain s
unfolding has_byte
IsPlain-parts a s h = ground arith

split_on-plain : (s : Text) → IsPlain s → split_on b'*' s ≡ (s, [])
unfolding split_on has_byte
split_on-plain [] h = refl
split_on-plain (a ∷ s) h = let (e, g) = IsPlain-parts a s h in rw e (rw (split_on-plain s g))

split_on-append :
    (s t : Text)
    → IsPlain s
    → split_on b'*' (s ++ b'*' ∷ t) ≡ (s, (split_on b'*' t).0 ∷ (split_on b'*' t).1)
unfolding split_on has_byte
split_on-append [] t h = refl
split_on-append (a ∷ s) t h = let (e, g) = IsPlain-parts a s h in rw e (rw (split_on-append s t g))

has_byte-append : (s t : Text) → has_byte (s ++ b'*' ∷ t) b'*' ≡ true
unfolding has_byte
has_byte-append [] t = refl
has_byte-append (a ∷ s) t = ground (arith, has_byte-append s t)

starts_with-append : (p s : Text) → starts_with (p ++ s) p ≡ true
unfolding starts_with
starts_with-append [] [] = refl
starts_with-append [] (b ∷ s) = refl
starts_with-append (a ∷ p) s = ground (arith, starts_with-append p s)

ends_with_self : (s : Text) → ends_with s s ≡ true
unfolding ends_with
ends_with_self [] = refl
ends_with_self (a ∷ s) = ground (arith, text_eq_refl (a ∷ s))

ends_with-append : (s p : Text) → ends_with (s ++ p) p ≡ true
unfolding ends_with
ends_with-append [] p = ends_with_self p
ends_with-append (a ∷ s) p = ground (arith, ends_with-append s p)

starts_with-prefix : (s p : Text) → starts_with s p ≡ true → (t : Text) × (s ≡ p ++ t)
unfolding starts_with
starts_with-prefix s [] h = (s, refl)
starts_with-prefix [] (b ∷ p) h = cc
starts_with-prefix (a ∷ s) (b ∷ p) h =
    let (e, f) = (&&_iff (a == b) (starts_with s p)).0 h in
    let (t, g) = starts_with-prefix s p f in (t, cc ((==_iff a b).0 e, g))

ends_with-suffix : (s p : Text) → ends_with s p ≡ true → (t : Text) × (s ≡ t ++ p)
unfolding ends_with
ends_with-suffix [] p h = ([], (text_eq_iff [] p).0 h)
ends_with-suffix (a ∷ s) p h = elim (Bool-cases (text_eq (a ∷ s) p)) [
  | inl e ↦ ([], (text_eq_iff (a ∷ s) p).0 e)
  | inr e ↦ let (t, g) = ends_with-suffix s p (rw e at h) in (a ∷ t, ap (λ r. a ∷ r) g)
]

-- A pattern that holds a star, and is not the lone star, is matched by its parts.
matches_glob-parts :
    (p q v : Text)
    → IsPlain p
    → matches_glob (p ++ b'*' ∷ q) v ≡ (
        if text_eq (p ++ b'*' ∷ q) (b'*' ∷ [])
        then true
        else match_parts (p ++ b'*' ∷ q) v p ((split_on b'*' q).0 ∷ (split_on b'*' q).1))
unfolding matches_glob
matches_glob-parts p q v h = rw (has_byte-append p q) (rw (split_on-append p q h))

not_lone :
    (p q : Text) → IsPlain p → ((p ≡ []) × (q ≡ [])) ⊎ (text_eq (p ++ b'*' ∷ q) (b'*' ∷ []) ≡ false)
unfolding text_eq
not_lone [] [] h = inl (refl, refl)
not_lone [] (x ∷ q) h = inr refl
not_lone (a ∷ p) q h = inr (rw ((IsPlain-parts a p h).0))

parts_empty : (v : Text) → (starts_with v [] && ends_with v []) ≡ true
parts_empty v =
    (&&_iff (starts_with v []) (ends_with v [])).1
      (starts_with-append [] v, rw (append-nil) at (ends_with-append v []))

-- A pattern with one star: the value starts with what stands before it and ends with the rest.
matches_glob-one_star :
    (p q v : Text)
    → IsPlain p
    → IsPlain q
    → matches_glob (p ++ b'*' ∷ q) v ≡ (starts_with v p && ends_with v q)
unfolding text_eq
matches_glob-one_star p q v hp hq = rw (matches_glob-parts p q v hp) (
    rw (split_on-plain q hq) (elim (not_lone p q hp) [
      | inl (e, f) ↦ rw (e, f) (sym (parts_empty v))
      | inr n ↦ rw n (unfold match_parts in refl)
    ]))

-- Two ways to cut one text, the first cut before the second.
cut_between : (p t u q : Text) → p ++ t ≡ u ++ q → length p ≤ length u → (m : Text) × (u ≡ p ++ m)
cut_between [] t u q e h = (u, refl)
cut_between (a ∷ p) t [] q e h = absurd (omega arith)
cut_between (a ∷ p) t (b ∷ u) q e h =
    let (m, f) = cut_between p t u q (tails e) (omega arith) in (m, cc (heads e, f))
  where
    tails : a ∷ (p ++ t) ≡ b ∷ (u ++ q) → p ++ t ≡ u ++ q
    tails e = cc

    heads : a ∷ (p ++ t) ≡ b ∷ (u ++ q) → b ≡ a
    heads e = cc

-- A pattern with one star matches every value that is its two parts round any text, and a value at
-- least as long as the two parts only if it is so made.
pub matches_glob-means :
    (p q v : Text)
    → IsPlain p
    → IsPlain q
    → ((m : Text) → v ≡ p ++ (m ++ q) → matches_glob (p ++ b'*' ∷ q) v ≡ true)
      × (length p + length q ≤ length v
          → matches_glob (p ++ b'*' ∷ q) v ≡ true
          → (m : Text) × (v ≡ p ++ (m ++ q)))
matches_glob-means p q v hp hq = (
  λ m e. rw (matches_glob-one_star p q v hp hq) (
      (&&_iff (starts_with v p) (ends_with v q)).1 (
        rw e (starts_with-append p (m ++ q)),
        rw e (rw (← append_assoc p m q) (ends_with-append (p ++ m) q)),
      )),
  λ h e.
      let (s, t) =
        (&&_iff (starts_with v p) (ends_with v q)).0
          (rw (matches_glob-one_star p q v hp hq) at e) in
      let (after, f) = starts_with-prefix v p s in
      let (front, g) = ends_with-suffix v q t in
      let (m, c) =
        cut_between p after front q (sym f ∙ g)
          (omega (arith, ap (λ (z : Text). length z) g, length-append front q)) in
      (m, g ∙ ap (λ z. z ++ q) c ∙ append_assoc p m q),
)

no_length : (x : Text) → length x ≡ 0 → x ≡ []
no_length [] h = refl
no_length (a ∷ x) h = absurd (omega arith)

-- The two parts may share bytes of the value: a text is matched by the pattern that repeats a middle
-- part of it on both sides of the star, and where that part is not empty the value is not made of the
-- two parts round any text.
pub matches_glob-overlaps :
    (p x q : Text)
    → IsPlain (p ++ x)
    → IsPlain (x ++ q)
    → (matches_glob ((p ++ x) ++ b'*' ∷ (x ++ q)) (p ++ (x ++ q)) ≡ true)
      × (x ≢ [] → ¬ ((m : Text) × (p ++ (x ++ q) ≡ (p ++ x) ++ (m ++ (x ++ q)))))
matches_glob-overlaps p x q hp hq = (
  rw (matches_glob-one_star (p ++ x) (x ++ q) (p ++ (x ++ q)) hp hq) (
      (&&_iff _ _).1
        (rw (← append_assoc p x q) (starts_with-append (p ++ x) q), ends_with-append p (x ++ q))),
  λ n made. n (
      no_length x (
        omega (
          arith,
          ap (λ (z : Text). length z) made.1,
          length-append p (x ++ q),
          length-append (p ++ x) (made.0 ++ (x ++ q)),
          length-append p x,
          length-append made.0 (x ++ q),
        ))),
)

-- A pattern with two stars or more is no wildcard: it matches no value but its own text.
pub matches_glob-many_stars :
    (p q r v : Text)
    → IsPlain p
    → IsPlain q
    → (matches_glob (p ++ b'*' ∷ (q ++ b'*' ∷ r)) v ≡ true) ↔ (p ++ b'*' ∷ (q ++ b'*' ∷ r) ≡ v)
matches_glob-many_stars p q r v hp hq =
    rw (literal (not_lone p (q ++ b'*' ∷ r) hp)) (text_eq_iff (p ++ b'*' ∷ (q ++ b'*' ∷ r)) v)
  where
    literal :
        ((p ≡ []) × (q ++ b'*' ∷ r ≡ []))
          ⊎ (text_eq (p ++ b'*' ∷ (q ++ b'*' ∷ r)) (b'*' ∷ []) ≡ false)
        → matches_glob (p ++ b'*' ∷ (q ++ b'*' ∷ r)) v ≡ text_eq (p ++ b'*' ∷ (q ++ b'*' ∷ r)) v
    literal (inl (e, f)) =
        absurd (omega (arith, ap (λ (z : Text). length z) f, length-append q (b'*' ∷ r)))
    literal (inr n) =
        rw (matches_glob-parts p (q ++ b'*' ∷ r) v hp)
          (rw (split_on-append q r hq) (rw n (unfold match_parts in refl)))
