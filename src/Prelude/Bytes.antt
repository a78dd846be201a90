-- ===== src/Prelude/Bytes.antt =====
-- Text as its bytes. `codes` turns a literal into one, for ASCII literals exactly.
use Prim.Native.Nat.{ℕ, zero, suc, ◌+◌, ◌/◌, ◌%◌}
use Prim.Native.Char.{code}
use Prim.Native.String.{String}
use mathlib.Core.Path.{◌≡◌, refl}
use mathlib.Core.Logic.{◌↔◌, ◌⊎◌, inl, inr}
use mathlib.Core.Bool.{Bool, true, false, ◌&&◌, ◌||◌}
use mathlib.Core.List.{List, [], ◌∷◌, ◌++◌}
use native.Mathlib.Omega.{arith}
use quanta_watch.Prelude.Logic.{◌==◌, ltb, leb, if◌then◌else◌, Bool-cases}

abbrev pub Text : Type 0
Text = List ℕ

abbrev pub codes : String → Text
codes String.[] = []
codes (String.◌∷◌ c s) = code c ∷ codes s

-- `==` of byte strings.
unfoldable pub text_eq : Text → Text → Bool
text_eq [] [] = true
text_eq [] (_ ∷ _) = false
text_eq (_ ∷ _) [] = false
text_eq (a ∷ s) (b ∷ t) = a == b && text_eq s t

pub text_eq→eq : (s t : Text) → text_eq s t ≡ true → s ≡ t
unfolding text_eq
text_eq→eq [] [] h = refl
text_eq→eq [] (_ ∷ _) h = cc
text_eq→eq (_ ∷ _) [] h = cc
text_eq→eq (a ∷ s) (b ∷ t) h = ground (arith, text_eq→eq s t)

pub text_eq_refl : (s : Text) → text_eq s s ≡ true
unfolding text_eq
text_eq_refl [] = refl
text_eq_refl (a ∷ s) = ground (arith, text_eq_refl s)

pub text_eq_iff : (s t : Text) → (text_eq s t ≡ true) ↔ (s ≡ t)
text_eq_iff s t = (text_eq→eq s t, λ e. (rw e (text_eq_refl t)))

pub eq_or_ne : (s t : Text) → (s ≡ t) ⊎ ¬ (s ≡ t)
eq_or_ne s t = elim (Bool-cases (text_eq s t)) [
  | inl e ↦ inl (text_eq→eq s t e)
  | inr e ↦ inr (λ p. ground (arith, text_eq_iff s t))
]

-- `<` of byte strings: the lexicographic order.
unfoldable pub text_ltb : Text → Text → Bool
text_ltb [] [] = false
text_ltb [] (_ ∷ _) = true
text_ltb (_ ∷ _) [] = false
text_ltb (a ∷ s) (b ∷ t) = ltb a b || (a == b && text_ltb s t)

-- The decimal digits of a `u64`, which has at most twenty.
unfoldable pub decimal_fuel : ℕ → ℕ → Text
decimal_fuel zero n = []
decimal_fuel (suc fuel) n =
    let front = decimal_fuel fuel (n / 10) in
    if ltb n 10 then (48 + n) ∷ [] else front ++ (48 + n % 10) ∷ []

abbrev pub decimal : ℕ → Text
decimal n = decimal_fuel 20 n

pub text_ltb-irreflexive : (s : Text) → text_ltb s s ≡ false
unfolding text_ltb
text_ltb-irreflexive [] = refl
text_ltb-irreflexive (a ∷ s) = ground (arith, text_ltb-irreflexive s)

pub text_ltb_trans :
    (s t u : Text) → text_ltb s t ≡ true → text_ltb t u ≡ true → text_ltb s u ≡ true
unfolding text_ltb
text_ltb_trans [] [] [] h k = cc
text_ltb_trans [] (b ∷ t) [] h k = cc
text_ltb_trans [] t (c ∷ u) h k = refl
text_ltb_trans (a ∷ s) [] u h k = cc
text_ltb_trans (a ∷ s) (b ∷ t) [] h k = cc
text_ltb_trans (a ∷ s) (b ∷ t) (c ∷ u) h k = ground (arith, text_ltb_trans s t u)

-- Of two texts that differ, one is before the other.
pub text_ltb-total : (s t : Text) → text_eq s t ≡ false → text_ltb s t ≡ false → text_ltb t s ≡ true
unfolding text_ltb text_eq
text_ltb-total [] [] h k = cc
text_ltb-total [] (b ∷ t) h k = cc
text_ltb-total (a ∷ s) [] h k = refl
text_ltb-total (a ∷ s) (b ∷ t) h k = ground (arith, text_ltb-total s t)

-- The three ways that two texts compare.
pub data Comparison (s t : Text) : Type 0 where
  same : text_eq s t ≡ true → Comparison s t
  less : text_eq s t ≡ false → text_ltb s t ≡ true → Comparison s t
  more : text_eq s t ≡ false → text_ltb s t ≡ false → text_ltb t s ≡ true → Comparison s t

pub comparison : (s t : Text) → Comparison s t
comparison s t = elim (Bool-cases (text_eq s t)) [
  | inl e ↦ same e
  | inr n ↦ elim (Bool-cases (text_ltb s t)) [
    | inl l ↦ less n l
    | inr m ↦ more n m (text_ltb-total s t n m)
  ]
]

unfoldable pub starts_with : Text → Text → Bool
starts_with s [] = true
starts_with [] (b ∷ p) = false
starts_with (a ∷ s) (b ∷ p) = a == b && starts_with s p

unfoldable pub ends_with : Text → Text → Bool
unfolding text_eq
ends_with [] p = text_eq [] p
ends_with (a ∷ s) p = text_eq (a ∷ s) p || ends_with s p

-- `s.contains(p)` of a text.
unfoldable pub has_text : Text → Text → Bool
unfolding starts_with
has_text [] p = starts_with [] p
has_text (a ∷ s) p = starts_with (a ∷ s) p || has_text s p

-- `s.contains(c)` of a byte.
unfoldable pub has_byte : Text → ℕ → Bool
has_byte [] c = false
has_byte (a ∷ s) c = a == c || has_byte s c

-- `s.split(c)`, its first part and the others.
unfoldable pub split_on : ℕ → Text → Text × List Text
split_on c [] = ([], [])
split_on c (a ∷ s) =
    let (part, parts) = split_on c s in if a == c then ([], part ∷ parts) else (a ∷ part, parts)

-- The membership test of a list of texts.
unfoldable pub has_item : List Text → Text → Bool
unfolding text_eq
has_item [] t = false
has_item (x ∷ l) t = text_eq x t || has_item l t

-- `to_lowercase`, on ASCII.
unfoldable pub to_lowercase : Text → Text
to_lowercase [] = []
to_lowercase (c ∷ s) = (if leb b'A' c && leb c b'Z' then c + 32 else c) ∷ to_lowercase s

abbrev pub eq_ignore_ascii_case : Text → Text → Bool
eq_ignore_ascii_case s t = text_eq (to_lowercase s) (to_lowercase t)

-- `trim`, on ASCII.
abbrev pub is_space : ℕ → Bool
is_space c = c == b' ' || (leb 9 c && leb c 13)

unfoldable pub trim_start : Text → Text
trim_start [] = []
trim_start (c ∷ s) = let rest = trim_start s in if is_space c then rest else c ∷ s

unfoldable pub trim_end : Text → Text
trim_end [] = []
trim_end (c ∷ s) = elim (trim_end s) [
  | [] ↦ if is_space c then [] else c ∷ []
  | x ∷ rest ↦ c ∷ x ∷ rest
]

unfoldable pub trim : Text → Text
unfolding trim_start trim_end
trim s = trim_end (trim_start s)
