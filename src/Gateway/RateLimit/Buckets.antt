-- ===== src/Gateway/RateLimit/Buckets.antt =====
-- crates/qw-gateway/src/ratelimit.rs: the level of one key's bucket, over time and over the map.
use native.Mathlib.Nat.{le_refl, mul-le-mul_right, le_of_mul-le-mul_right}
use quanta_watch.Prelude.{
  ℕ, ◌+◌, ◌-◌, ◌*◌, ◌≤◌, ◌<◌, ◌≡◌, refl, ap, Text, text_eq, text_eq_iff, Bool-cases, Option, none,
  some, [], ◌∷◌, ltb, if◌then◌else◌, inl, inr, arith,
}
use quanta_watch.Gateway.RateLimit.{
  Bucket, Limit, Class, api, login, Buckets, key_of, lookup, store, prune, refilled, entry_of,
}

-- What a key could draw now: its bucket refilled, or a full one.
unfoldable pub level : Limit → ℕ → Option Bucket → ℕ
unfolding refilled entry_of
level limit now o = refilled limit now (entry_of limit now o)

pub lookup-store :
    (key other : Text) (b : Bucket) (buckets : Buckets)
    → lookup other (store key b buckets)
      ≡ (if text_eq key other then some b else lookup other buckets)
unfolding lookup store
lookup-store key other b [] = refl
lookup-store key other b ((k, c) ∷ buckets) = ground (
  arith,
  lookup-store key other b buckets,
  text_eq_iff key other,
  text_eq_iff k key,
  text_eq_iff k other,
)

mul_le_of_le_add : (x y z r : ℕ) → x ≤ y + z → x * r ≤ y * r + z * r
mul_le_of_le_add x y z r h = omega (arith, mul-le-mul_right r h)

pub level-le-burst : (limit : Limit) (now : ℕ) (o : Option Bucket) → level limit now o ≤ limit.burst
unfolding level
level-le-burst limit now o = omega arith

-- Idle for one limit's time to refill is idle for the other's, where that is no longer.
refill_time :
    (idle refill burst own_refill own_burst : ℕ)
    → 0 < refill
    → own_burst * refill ≤ burst * own_refill
    → burst ≤ idle * refill
    → own_burst ≤ idle * own_refill
refill_time idle refill burst own_refill own_burst p h g =
    le_of_mul-le-mul_right {k = refill} (omega (arith, mul-le-mul_right own_refill g)) p

level-idle :
    (limit : Limit) (now : ℕ) (b : Bucket)
    → limit.burst ≤ (now - b.last) * limit.refill
    → level limit now (some b) ≡ limit.burst
unfolding level
level-idle limit now b h = omega arith

-- As time passes a level grows no faster than the refill.
pub level-grows :
    (limit : Limit) (t now : ℕ) (o : Option Bucket)
    → t ≤ now
    → level limit now o ≤ level limit t o + (now - t) * limit.refill
unfolding level
level-grows limit t now none h = grind arith
level-grows limit t now (some b) h =
    omega (arith, mul_le_of_le_add (now - b.last) (t - b.last) (now - t) limit.refill (omega arith))

-- A key with time to refill reads the same when it is forgotten.
pub level-prune :
    (limit own : Limit) (now : ℕ) (key : Text) (buckets : Buckets)
    → 0 < limit.refill
    → own.burst * limit.refill ≤ limit.burst * own.refill
    → level own now (lookup key (prune limit now buckets)) ≤ level own now (lookup key buckets)
unfolding prune lookup
level-prune limit own now key [] p h = le_refl _
level-prune limit own now key ((k, b) ∷ buckets) p h =
    elim (Bool-cases (ltb ((now - b.last) * limit.refill) limit.burst)) [
      | inl e ↦ rw e (elim (Bool-cases (text_eq k key)) [
        | inl q ↦ rw q (le_refl _)
        | inr q ↦ rw q (level-prune limit own now key buckets p h)
      ])
      | inr e ↦
          let idle =
            refill_time (now - b.last) limit.refill limit.burst own.refill own.burst p h
              (ground arith) in
          rw e (elim (Bool-cases (text_eq k key)) [
            | inl q ↦ rw q (
                rw (level-idle own now b idle)
                  (level-le-burst own now (lookup key (prune limit now buckets))))
            | inr q ↦ rw q (level-prune limit own now key buckets p h)
          ])
    ]

abbrev first_byte : Text → ℕ
first_byte [] = 0
first_byte (c ∷ _) = c

-- Keys of two classes are never equal.
pub key_of-class : (c d : Class) (i j : Text) → key_of c i ≡ key_of d j → c ≡ d
unfolding key_of
key_of-class api api i j e = refl
key_of-class login login i j e = refl
key_of-class api login i j e = absurd (omega (arith, ap first_byte e))
key_of-class login api i j e = absurd (omega (arith, ap first_byte e))
