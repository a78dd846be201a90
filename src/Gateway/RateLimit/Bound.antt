-- ===== src/Gateway/RateLimit/Bound.antt =====
-- crates/qw-gateway/src/ratelimit.rs: how many requests of one client pass in a stretch of time.
use native.Mathlib.Nat.{le_refl}
use quanta_watch.Prelude.{
  ℕ, suc, ◌+◌, ◌-◌, ◌*◌, ◌≤◌, ◌<◌, ◌≡◌, refl, ap, ◌∙◌, Text, text_eq, text_eq_iff, text_eq_refl,
  Bool, true, false, Bool-cases, List, [], ◌∷◌, ltb, leb, length, if◌then◌else◌, inl, inr, arith,
}
use quanta_watch.Gateway.RateLimit.{
  token, Limit, Class, api, login, Buckets, RateLimiter, RateLimitConfig, new, limit_for, key_of,
  lookup, pruned, spend, check_at,
}
use quanta_watch.Gateway.RateLimit.Buckets.{
  level, lookup-store, level-grows, level-prune, level-le-burst, key_of-class,
}

-- A request as the limiter sees it.
pub record Arrival : Type 0 where
  pub class : Class
  pub ip : Text
  pub at : ℕ

-- How many of the arrivals at one key pass, the limiter going on from each to the next.
unfoldable pub passed : Text → RateLimiter → List Arrival → ℕ
passed key rl [] = 0
passed key rl (a ∷ arrivals) =
    let (rl', allowed) = check_at rl a.class a.ip a.at in
    let rest = passed key rl' arrivals in
    if allowed then (if text_eq (key_of a.class a.ip) key then suc rest else rest) else rest

-- The arrivals come in order, none before `from` and none after `until`.
abbrev pub InOrder : ℕ → ℕ → List Arrival → Type 0
InOrder from until [] = from ≤ until
InOrder from until (a ∷ arrivals) = (from ≤ a.at) × InOrder a.at until arrivals

level-pruned :
    (rl : RateLimiter) (limit own : Limit) (now : ℕ) (key : Text)
    → 0 < limit.refill
    → own.burst * limit.refill ≤ limit.burst * own.refill
    → level own now (lookup key (pruned rl limit now)) ≤ level own now (lookup key rl.buckets)
unfolding pruned
level-pruned rl limit own now key r f = elim (Bool-cases (ltb rl.max_keys (length rl.buckets))) [
  | inl e ↦ rw e (level-prune limit own now key rl.buckets r f)
  | inr e ↦ rw e (le_refl _)
]

check_at-spends :
    (rl : RateLimiter) (class : Class) (ip : Text) (now : ℕ)
    → rl.enabled ≡ true
    → let limit = limit_for rl class in
      let buckets = pruned rl limit now in
      let key = key_of class ip in
      check_at rl class ip now ≡ spend rl key now buckets (level limit now (lookup key buckets))
unfolding level check_at spend
check_at-spends rl class ip now on = rw (on)

-- A spent token is gone from the key's level.
spend-own :
    (rl : RateLimiter) (limit : Limit) (key : Text) (now : ℕ) (buckets : Buckets) (tokens : ℕ)
    → level limit now (lookup key (spend rl key now buckets tokens).0.buckets)
        + (if (spend rl key now buckets tokens).1 then token else 0)
      ≤ tokens
unfolding spend
spend-own rl limit key now buckets tokens = elim (Bool-cases (leb token tokens)) [
  | inl e ↦ rw e (rw lookup-store (rw text_eq_refl (unfold level in ground arith)))
  | inr e ↦ rw e (rw lookup-store (rw text_eq_refl (unfold level in ground arith)))
]

spend-other :
    (rl : RateLimiter) (key other : Text) (now : ℕ) (buckets : Buckets) (tokens : ℕ)
    → text_eq key other ≡ false
    → lookup other (spend rl key now buckets tokens).0.buckets ≡ lookup other buckets
unfolding spend
spend-other rl key other now buckets tokens n = elim (Bool-cases (leb token tokens)) [
  | inl e ↦ rw e (rw lookup-store (rw n))
  | inr e ↦ rw e (rw lookup-store (rw n))
]

-- What stays as it was.
spend-keeps :
    (rl : RateLimiter) (key : Text) (now : ℕ) (buckets : Buckets) (tokens : ℕ) (c : Class)
    → ((spend rl key now buckets tokens).0.enabled ≡ rl.enabled)
      × (limit_for (spend rl key now buckets tokens).0 c ≡ limit_for rl c)
unfolding spend limit_for
spend-keeps rl key now buckets tokens api = ground arith
spend-keeps rl key now buckets tokens login = ground arith

gain : RateLimiter → Text → Class → Text → ℕ → ℕ
gain rl key c i now =
    if (check_at rl c i now).1 then (if text_eq (key_of c i) key then token else 0) else 0

both :
    (b c : Bool) (n : ℕ) → c ≡ true → (if b then (if c then n else 0) else 0) ≡ (if b then n else 0)
both b c n e = ground arith

neither : (b c : Bool) (n : ℕ) → c ≡ false → (if b then (if c then n else 0) else 0) ≡ 0
neither b c n e = ground arith

counted_lem :
    (b c : Bool) (n t : ℕ)
    → (if b then (if c then suc n else n) else n) * t
      ≡ (if b then (if c then t else 0) else 0) + n * t
counted_lem true true n t = omega arith
counted_lem true false n t = omega arith
counted_lem false c n t = omega arith

from-le-until :
    (from until : ℕ) (arrivals : List Arrival) → InOrder from until arrivals → from ≤ until
from-le-until from until [] o = o
from-le-until from until (a ∷ arrivals) o =
    omega (arith, o.0, from-le-until a.at until arrivals o.1)

spans : (a b c r : ℕ) → a ≤ b → b ≤ c → (b - a) * r + (c - b) * r ≡ (c - a) * r
spans a b c r h k = let e : c - a ≡ (b - a) + (c - b) = omega arith in rw e (omega arith)

check_at-keeps :
    (rl : RateLimiter) (c : Class) (i : Text) (now : ℕ) (d : Class)
    → rl.enabled ≡ true
    → ((check_at rl c i now).0.enabled ≡ true)
      × (limit_for (check_at rl c i now).0 d ≡ limit_for rl d)
check_at-keeps rl c i now d on =
    let kept =
      spend-keeps rl (key_of c i) now (pruned rl (limit_for rl c) now)
        (level (limit_for rl c) now (lookup (key_of c i) (pruned rl (limit_for rl c) now))) d in
    rw (check_at-spends rl c i now on) (kept.0 ∙ on, kept.1)

-- A passed request takes its token from the key's level, which may have grown since the time before;
-- a request of another key takes nothing from it.
module _ (l : Class → Limit) (class : Class) (ip : Text) (refills : (c : Class) → 0 < (l c).refill)
    (first : (c : Class) → (l class).burst * (l c).refill ≤ (l c).burst * (l class).refill) where
  step_bound :
      (rl : RateLimiter) (c : Class) (i : Text) (now from : ℕ)
      → rl.enabled ≡ true
      → ((d : Class) → limit_for rl d ≡ l d)
      → from ≤ now
      → level (l class) now (lookup (key_of class ip) (check_at rl c i now).0.buckets)
          + gain rl (key_of class ip) c i now
        ≤ level (l class) from (lookup (key_of class ip) rl.buckets)
          + (now - from) * (l class).refill
  unfolding gain
  step_bound rl c i now from on has h =
      let key = key_of class ip in
      let grown = level-grows (l class) from now (lookup key rl.buckets) h in
      let kept = level-pruned rl (l c) (l class) now key (refills c) (first c) in
      rw (check_at-spends rl c i now on) (
        rw has (elim (Bool-cases (text_eq (key_of c i) key)) [
          | inl e ↦
              let q : key_of c i ≡ key = (text_eq_iff _ _).0 e in
              let d : c ≡ class = key_of-class c class i ip q in
              rw (both _ _ token e) (
                rw q (
                  omega (
                    arith,
                    spend-own rl (l class) key now (pruned rl (l c) now)
                        (level (l c) now (lookup key (pruned rl (l c) now))),
                    kept,
                    grown,
                    ap (λ z. level (l z) now (lookup key (pruned rl (l c) now))) d,
                  )))
          | inr e ↦ rw (neither _ _ token e) (
              rw (spend-other rl (key_of c i) key now (pruned rl (l c) now) _ e)
                (omega (arith, kept, grown)))
        ]))

  passed-gain :
      (rl : RateLimiter) (a : Arrival) (arrivals : List Arrival)
      → passed (key_of class ip) rl (a ∷ arrivals) * token
        ≡ gain rl (key_of class ip) a.class a.ip a.at
          + passed (key_of class ip) (check_at rl a.class a.ip a.at).0 arrivals * token
  unfolding passed gain
  passed-gain rl a arrivals = counted_lem _ _ _ token

  passed_bound :
      (rl : RateLimiter) (arrivals : List Arrival) (from until : ℕ)
      → rl.enabled ≡ true
      → ((d : Class) → limit_for rl d ≡ l d)
      → InOrder from until arrivals
      → passed (key_of class ip) rl arrivals * token
        ≤ level (l class) from (lookup (key_of class ip) rl.buckets)
          + (until - from) * (l class).refill
  passed_bound rl [] from until on has o = unfold passed in omega arith
  passed_bound rl (a ∷ arrivals) from until on has o =
      let rl' = (check_at rl a.class a.ip a.at).0 in
      let on' = (check_at-keeps rl a.class a.ip a.at api on).0 in
      let has' : (d : Class) → limit_for rl' d ≡ l d =
        λ d. (check_at-keeps rl a.class a.ip a.at d on).1 ∙ has d in
      rw (passed-gain rl a arrivals) (
        omega (
          arith,
          step_bound rl a.class a.ip a.at from on has o.0,
          passed_bound rl' arrivals a.at until on' has' o.1,
          spans from a.at until (l class).refill o.0 (from-le-until a.at until arrivals o.1),
        ))

refill_positive : (cfg : RateLimitConfig) (c : Class) → 0 < (limit_for (new cfg) c).refill
unfolding limit_for new
refill_positive cfg api = omega arith
refill_positive cfg login = omega arith

-- Between `from` and `until` a limiter that starts with no buckets passes no more of a client's
-- requests than the burst and the refill of that time give, whatever the other clients send, and
-- however often the table is pruned: for the class whose bucket takes no longer than the other's to
-- fill, arrivals in order, and the limiter on.
pub passed-bounded :
    (cfg : RateLimitConfig) (class : Class) (ip : Text) (arrivals : List Arrival) (from until : ℕ)
    → cfg.enabled ≡ true
    → ((c : Class)
        → (limit_for (new cfg) class).burst * (limit_for (new cfg) c).refill
          ≤ (limit_for (new cfg) c).burst * (limit_for (new cfg) class).refill)
    → InOrder from until arrivals
    → passed (key_of class ip) (new cfg) arrivals * token
      ≤ (limit_for (new cfg) class).burst + (until - from) * (limit_for (new cfg) class).refill
passed-bounded cfg class ip arrivals from until on first o = omega (
  arith,
  passed_bound (λ c. limit_for (new cfg) c) class ip (refill_positive cfg) first (new cfg) arrivals
      from until (unfold new in on) (λ d. refl) o,
  level-le-burst (limit_for (new cfg) class) from (lookup (key_of class ip) (new cfg).buckets),
)
