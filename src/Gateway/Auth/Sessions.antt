-- ===== src/Gateway/Auth/Sessions.antt =====
-- crates/qw-gateway/src/auth.rs: which credentials are accepted.
use quanta_watch.Prelude.{
  ℕ, ◌≤◌, ◌<◌, ◌+◌, ◌^◌, ◌-◌, ◌*◌, ◌≡◌, ◌⊎◌, refl, sym, ap, ◌∙◌, inl, inr, Text, text_eq,
  text_eq_iff, text_eq_refl, true, false, Bool-cases, Option-cases, none, some, List, [], ◌∷◌, ltb,
  if◌then◌else◌, arith,
}
use quanta_watch.Gateway.Auth.{
  AuthSession, ApiKeyConfig, AuthContext, AuthManager, get_auth_session, delete_auth_session,
  second, is_longer, is_over, session_context, key_context, find_key, with_sessions,
  validate_session, validate, logout,
}

-- No idle time is configured, or it has not passed since; a `u64` of 2^63 or more counts as a negative
-- one, which has passed unless the clock went back that far.
abbrev pub IsInUse : (secs since now : ℕ) → Type 0
IsInUse secs since now =
    (secs ≡ 0)
    ⊎ (((secs < 2 ^ 63) × (now - since ≤ secs * second))
        ⊎ ((2 ^ 63 ≤ secs) × (now + (2 ^ 64 - secs) * second ≤ since)))

is_longer-IsInUse : (secs since now : ℕ) → is_longer since now secs ≡ false → IsInUse secs since now
unfolding is_longer
is_longer-IsInUse secs since now h = elim (Bool-cases (ltb secs (2 ^ 63))) [
  | inl e ↦ inr (inl (ground arith))
  | inr e ↦ inr (inr (ground arith))
]

-- A session within its lifetime and its idle time.
pub record IsLive (m : AuthManager) (s : AuthSession) (now : ℕ) : Type 0 where
  pub unexpired : now < s.expires_at
  pub in_use : IsInUse m.idle_timeout_secs s.last_used now

is_over-IsLive :
    (m : AuthManager) (s : AuthSession) (now : ℕ) → is_over m s now ≡ false → IsLive m s now
unfolding is_over
is_over-IsLive m s now h = record {
  unexpired = ground arith;
  in_use = elim (Bool-cases (ltb 0 m.idle_timeout_secs)) [
    | inl e ↦ is_longer-IsInUse m.idle_timeout_secs s.last_used now (ground arith)
    | inr e ↦ inl (ground arith)
  ];
}

-- What an accepted context rests on.
pub data Accepted (m : AuthManager) (hash : Text) (now : ℕ) (ctx : AuthContext) : Type 0 where
  by_session :
      (s : AuthSession)
      → get_auth_session hash m.sessions ≡ some s
      → IsLive m s now
      → ctx ≡ session_context m s
      → Accepted m hash now ctx
  by_key :
      (key : ApiKeyConfig)
      → get_auth_session hash m.sessions ≡ none
      → find_key hash m.api_keys ≡ some key
      → ctx ≡ key_context m key
      → Accepted m hash now ctx

pub some-injective : {A : Type 0} (x y : A) → some x ≡ some y → x ≡ y
some-injective x y h = cc

validate_session-result :
    (m : AuthManager) (hash : Text) (s : AuthSession) (now : ℕ)
    → (validate_session m hash s now).1
      ≡ (if is_over m s now then none else some (session_context m s))
unfolding validate_session
validate_session-result m hash s now = ground arith

pub validate-session :
    (m : AuthManager) (hash : Text) (now : ℕ) (s : AuthSession)
    → get_auth_session hash m.sessions ≡ some s
    → validate m hash now ≡ validate_session m hash s now
unfolding validate
validate-session m hash now s e = rw (e, validate) refl

validate-key :
    (m : AuthManager) (hash : Text) (now : ℕ) (key : ApiKeyConfig)
    → get_auth_session hash m.sessions ≡ none
    → find_key hash m.api_keys ≡ some key
    → (validate m hash now).1 ≡ some (key_context m key)
unfolding validate
validate-key m hash now key e k = rw (e, validate) (rw k refl)

validate-absent :
    (m : AuthManager) (hash : Text) (now : ℕ)
    → get_auth_session hash m.sessions ≡ none
    → find_key hash m.api_keys ≡ none
    → (validate m hash now).1 ≡ none
unfolding validate
validate-absent m hash now e k = rw (e, validate) (rw k refl)

validate-over :
    (m : AuthManager) (hash : Text) (now : ℕ) (s : AuthSession)
    → get_auth_session hash m.sessions ≡ some s
    → is_over m s now ≡ true
    → validate m hash now ≡ (with_sessions m (delete_auth_session hash m.sessions), none)
unfolding validate_session
validate-over m hash now s e o = validate-session m hash now s e ∙ (rw o refl)

pub validate-live :
    (m : AuthManager) (hash : Text) (now : ℕ) (s : AuthSession)
    → get_auth_session hash m.sessions ≡ some s
    → is_over m s now ≡ false
    → (validate m hash now).1 ≡ some (session_context m s)
validate-live m hash now s e o =
    ap (λ z. z.1) (validate-session m hash now s e)
    ∙ validate_session-result m hash s now
    ∙ (rw o refl)

pub none-some : {A : Type 0} (x : A) → none ≡ some x → ⊥
none-some x h = cc

-- A credential that is accepted is the token of a session that is within its lifetime and its idle
-- time, or, where it is no session's, the key of the configuration; and the context is that of the
-- session or key, with the permissions of its role.
pub validate-accepts :
    (m : AuthManager) (hash : Text) (now : ℕ) (ctx : AuthContext)
    → (validate m hash now).1 ≡ some ctx
    → Accepted m hash now ctx
validate-accepts m hash now ctx h = elim (Option-cases (get_auth_session hash m.sessions)) [
  | inr (s, e) ↦ elim (Bool-cases (is_over m s now)) [
    | inl o ↦ absurd (none-some ctx (ap (λ z. z.1) (sym (validate-over m hash now s e o)) ∙ h))
    | inr o ↦
        by_session s e (is_over-IsLive m s now o)
          (some-injective ctx _ (sym h ∙ validate-live m hash now s e o))
  ]
  | inl e ↦ elim (Option-cases (find_key hash m.api_keys)) [
    | inl k ↦ absurd (none-some ctx (sym (validate-absent m hash now e k) ∙ h))
    | inr (key, k) ↦ by_key key e k (some-injective ctx _ (sym h ∙ validate-key m hash now key e k))
  ]
]

pub get-delete :
    (hash other : Text) (sessions : List (Text × AuthSession))
    → get_auth_session other (delete_auth_session hash sessions)
      ≡ (if text_eq hash other then none else get_auth_session other sessions)
unfolding get_auth_session delete_auth_session
get-delete hash other [] = ground arith
get-delete hash other ((k, s) ∷ sessions) = ground (
  arith,
  get-delete hash other sessions,
  text_eq_iff hash other,
  text_eq_iff k hash,
  text_eq_iff k other,
)

get-deleted :
    (hash : Text) (sessions : List (Text × AuthSession))
    → get_auth_session hash (delete_auth_session hash sessions) ≡ none
get-deleted hash sessions = get-delete hash hash sessions ∙ (rw (text_eq_refl hash) refl)

-- Where a token is no API key: after a logout it is refused, and a session that is found expired or
-- idle is refused then and ever after. The logout changes no other token's session.
pub ended-refused :
    (m : AuthManager) (hash : Text)
    → find_key hash m.api_keys ≡ none
    → ((later : ℕ) → (validate (logout m hash) hash later).1 ≡ none)
      × (((s : AuthSession) (now later : ℕ)
            → get_auth_session hash m.sessions ≡ some s
            → is_over m s now ≡ true
            → ((validate m hash now).1 ≡ none)
              × ((validate (validate m hash now).0 hash later).1 ≡ none))
          × ((other : Text)
              → text_eq hash other ≡ false
              → get_auth_session other (logout m hash).sessions
                ≡ get_auth_session other m.sessions))
unfolding logout
ended-refused m hash k = (
  λ later. validate-absent _ hash later (get-deleted hash m.sessions) k,
  (
    λ s now later e o. rw (validate-over m hash now s e o) (
      refl,
      validate-absent (with_sessions m (delete_auth_session hash m.sessions)) hash later
          (get-deleted hash m.sessions) k,
    ),
    λ other n. get-delete hash other m.sessions ∙ (rw n refl),
  ),
)
