-- ===== src/Gateway/Login/Provenance.antt =====
-- crates/qw-gateway/src/auth.rs: where the sessions of a desk come from, over a history of calls.
use quanta_watch.Prelude.{
  ℕ, ◌≡◌, ◌⊎◌, refl, sym, ap, ◌∙◌, inl, inr, Text, text_eq, text_eq_iff, true, false, none, some,
  List, [], ◌∷◌, if◌then◌else◌, Option-cases, Bool-cases, arith,
}
use quanta_watch.Gateway.Auth.{
  AuthSession, AuthManager, get_auth_session, delete_auth_session, touch_auth_session,
  validate_session, validate, logout,
}
use quanta_watch.Gateway.Auth.Sessions.{get-delete, some-injective, validate-session}
use quanta_watch.Gateway.Login.{
  Library, Desk, new_session, issue_session, create_external_session, put_auth_session, challenge,
  consume_mfa_pending, issue_pending, begin_oidc, consume_oidc_state,
}
use quanta_watch.Gateway.Login.Password.{setup_admin}
use quanta_watch.Gateway.Login.Codes.{begin_enrollment, offer_secret}
use quanta_watch.Gateway.Login.Calls.{
  Call, logs_in, verifies, begins, confirms, sets_up, begins_oidc, ends_oidc, uses, logs_out,
  enters_externally, creates_user, updates_user, deletes_user, resets_2fa, resets_password, step,
}
use quanta_watch.Gateway.Login.Administration.{
  get-delete_user, create_user-auth, update_user-auth, reset_2fa-auth, reset_password-auth,
}
use quanta_watch.Gateway.Login.Grants.{
  ByPassword, ByCode, ByEnrollment, login-grants, verify_totp_login-grants,
  confirm_enrollment-grants,
}

-- What opens a session in a call; the other calls open none.
abbrev pub Granted : Library → Desk → ℕ → Call → AuthManager → Type 0
Granted lib d now (logs_in username password token) a =
    ByPassword lib d username password token now a
Granted lib d now (verifies pending code token) a = ByCode lib d pending code token now a
Granted lib d now (confirms pending code raws token) a = ByEnrollment lib d pending code token now a
Granted lib d now (begins pending generated token) a = ⊥
Granted lib d now (sets_up username password token) a = ⊥
Granted lib d now (begins_oidc state) a = ⊥
Granted lib d now (ends_oidc state) a = ⊥
Granted lib d now (uses credential) a = ⊥
Granted lib d now (logs_out token) a = ⊥
Granted lib d now (enters_externally username role org token) a =
    a ≡ put_auth_session d.auth (lib.sha3_256_hex token) (new_session d username role org now)
Granted lib d now (creates_user tenant username password role org) a = ⊥
Granted lib d now (updates_user username role password) a = ⊥
Granted lib d now (deletes_user caller username) a = ⊥
Granted lib d now (resets_2fa username) a = ⊥
Granted lib d now (resets_password username password) a = ⊥

-- The token that a call draws.
abbrev pub drawn : Call → Text
drawn (logs_in username password token) = token
drawn (verifies pending code token) = token
drawn (confirms pending code raws token) = token
drawn (begins pending generated token) = token
drawn (sets_up username password token) = token
drawn (begins_oidc state) = state
drawn (ends_oidc state) = []
drawn (uses credential) = []
drawn (logs_out token) = []
drawn (enters_externally username role org token) = token
drawn (creates_user tenant username password role org) = []
drawn (updates_user username role password) = []
drawn (deletes_user caller username) = []
drawn (resets_2fa username) = []
drawn (resets_password username password) = []

-- A session that was there before, for the same user, role, tenant and lifetime.
pub record IsCarried (m : AuthManager) (hash : Text) (s : AuthSession) : Type 0 where
  pub before : AuthSession
  pub stored : get_auth_session hash m.sessions ≡ some before
  pub same_user : s.username ≡ before.username
  pub same_role : s.role ≡ before.role
  pub same_org : s.org ≡ before.org
  pub same_expiry : s.expires_at ≡ before.expires_at

stored-IsCarried :
    (m : AuthManager) (hash : Text) (s : AuthSession)
    → get_auth_session hash m.sessions ≡ some s
    → IsCarried m hash s
stored-IsCarried m hash s h = record {
  before = s;
  stored = h;
  same_user = refl;
  same_role = refl;
  same_org = refl;
  same_expiry = refl;
}

pub get-put :
    (m : AuthManager) (hash other : Text) (s : AuthSession)
    → get_auth_session other (put_auth_session m hash s).sessions
      ≡ (if text_eq hash other then some s else get_auth_session other m.sessions)
unfolding get_auth_session put_auth_session
get-put m hash other s = ground (arith, get-delete hash other m.sessions)

put-IsCarried :
    (m a : AuthManager) (hash other : Text) (new s : AuthSession)
    → a ≡ put_auth_session m hash new
    → get_auth_session other a.sessions ≡ some s
    → text_eq hash other ≡ false
    → IsCarried m other s
put-IsCarried m a hash other new s e h n = stored-IsCarried m other s (
    sym (ap (λ b. if b then some new else get_auth_session other m.sessions) n)
    ∙ (sym (get-put m hash other new) ∙ (sym (ap (λ z. get_auth_session other z.sessions) e) ∙ h)))

get-touch :
    (hash other : Text) (new : AuthSession) (sessions : List (Text × AuthSession))
    → get_auth_session other (touch_auth_session hash new sessions) ≡ (
        if text_eq hash other
        then (elim (get_auth_session other sessions) [ none ↦ none | some s ↦ some new ])
        else get_auth_session other sessions)
unfolding get_auth_session touch_auth_session
get-touch hash other new [] = ground arith
get-touch hash other new ((k, s) ∷ sessions) = ground (
  arith,
  get-touch hash other new sessions,
  text_eq_iff hash other,
  text_eq_iff k hash,
  text_eq_iff k other,
)

delete-IsCarried :
    (m : AuthManager) (hash other : Text) (s : AuthSession)
    → get_auth_session other (delete_auth_session hash m.sessions) ≡ some s
    → IsCarried m other s
delete-IsCarried m hash other s h =
    let found = sym (get-delete hash other m.sessions) ∙ h in
    elim (Bool-cases (text_eq hash other)) [
      | inl e ↦ absurd (ground arith)
      | inr e ↦ stored-IsCarried m other s (ground arith)
    ]

touch-IsCarried :
    (m : AuthManager) (hash other : Text) (old s : AuthSession) (now : ℕ)
    → get_auth_session hash m.sessions ≡ some old
    → get_auth_session other (touch_auth_session hash (record old { last_used = now }) m.sessions)
      ≡ some s
    → IsCarried m other s
touch-IsCarried m hash other old s now e h =
    let found = sym (get-touch hash other (record old { last_used = now }) m.sessions) ∙ h in
    elim (Bool-cases (text_eq hash other)) [
      | inl same ↦
          let at_hash = (text_eq_iff hash other).0 same in
          let stored = ap (λ z. get_auth_session z m.sessions) (sym at_hash) ∙ e in
          let new =
            some-injective (record old { last_used = now }) s (ground (arith, found, stored)) in
          record {
            before = old;
            stored = stored;
            same_user = ap (λ z. z.username) (sym new);
            same_role = ap (λ z. z.role) (sym new);
            same_org = ap (λ z. z.org) (sym new);
            same_expiry = ap (λ z. z.expires_at) (sym new);
          }
      | inr other_hash ↦ stored-IsCarried m other s (ground arith)
    ]

session-IsCarried :
    (m : AuthManager) (hash other : Text) (old : AuthSession) (now : ℕ) (s : AuthSession)
    → get_auth_session hash m.sessions ≡ some old
    → get_auth_session other (validate_session m hash old now).0.sessions ≡ some s
    → IsCarried m other s
unfolding validate_session
session-IsCarried m hash other old now s e h = ground (
  arith,
  delete-IsCarried m hash other s,
  touch-IsCarried m hash other old s now e,
  stored-IsCarried m other s,
)

validate-IsCarried :
    (m : AuthManager) (hash other : Text) (now : ℕ) (s : AuthSession)
    → get_auth_session other (validate m hash now).0.sessions ≡ some s
    → IsCarried m other s
unfolding validate validate_session
validate-IsCarried m hash other now s h = elim (Option-cases (get_auth_session hash m.sessions)) [
  | inl e ↦ stored-IsCarried m other s (ground (arith, h, e))
  | inr (old, e) ↦
      session-IsCarried m hash other old now s e (
        ap (λ z. get_auth_session other z.0.sessions) (sym (validate-session m hash now old e)) ∙ h)
]

same-IsCarried :
    (m a : AuthManager) (hash : Text) (s : AuthSession)
    → a ≡ m
    → get_auth_session hash a.sessions ≡ some s
    → IsCarried m hash s
same-IsCarried m a hash s e h =
    stored-IsCarried m hash s (ap (λ z. get_auth_session hash z.sessions) (sym e) ∙ h)

-- A session either was there, or is the one under the drawn token.
origin :
    (m a : AuthManager) (hash other : Text) (s : AuthSession) (G : Type 0)
    → (a ≡ m) ⊎ (G × ((new : AuthSession) × (a ≡ put_auth_session m hash new)))
    → get_auth_session other a.sessions ≡ some s
    → IsCarried m other s ⊎ (G × (text_eq hash other ≡ true))
origin m a hash other s G (inl e) h = inl (same-IsCarried m a other s e h)
origin m a hash other s G (inr (g, (new, e))) h = elim (Bool-cases (text_eq hash other)) [
  | inl same ↦ inr (g, same)
  | inr n ↦ inl (put-IsCarried m a hash other new s e h n)
]

begin-auth :
    (lib : Library) (d : Desk) (pending generated token : Text) (now : ℕ)
    → (begin_enrollment lib d pending generated token now).0.auth ≡ d.auth
unfolding begin_enrollment offer_secret issue_pending challenge consume_mfa_pending
begin-auth lib d pending generated token now = ground arith

setup-auth :
    (lib : Library) (d : Desk) (username password token : Text) (now : ℕ)
    → (setup_admin lib d username password token now).0.auth ≡ d.auth
unfolding setup_admin issue_pending
setup-auth lib d username password token now = ground arith

-- In one call a session of the store is carried over from before, for the same user, role, tenant and
-- lifetime, or it is under the token that the call drew and rests on what the call was shown: the
-- password of a user of the configuration whose account is not locked; or a live challenge of the kind
-- `verify` and a code of the user's authenticator or a backup code of the user; or a live challenge of
-- the kind `enroll` and a code of the user's secret; or it is the session that was asked for with
-- `create_external_session`, for the user, role and tenant given, for whom the caller has vouched. The
-- other calls, the user administration included, open none.
pub step-grants :
    (lib : Library) (d : Desk) (now : ℕ) (c : Call) (hash : Text) (s : AuthSession)
    → get_auth_session hash (step lib d (now, c)).auth.sessions ≡ some s
    → IsCarried d.auth hash s
      ⊎ (Granted lib d now c (step lib d (now, c)).auth
          × (text_eq (lib.sha3_256_hex (drawn c)) hash ≡ true))
unfolding step begin_oidc consume_oidc_state logout create_external_session issue_session
step-grants lib d now (logs_in username password token) hash s h =
    origin d.auth _ (lib.sha3_256_hex token) hash s _
      (elim (login-grants lib d username password token now) [
        | inl e ↦ inl e
        | inr g ↦ inr (g, (_, g.opened))
      ])
      h
step-grants lib d now (verifies pending code token) hash s h =
    origin d.auth _ (lib.sha3_256_hex token) hash s _
      (elim (verify_totp_login-grants lib d pending code token now) [
        | inl e ↦ inl e
        | inr g ↦ inr (g, (_, g.opened))
      ])
      h
step-grants lib d now (confirms pending code raws token) hash s h =
    origin d.auth _ (lib.sha3_256_hex token) hash s _
      (elim (confirm_enrollment-grants lib d pending code raws token now) [
        | inl e ↦ inl e
        | inr g ↦ inr (g, (_, g.opened))
      ])
      h
step-grants lib d now (begins pending generated token) hash s h =
    inl (same-IsCarried d.auth _ hash s (begin-auth lib d pending generated token now) h)
step-grants lib d now (sets_up username password token) hash s h =
    inl (same-IsCarried d.auth _ hash s (setup-auth lib d username password token now) h)
step-grants lib d now (begins_oidc state) hash s h = inl (stored-IsCarried d.auth hash s h)
step-grants lib d now (ends_oidc state) hash s h = inl (stored-IsCarried d.auth hash s h)
step-grants lib d now (uses credential) hash s h =
    inl (validate-IsCarried d.auth (lib.sha3_256_hex credential) hash now s h)
step-grants lib d now (logs_out token) hash s h =
    inl (delete-IsCarried d.auth (lib.sha3_256_hex token) hash s h)
step-grants lib d now (enters_externally username role org token) hash s h =
    origin d.auth _ (lib.sha3_256_hex token) hash s _ (inr (refl, (_, refl))) h
step-grants lib d now (creates_user tenant username password role org) hash s h = inl (
    same-IsCarried d.auth _ hash s (create_user-auth lib d tenant username password role org now) h)
step-grants lib d now (updates_user username role password) hash s h =
    inl (same-IsCarried d.auth _ hash s (update_user-auth lib d username role password) h)
step-grants lib d now (deletes_user caller username) hash s h =
    inl (stored-IsCarried d.auth hash s (get-delete_user lib d caller username hash s h))
step-grants lib d now (resets_2fa username) hash s h =
    inl (same-IsCarried d.auth _ hash s (reset_2fa-auth d username) h)
step-grants lib d now (resets_password username password) hash s h =
    inl (same-IsCarried d.auth _ hash s (reset_password-auth lib d username password) h)
