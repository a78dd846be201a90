-- ===== src/Gateway/Login.antt =====
-- crates/qw-gateway/src/auth.rs, mfa.rs and admin/users_api.rs: how a user gets a session. A password, then a code of an
-- authenticator or a backup code; with a lock after too many failures. Instants are in nanoseconds, and
-- an operation reads the clock once. The random tokens that an operation draws are its arguments.
pub mod Lockout
pub mod Calls
pub mod Grants
pub mod Provenance
pub mod Invariant
pub mod Admission
pub mod Factors
pub mod History
pub mod SingleUse
pub mod BackupCodes
pub mod Setup
pub mod Onboarding
pub mod Password
pub mod Codes
pub mod Users
pub mod Administration
use quanta_watch.Prelude.{
  ℕ, suc, ◌+◌, ◌-◌, ◌*◌, ◌/◌, ◌%◌, ◌^◌, Text, codes, text_eq, trim, Bool, true, false, not, ◌&&◌,
  ◌||◌, Option, none, some, List, [], ◌∷◌, ◌++◌, map, leb, ltb, if◌then◌else◌, ◌==◌,
}
use quanta_watch.Store.{lookup, insert, erase}
use quanta_watch.Gateway.Rbac.{drop}
use quanta_watch.Gateway.Auth.{
  Role, viewer, auditor, operator, admin, parse, AuthSession, AuthManager, delete_auth_session,
  second, add_secs, with_sessions,
}

-- `Role::label`
unfoldable pub label : Role → Text
label viewer = codes "viewer"
label auditor = codes "auditor"
label operator = codes "operator"
label admin = codes "admin"

-- What the source takes from argon2, sha3, totp-rs, and from serde_json and the database: whether the
-- JSON of a session is LIKE the pattern of a name. The check of a code depends on the time.
pub record Library : Type 0 where
  pub verify_password : Text → Text → Bool
  pub hash_password : Text → Option Text
  pub sha3_256_hex : Text → Text
  pub verify_totp : (secret account : Text) (now : ℕ) (code : Text) → Bool
  pub otpauth_url : (secret account : Text) → Option Text
  pub is_like : AuthSession → (username : Text) → Bool

pub record UserConfig : Type 0 where
  pub username : Text
  pub password_hash : Text
  pub role : Text
  pub org : Text

pub record LockoutState : Type 0 where
  pub failures : ℕ
  pub first_failure_at : ℕ
  pub locked_until : Option ℕ

pub record MfaPending : Type 0 where
  pub username : Text
  pub kind : Text
  pub expires_at : ℕ

pub record DbUser : Type 0 where
  pub username : Text
  pub role : Text
  pub org : Text
  pub password_hash : Text
  pub created_at : ℕ
  pub totp_secret : Option Text
  pub totp_enabled : Bool
  pub backup_code_hashes : List Text

-- The manager with the rest of its configuration, `roles` the names of the configured roles, and the
-- other tables of its store.
pub record Desk : Type 0 where
  pub auth : AuthManager
  pub users : List UserConfig
  pub session_ttl_secs : ℕ
  pub max_failed_logins : ℕ
  pub lockout_secs : ℕ
  pub roles : List Text
  pub db_users : List (Text × DbUser)
  pub lockouts : List (Text × LockoutState)
  pub pendings : List (Text × MfaPending)
  pub oidc_states : List (Text × ℕ)

pub data LoginOutcome : Type 0 where
  ok : (token : Text) (role : Role) (ttl : ℕ) → LoginOutcome
  totp_required : (pending : Text) → LoginOutcome
  enrollment_required : (pending : Text) → LoginOutcome
  bad_credentials : LoginOutcome
  locked_out : (retry_after_secs : ℕ) → LoginOutcome

unfoldable pub put_auth_session : AuthManager → Text → AuthSession → AuthManager
unfolding delete_auth_session
put_auth_session m hash s = with_sessions m ((hash, s) ∷ delete_auth_session hash m.sessions)

abbrev pub new_session : Desk → Text → Role → Text → ℕ → AuthSession
new_session d username role org now = record {
  username = username;
  role = label role;
  org = org;
  expires_at = add_secs now d.session_ttl_secs;
  last_used = now;
}

unfoldable pub issue_session : Library → Desk → Text → Role → Text → Text → ℕ → Desk
unfolding put_auth_session label add_secs
issue_session lib d username role org token now = record d {
  auth = put_auth_session d.auth (lib.sha3_256_hex token) (new_session d username role org now);
}

-- For whom an identity provider has vouched.
unfoldable pub create_external_session : Library → Desk → Text → Role → Text → Text → ℕ → Desk
unfolding issue_session
create_external_session lib d username role org token now =
    issue_session lib d username role org token now

unfoldable pub issue_pending : Library → Desk → Text → Text → Text → ℕ → Desk
unfolding insert
issue_pending lib d username kind token now = record d {
  pendings =
      insert (lib.sha3_256_hex token)
        (record { username = username; kind = kind; expires_at = now + 600 * second }) d.pendings;
}

-- The row is gone, also where the challenge had expired.
unfoldable pub consume_mfa_pending : Desk → Text → ℕ → Desk × Option MfaPending
unfolding lookup erase
consume_mfa_pending d hash now = (
  record d { pendings = erase hash d.pendings },
  elim (lookup hash d.pendings) [
    | none ↦ none
    | some p ↦ if ltb now p.expires_at then some p else none
  ],
)

-- The challenge of a token, where it is of the kind that the step takes.
unfoldable pub challenge : Library → Desk → Text → Text → ℕ → Desk × Option MfaPending
unfolding consume_mfa_pending text_eq
challenge lib d kind token now =
    let (d', found) = consume_mfa_pending d (lib.sha3_256_hex token) now in
    (d', elim found [ none ↦ none | some p ↦ if text_eq p.kind kind then some p else none ])

-- A state keeps its expiry in whole seconds.
unfoldable pub begin_oidc : Desk → Text → ℕ → Desk
unfolding insert
begin_oidc d state now = record d {
  oidc_states = insert state ((now + 600 * second) / second * second) d.oidc_states;
}

unfoldable pub consume_oidc_state : Desk → Text → ℕ → Desk × Bool
unfolding lookup erase
consume_oidc_state d state now = (
  record d { oidc_states = erase state d.oidc_states },
  elim (lookup state d.oidc_states) [ none ↦ false | some exp ↦ ltb now exp ],
)

abbrev pub fresh_lockout : ℕ → LockoutState
fresh_lockout now = record { failures = 0; first_failure_at = now; locked_until = none }

-- The streak that a failure adds to: a lock that has lapsed starts a new one.
unfoldable pub streak_of : Option LockoutState → ℕ → LockoutState
streak_of none now = fresh_lockout now
streak_of (some st) now = elim st.locked_until [
  | none ↦ st
  | some until ↦ if leb until now then fresh_lockout now else st
]

-- `failures` is a `u32`.
unfoldable pub count_failure : Desk → LockoutState → ℕ → LockoutState
unfolding add_secs
count_failure d st now =
    let failures = (st.failures + 1) % 2 ^ 32 in
    if leb d.max_failed_logins failures
    then record st { failures = failures; locked_until = some (add_secs now d.lockout_secs) }
    else record st { failures = failures }

unfoldable pub record_login_failure : Desk → Text → ℕ → Desk
unfolding lookup insert streak_of count_failure
record_login_failure d username now = if d.max_failed_logins == 0 then d else record d {
  lockouts =
      insert username (count_failure d (streak_of (lookup username d.lockouts) now) now) d.lockouts;
}

unfoldable pub clear_login_lockout : Desk → Text → Desk
unfolding erase
clear_login_lockout d username = record d { lockouts = erase username d.lockouts }

-- The seconds that a lock of the account has left.
unfoldable pub lock_left : Desk → Text → ℕ → Option ℕ
unfolding lookup
lock_left d username now = elim (lookup username d.lockouts) [
  | none ↦ none
  | some st ↦ elim st.locked_until [
    | none ↦ none
    | some until ↦
        if ltb 0 d.max_failed_logins && ltb now until then some ((until - now) / second) else none
  ]
]

unfoldable pub find_user : Text → List UserConfig → Option UserConfig
unfolding text_eq
find_user username [] = none
find_user username (u ∷ users) =
    let rest = find_user username users in if text_eq u.username username then some u else rest
