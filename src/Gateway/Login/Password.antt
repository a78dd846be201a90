-- ===== src/Gateway/Login/Password.antt =====
-- crates/qw-gateway/src/auth.rs: `login`, and the setup of a fresh install.
use quanta_watch.Prelude.{
  ℕ, ◌+◌, Text, codes, trim, Bool, true, false, ◌&&◌, none, some, List, [], ◌∷◌, leb, ltb,
  if◌then◌else◌,
}
use quanta_watch.Store.{lookup, insert}
use quanta_watch.Gateway.Auth.{parse}
use quanta_watch.Gateway.Login.{
  Library, UserConfig, DbUser, Desk, LoginOutcome, ok, totp_required, enrollment_required,
  bad_credentials, locked_out, issue_session, issue_pending, record_login_failure,
  clear_login_lockout, lock_left, find_user,
}

-- The user of that name: those of the configuration come first.
pub data Account : Type 0 where
  configured : UserConfig → Account
  managed : DbUser → Account
  unknown : Account

unfoldable pub account_of : Desk → Text → Account
unfolding find_user lookup
account_of d username = elim (find_user username d.users) [
  | some u ↦ configured u
  | none ↦ elim (lookup username d.db_users) [ some u ↦ managed u | none ↦ unknown ]
]

-- A user of the configuration gets a session, a user of the store is asked for a code.
unfoldable pub admit_configured :
    Library → Desk → Text → UserConfig → Text → ℕ → Desk × LoginOutcome
unfolding issue_session clear_login_lockout parse
admit_configured lib d username u token now = (
  issue_session lib (clear_login_lockout d username) username (parse u.role) u.org token now,
  ok token (parse u.role) d.session_ttl_secs,
)

unfoldable pub admit_managed : Library → Desk → Text → DbUser → Text → ℕ → Desk × LoginOutcome
unfolding issue_pending clear_login_lockout
admit_managed lib d username u token now =
    let d' = clear_login_lockout d username in
    if u.totp_enabled
    then (issue_pending lib d' username (codes "verify") token now, totp_required token)
    else (issue_pending lib d' username (codes "enroll") token now, enrollment_required token)

-- The attempt on an account that is not locked.
unfoldable pub attempt : Library → Desk → Text → Text → Text → ℕ → Desk × LoginOutcome
unfolding account_of admit_configured admit_managed record_login_failure
attempt lib d username password token now =
    let failed : Desk × LoginOutcome = (record_login_failure d username now, bad_credentials) in
    elim (account_of d username) [
      | configured u ↦
          if lib.verify_password password u.password_hash
          then admit_configured lib d username u token now
          else failed
      | managed u ↦
          if lib.verify_password password u.password_hash
          then admit_managed lib d username u token now
          else failed
      | unknown ↦ failed
    ]

unfoldable pub login : Library → Desk → Text → Text → Text → ℕ → Desk × LoginOutcome
unfolding lock_left attempt
login lib d username password token now = elim (lock_left d username now) [
  | some secs ↦ (d, locked_out secs)
  | none ↦ attempt lib d username password token now
]

abbrev pub is_empty {ℓ} : {A : Type ℓ} → List A → Bool
is_empty [] = true
is_empty (x ∷ l) = false

unfoldable pub setup_required : Desk → Bool
setup_required d = is_empty d.users && is_empty d.db_users

-- `chars().count()`: the bytes that do not continue a character.
unfoldable pub count_chars : Text → ℕ
count_chars [] = 0
count_chars (c ∷ s) = let rest = count_chars s in if leb 128 c && ltb c 192 then rest else rest + 1

pub data SetupError : Type 0 where
  already_completed username_required password_too_short hash_failed : SetupError

pub data SetupResult : Type 0 where
  created : (pending : Text) → SetupResult
  refused : SetupError → SetupResult

abbrev pub first_admin : Text → Text → ℕ → DbUser
first_admin username password_hash now = record {
  username = username;
  role = codes "admin";
  org = codes "default";
  password_hash = password_hash;
  created_at = now;
  totp_secret = none;
  totp_enabled = false;
  backup_code_hashes = [];
}

abbrev pub upsert_user : Desk → DbUser → Desk
upsert_user d u = record d { db_users = insert u.username u d.db_users }

unfoldable pub setup_admin : Library → Desk → Text → Text → Text → ℕ → Desk × SetupResult
unfolding setup_required trim count_chars issue_pending insert
setup_admin lib d username password token now =
    if setup_required d
    then (if is_empty (trim username)
        then (d, refused username_required)
        else if ltb (count_chars password) 12
        then (d, refused password_too_short)
        else (elim (lib.hash_password password) [
          | none ↦ (d, refused hash_failed)
          | some hash ↦ (
            issue_pending lib (upsert_user d (first_admin (trim username) hash now)) (trim username)
                (codes "enroll") token now,
            created token,
          )
        ]))
    else (d, refused already_completed)
