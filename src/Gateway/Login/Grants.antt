-- ===== src/Gateway/Login/Grants.antt =====
-- crates/qw-gateway/src/auth.rs: what a session rests on.
use quanta_watch.Prelude.{
  ℕ, ◌<◌, ◌≡◌, ◌⊎◌, refl, ◌∙◌, inl, inr, Text, codes, text_eq, Bool, true, none, some, List, ltb,
  if◌then◌else◌, Option-cases, Bool-cases, arith,
}
use quanta_watch.Store.{lookup}
use quanta_watch.Gateway.Auth.{parse, AuthManager}
use quanta_watch.Gateway.Login.{
  Library, UserConfig, MfaPending, DbUser, Desk, bad_credentials, put_auth_session, new_session,
  lock_left, find_user, challenge, consume_mfa_pending, issue_pending, issue_session,
  record_login_failure, clear_login_lockout,
}
use quanta_watch.Gateway.Login.Password.{
  account_of, attempt, login, admit_configured, admit_managed,
}
use quanta_watch.Gateway.Login.Codes.{
  or_empty, hash_backup_code, remove_first, consume_backup_code, check_code, verify_code,
  verify_totp_login, confirm_user, confirm_enrollment, enable,
}

-- The challenge of a token is in the store, unexpired and of that kind.
pub record IsChallenge (lib : Library) (d : Desk) (kind token : Text) (now : ℕ) (p : MfaPending)
    : Type 0 where
  pub stored : lookup (lib.sha3_256_hex token) d.pendings ≡ some p
  pub unexpired : now < p.expires_at
  pub of_kind : text_eq p.kind kind ≡ true

-- A code of the user's authenticator, or one of the user's backup codes.
abbrev pub IsCode : Library → DbUser → Text → Text → ℕ → Type 0
IsCode lib u username code now =
    (lib.verify_totp (or_empty u.totp_secret) username now code ≡ true)
    ⊎ ((hashes : List Text) × (remove_first (hash_backup_code lib code) u.backup_code_hashes
          ≡ some hashes))

pub challenge-result :
    (lib : Library) (d : Desk) (kind token : Text) (now : ℕ) (p : MfaPending)
    → (challenge lib d kind token now).1 ≡ some p
    → IsChallenge lib d kind token now p
unfolding challenge consume_mfa_pending
challenge-result lib d kind token now p h =
    elim (Option-cases (lookup (lib.sha3_256_hex token) d.pendings)) [
      | inl e ↦ ground arith
      | inr (q, e) ↦ elim (Bool-cases (ltb now q.expires_at)) [
        | inl l ↦ elim (Bool-cases (text_eq q.kind kind)) [
          | inl k ↦ record {
            stored = ground arith;
            unexpired = ground arith;
            of_kind = ground arith;
          }
          | inr k ↦ ground arith
        ]
        | inr l ↦ ground arith
      ]
    ]

challenge-rest :
    (lib : Library) (d : Desk) (kind token : Text) (now : ℕ)
    → ((challenge lib d kind token now).0.auth ≡ d.auth)
      × (((challenge lib d kind token now).0.db_users ≡ d.db_users)
          × ((challenge lib d kind token now).0.session_ttl_secs ≡ d.session_ttl_secs))
unfolding challenge consume_mfa_pending
challenge-rest lib d kind token now = (refl, (refl, refl))

-- A session by the password of a user of the configuration, whose account is not locked.
pub record ByPassword (lib : Library) (d : Desk) (username password token : Text) (now : ℕ)
    (a : AuthManager) : Type 0 where
  pub user : UserConfig
  pub found : find_user username d.users ≡ some user
  pub verified : lib.verify_password password user.password_hash ≡ true
  pub unlocked : lock_left d username now ≡ none
  pub opened :
      a
      ≡ put_auth_session d.auth
          (lib.sha3_256_hex token)
          (new_session d username (parse user.role) user.org now)

-- A session by a challenge of a correct password and by a code.
pub record ByCode (lib : Library) (d : Desk) (pending code token : Text) (now : ℕ) (a : AuthManager)
    : Type 0 where
  pub p : MfaPending
  pub challenged : IsChallenge lib d (codes "verify") pending now p
  pub user : DbUser
  pub found : lookup p.username d.db_users ≡ some user
  pub coded : IsCode lib user p.username code now
  pub opened :
      a
      ≡ put_auth_session d.auth
          (lib.sha3_256_hex token)
          (new_session d p.username (parse user.role) user.org now)

-- A session by the first code of an authenticator.
pub record ByEnrollment (lib : Library) (d : Desk) (pending code token : Text) (now : ℕ)
    (a : AuthManager) : Type 0 where
  pub p : MfaPending
  pub challenged : IsChallenge lib d (codes "enroll") pending now p
  pub user : DbUser
  pub found : lookup p.username d.db_users ≡ some user
  pub secret : Text
  pub has_secret : user.totp_secret ≡ some secret
  pub coded : lib.verify_totp secret p.username now code ≡ true
  pub opened :
      a
      ≡ put_auth_session d.auth
          (lib.sha3_256_hex token)
          (new_session d p.username (parse user.role) user.org now)

failure-auth :
    (d : Desk) (username : Text) (now : ℕ) → (record_login_failure d username now).auth ≡ d.auth
unfolding record_login_failure
failure-auth d username now = ground arith

admit_managed-auth :
    (lib : Library) (d : Desk) (username : Text) (u : DbUser) (token : Text) (now : ℕ)
    → (admit_managed lib d username u token now).0.auth ≡ d.auth
unfolding admit_managed issue_pending clear_login_lockout
admit_managed-auth lib d username u token now = ground arith

pub attempt-configured :
    (lib : Library) (d : Desk) (username password token : Text) (now : ℕ) (u : UserConfig)
    → find_user username d.users ≡ some u
    → attempt lib d username password token now ≡ (
        if lib.verify_password password u.password_hash
        then admit_configured lib d username u token now
        else (record_login_failure d username now, bad_credentials))
unfolding attempt account_of
attempt-configured lib d username password token now u e = rw (e, attempt) refl

attempt-other :
    (lib : Library) (d : Desk) (username password token : Text) (now : ℕ)
    → find_user username d.users ≡ none
    → (attempt lib d username password token now).0.auth ≡ d.auth
unfolding attempt account_of
attempt-other lib d username password token now e =
    let asked : (u : DbUser) → (admit_managed lib d username u token now).0.auth ≡ d.auth =
      λ u. admit_managed-auth lib d username u token now in
    ground (arith, failure-auth d username now, asked)

pub login-grants :
    (lib : Library) (d : Desk) (username password token : Text) (now : ℕ)
    → ((login lib d username password token now).0.auth ≡ d.auth)
      ⊎ ByPassword lib d username password token now
          (login lib d username password token now).0.auth
unfolding login admit_configured issue_session clear_login_lockout
login-grants lib d username password token now = elim (Option-cases (lock_left d username now)) [
  | inr (secs, l) ↦ inl (rw (l, login) refl)
  | inl l ↦
      rw (l, login)
        (elim (Option-cases (find_user username d.users)) [
          | inl e ↦ inl (attempt-other lib d username password token now e)
          | inr (u, e) ↦ elim (Bool-cases (lib.verify_password password u.password_hash)) [
            | inl v ↦ rw (attempt-configured lib d username password token now u e) (
                rw v
                  (inr (record { user = u; found = e; verified = v; unlocked = l; opened = refl })))
            | inr v ↦
                rw (attempt-configured lib d username password token now u e)
                  (rw v (inl (failure-auth d username now)))
          ]
        ])
]

abbrev IsChecked : Library → Desk → Text → DbUser → Text → ℕ → Desk × Bool → Type 0
IsChecked lib d username user code now r =
    ((r.0.auth ≡ d.auth) × (r.0.session_ttl_secs ≡ d.session_ttl_secs))
    × (r.1 ≡ true → IsCode lib user username code now)

check_code-IsChecked :
    (lib : Library) (d : Desk) (username : Text) (user : DbUser) (code : Text) (now : ℕ)
    → IsChecked lib d username user code now (check_code lib d username user code now)
unfolding check_code consume_backup_code
check_code-IsChecked lib d username user code now =
    elim (Bool-cases (lib.verify_totp (or_empty user.totp_secret) username now code)) [
      | inl v ↦ rw v ((refl, refl), λ _. inl refl)
      | inr v ↦
          rw v
            (elim (Option-cases
              (remove_first (hash_backup_code lib code) user.backup_code_hashes)) [
                | inl e ↦ rw (e, consume_backup_code) ((refl, refl), λ h. absurd (ground arith))
                | inr (hashes, e) ↦
                    rw (e, consume_backup_code) ((refl, refl), λ _. inr (hashes, refl))
              ])
    ]

-- The grant of a code, from the desk that the challenge left.
verify_code-grants :
    (lib : Library) (d : Desk) (p : MfaPending) (code token : Text) (now : ℕ)
    → ((verify_code lib d p code token now).0.auth ≡ d.auth)
      ⊎ ((user : DbUser) × (lookup p.username d.db_users ≡ some user)
          × IsCode lib user p.username code now
          × ((verify_code lib d p code token now).0.auth
              ≡ put_auth_session d.auth
                  (lib.sha3_256_hex token)
                  (new_session d p.username (parse user.role) user.org now)))
unfolding verify_code issue_session
verify_code-grants lib d p code token now = elim (Option-cases (lookup p.username d.db_users)) [
  | inl e ↦ inl (rw (e, verify_code) refl)
  | inr (user, e) ↦
      let checked = check_code-IsChecked lib d p.username user code now in
      elim (Bool-cases (check_code lib d p.username user code now).1) [
        | inl good ↦ inr (
          user,
          e,
          checked.1 good,
          rw (e, verify_code) (rw good (rw (checked.0.0) (rw (checked.0.1) refl))),
        )
        | inr bad ↦ inl (rw (e, verify_code) (rw bad (failure-auth _ p.username now ∙ checked.0.0)))
      ]
]

pub verify_totp_login-grants :
    (lib : Library) (d : Desk) (pending code token : Text) (now : ℕ)
    → ((verify_totp_login lib d pending code token now).0.auth ≡ d.auth)
      ⊎ ByCode lib d pending code token now (verify_totp_login lib d pending code token now).0.auth
unfolding verify_totp_login
verify_totp_login-grants lib d pending code token now =
    let d' = (challenge lib d (codes "verify") pending now).0 in
    let kept = challenge-rest lib d (codes "verify") pending now in
    elim (Option-cases (challenge lib d (codes "verify") pending now).1) [
      | inl e ↦ inl (rw (e, verify_totp_login) (kept.0))
      | inr (p, e) ↦ elim (verify_code-grants lib d' p code token now) [
        | inl same ↦ inl (rw (e, verify_totp_login) (same ∙ kept.0))
        | inr (user, found, coded, opened) ↦ inr (record {
          p = p;
          challenged = challenge-result lib d (codes "verify") pending now p e;
          user = user;
          found = found;
          coded = coded;
          opened = rw (e, verify_totp_login) opened;
        })
      ]
    ]

confirm_user-grants :
    (lib : Library) (d : Desk) (p : MfaPending) (user : DbUser) (code : Text) (raws : ℕ → Text)
    (token : Text) (now : ℕ)
    → ((confirm_user lib d p user code raws token now).0.auth ≡ d.auth)
      ⊎ ((secret : Text) × (user.totp_secret ≡ some secret)
          × (lib.verify_totp secret p.username now code ≡ true)
          × ((confirm_user lib d p user code raws token now).0.auth
              ≡ put_auth_session d.auth
                  (lib.sha3_256_hex token)
                  (new_session d p.username (parse user.role) user.org now)))
unfolding confirm_user enable issue_session
confirm_user-grants lib d p user code raws token now = elim (Option-cases user.totp_secret) [
  | inl e ↦ inl (rw (e, confirm_user) refl)
  | inr (secret, e) ↦ elim (Bool-cases (lib.verify_totp secret p.username now code)) [
    | inl v ↦ inr (secret, e, v, rw (e, confirm_user) (rw v refl))
    | inr v ↦ inl (rw (e, confirm_user) (rw v refl))
  ]
]

pub confirm_enrollment-grants :
    (lib : Library) (d : Desk) (pending code : Text) (raws : ℕ → Text) (token : Text) (now : ℕ)
    → ((confirm_enrollment lib d pending code raws token now).0.auth ≡ d.auth)
      ⊎ ByEnrollment lib d pending code token now
          (confirm_enrollment lib d pending code raws token now).0.auth
unfolding confirm_enrollment challenge consume_mfa_pending
confirm_enrollment-grants lib d pending code raws token now =
    let d' = (challenge lib d (codes "enroll") pending now).0 in
    elim (Option-cases (challenge lib d (codes "enroll") pending now).1) [
      | inl e ↦ inl (rw (e, confirm_enrollment) refl)
      | inr (p, e) ↦ elim (Option-cases (lookup p.username d'.db_users)) [
        | inl f ↦ inl (rw (e, confirm_enrollment) (rw f refl))
        | inr (user, f) ↦ elim (confirm_user-grants lib d' p user code raws token now) [
          | inl same ↦ inl (rw (e, confirm_enrollment) (rw f same))
          | inr (secret, has_secret, coded, opened) ↦ inr (record {
            p = p;
            challenged = challenge-result lib d (codes "enroll") pending now p e;
            user = user;
            found = f;
            secret = secret;
            has_secret = has_secret;
            coded = coded;
            opened = rw (e, confirm_enrollment) (rw f opened);
          })
        ]
      ]
    ]
