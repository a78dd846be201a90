-- ===== src/Gateway/Login/Admission.antt =====
-- crates/qw-gateway/src/auth.rs: a password and the setup keep the users and the challenges valid.
use quanta_watch.Prelude.{
  ℕ, ◌≡◌, refl, inl, inr, Text, Bool, true, false, none, some, List, [], ◌∷◌, trim, ltb, ◌==◌,
  if◌then◌else◌, Option-cases, Bool-cases, arith,
}
use quanta_watch.Store.{lookup}
use quanta_watch.Gateway.Login.{
  Library, Desk, DbUser, bad_credentials, issue_pending, issue_session, record_login_failure,
  clear_login_lockout, lock_left, find_user,
}
use quanta_watch.Gateway.Login.Password.{
  login, attempt, account_of, admit_configured, admit_managed, setup_admin, setup_required,
  first_admin, is_empty, count_chars,
}
use quanta_watch.Gateway.Login.Grants.{attempt-configured}
use quanta_watch.Gateway.Login.Invariant.{Holds, pending-IsValid, user-IsValid}

pub failure-Holds :
    {w : Bool}
    → (d : Desk) (username : Text) (now : ℕ) → Holds w d
    → Holds w (record_login_failure d username now)
unfolding record_login_failure
failure-Holds d username now v = elim (Bool-cases (d.max_failed_logins == 0)) [
  | inl e ↦ rw e v
  | inr e ↦ rw e v
]

admit_managed-Holds :
    {w : Bool}
    → (lib : Library) (d : Desk) (username : Text) (u : DbUser) (token : Text) (now : ℕ) → Holds w d
    → lookup username d.db_users ≡ some u
    → Holds w (admit_managed lib d username u token now).0
unfolding admit_managed issue_pending clear_login_lockout
admit_managed-Holds lib d username u token now v found = elim (Bool-cases u.totp_enabled) [
  | inl e ↦
      rw e
        (pending-IsValid d.db_users d.pendings _ _ v (λ k. (u, found, v.armed username u found e)))
  | inr e ↦ rw e (pending-IsValid d.db_users d.pendings _ _ v (λ k. absurd (ground arith)))
]

attempt-managed :
    (lib : Library) (d : Desk) (username password token : Text) (now : ℕ) (u : DbUser)
    → find_user username d.users ≡ none
    → lookup username d.db_users ≡ some u
    → attempt lib d username password token now ≡ (
        if lib.verify_password password u.password_hash
        then admit_managed lib d username u token now
        else (record_login_failure d username now, bad_credentials))
unfolding attempt account_of
attempt-managed lib d username password token now u e f = rw (e, attempt) (rw f refl)

attempt-unknown :
    (lib : Library) (d : Desk) (username password token : Text) (now : ℕ)
    → find_user username d.users ≡ none
    → lookup username d.db_users ≡ none
    → attempt lib d username password token now
      ≡ (record_login_failure d username now, bad_credentials)
unfolding attempt account_of
attempt-unknown lib d username password token now e f = rw (e, attempt) (rw f refl)

pub if-Holds :
    {A : Type 0} {w : Bool}
    → (b : Bool) (x y : Desk × A) → Holds w x.0
    → Holds w y.0
    → Holds w (if b then x else y).0
if-Holds true x y hx hy = hx
if-Holds false x y hx hy = hy

attempt-Holds :
    {w : Bool}
    → (lib : Library) (d : Desk) (username password token : Text) (now : ℕ) → Holds w d
    → Holds w (attempt lib d username password token now).0
unfolding admit_configured issue_session clear_login_lockout
attempt-Holds lib d username password token now v =
    let failed = failure-Holds d username now v in
    elim (Option-cases (find_user username d.users)) [
      | inr (u, e) ↦
          rw (attempt-configured lib d username password token now u e)
            (if-Holds (lib.verify_password password u.password_hash) _ _ v failed)
      | inl e ↦ elim (Option-cases (lookup username d.db_users)) [
        | inl f ↦ rw (attempt-unknown lib d username password token now e f) failed
        | inr (u, f) ↦ rw (attempt-managed lib d username password token now u e f) (
            if-Holds (lib.verify_password password u.password_hash) _ _
              (admit_managed-Holds lib d username u token now v f) failed)
      ]
    ]

pub login-Holds :
    {w : Bool}
    → (lib : Library) (d : Desk) (username password token : Text) (now : ℕ) → Holds w d
    → Holds w (login lib d username password token now).0
unfolding login
login-Holds lib d username password token now v = elim (Option-cases (lock_left d username now)) [
  | inl e ↦ rw (e, login) (attempt-Holds lib d username password token now v)
  | inr (secs, e) ↦ rw (e, login) v
]

no_rows :
    {A : Type 0} (rows : List (Text × A)) (k : Text) → is_empty rows ≡ true → lookup k rows ≡ none
unfolding lookup
no_rows [] k h = refl
no_rows (r ∷ rows) k h = absurd (ground arith)

setup-no_users : (d : Desk) → setup_required d ≡ true → is_empty d.db_users ≡ true
unfolding setup_required
setup-no_users d h = ground arith

pub setup_admin-Holds :
    {w : Bool}
    → (lib : Library) (d : Desk) (username password token : Text) (now : ℕ) → Holds w d
    → Holds w (setup_admin lib d username password token now).0
unfolding setup_admin issue_pending
setup_admin-Holds lib d username password token now v = elim (Bool-cases (setup_required d)) [
  | inl first ↦
      rw (first, setup_admin)
        (if-Holds (is_empty (trim username)) _ _ v (
          if-Holds (ltb (count_chars password) 12) _ _ v
            (elim (Option-cases (lib.hash_password password)) [
              | inl e ↦ rw e v
              | inr (hash, e) ↦ rw e (
                  pending-IsValid _ d.pendings _ _
                    (user-IsValid d.db_users d.pendings (first_admin (trim username) hash now) v
                      (λ k. absurd (ground arith))
                      (λ _ old h. absurd (
                        ground
                          (arith, h, no_rows d.db_users (trim username) (setup-no_users d first)))))
                    (λ k. absurd (ground arith)))
            ])))
  | inr e ↦ rw (e, setup_admin) v
]
