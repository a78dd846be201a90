-- ===== src/Gateway/Login/SingleUse.antt =====
-- crates/qw-gateway/src/auth.rs and mfa.rs: challenges and backup codes are good for one use.
use quanta_watch.Prelude.{
  ℕ, ◌≡◌, refl, ◌∙◌, inl, inr, Text, codes, text_eq, false, none, Option-cases, arith,
}
use quanta_watch.Store.{lookup, erase, lookup-erase_self, lookup-insert_ne}
use quanta_watch.Gateway.Login.{
  Library, Desk, DbUser, MfaPending, bad_credentials, challenge, consume_mfa_pending, issue_pending,
  issue_session, record_login_failure,
}
use quanta_watch.Gateway.Login.Codes.{
  verify_totp_login, verify_code, check_code, consume_backup_code, begin_enrollment, offer_secret,
  enrollment_secret, confirm_enrollment, confirm_user, enable,
}

-- A token that no step takes, of whatever kind, code and time.
pub record IsSpent (lib : Library) (d : Desk) (pending : Text) : Type 0 where
  pub no_session :
      (code token : Text) (now : ℕ)
      → (verify_totp_login lib d pending code token now).1 ≡ bad_credentials
  pub no_enrollment :
      (generated token : Text) (now : ℕ)
      → (begin_enrollment lib d pending generated token now).1 ≡ none
  pub no_confirmation :
      (code : Text) (raws : ℕ → Text) (token : Text) (now : ℕ)
      → (confirm_enrollment lib d pending code raws token now).1 ≡ none

challenge-absent :
    (lib : Library) (d : Desk) (kind pending : Text) (now : ℕ)
    → lookup (lib.sha3_256_hex pending) d.pendings ≡ none
    → (challenge lib d kind pending now).1 ≡ none
unfolding challenge consume_mfa_pending
challenge-absent lib d kind pending now h = ground (arith, h)

absent-IsSpent :
    (lib : Library) (d : Desk) (pending : Text)
    → lookup (lib.sha3_256_hex pending) d.pendings ≡ none
    → IsSpent lib d pending
unfolding verify_totp_login begin_enrollment confirm_enrollment
absent-IsSpent lib d pending h = record {
  no_session = λ code token now.
      rw (challenge-absent lib d (codes "verify") pending now h, verify_totp_login) refl;
  no_enrollment = λ generated token now.
      rw (challenge-absent lib d (codes "enroll") pending now h, begin_enrollment) refl;
  no_confirmation = λ code raws token now.
      rw (challenge-absent lib d (codes "enroll") pending now h, confirm_enrollment) refl;
}

verify_code-pendings :
    (lib : Library) (d : Desk) (p : MfaPending) (code token : Text) (now : ℕ)
    → (verify_code lib d p code token now).0.pendings ≡ d.pendings
unfolding verify_code check_code consume_backup_code issue_session record_login_failure
verify_code-pendings lib d p code token now = ground arith

verify_totp_login-pendings :
    (lib : Library) (d : Desk) (pending code token : Text) (now : ℕ)
    → (verify_totp_login lib d pending code token now).0.pendings
      ≡ erase (lib.sha3_256_hex pending) d.pendings
unfolding verify_totp_login challenge consume_mfa_pending
verify_totp_login-pendings lib d pending code token now =
    elim (Option-cases (challenge lib d (codes "verify") pending now).1) [
      | inl e ↦ rw (e, verify_totp_login) refl
      | inr (p, e) ↦ rw (e, verify_totp_login) (verify_code-pendings lib _ p code token now)
    ]

confirm_enrollment-pendings :
    (lib : Library) (d : Desk) (pending code : Text) (raws : ℕ → Text) (token : Text) (now : ℕ)
    → (confirm_enrollment lib d pending code raws token now).0.pendings
      ≡ erase (lib.sha3_256_hex pending) d.pendings
unfolding confirm_enrollment challenge consume_mfa_pending confirm_user enable issue_session
confirm_enrollment-pendings lib d pending code raws token now = ground arith

offer_secret-spends :
    (lib : Library) (d : Desk) (p : MfaPending) (user : DbUser) (generated token : Text) (now : ℕ)
    (hash : Text)
    → lookup hash d.pendings ≡ none
    → text_eq (lib.sha3_256_hex token) hash ≡ false
    → lookup hash (offer_secret lib d p user generated token now).0.pendings ≡ none
unfolding offer_secret issue_pending
offer_secret-spends lib d p user generated token now hash h n =
    elim (Option-cases (lib.otpauth_url (enrollment_secret user generated) p.username)) [
      | inl e ↦ rw (e, offer_secret) h
      | inr (url, e) ↦
          rw (e, offer_secret) (lookup-insert_ne (lib.sha3_256_hex token) hash _ d.pendings n ∙ h)
    ]

begin_enrollment-spends :
    (lib : Library) (d : Desk) (pending generated token : Text) (now : ℕ)
    → text_eq (lib.sha3_256_hex token) (lib.sha3_256_hex pending) ≡ false
    → lookup
        (lib.sha3_256_hex pending)
        (begin_enrollment lib d pending generated token now).0.pendings
      ≡ none
unfolding begin_enrollment challenge consume_mfa_pending
begin_enrollment-spends lib d pending generated token now n =
    let gone = lookup-erase_self (lib.sha3_256_hex pending) d.pendings in
    elim (Option-cases (challenge lib d (codes "enroll") pending now).1) [
      | inl e ↦ rw (e, begin_enrollment) gone
      | inr (p, e) ↦ elim (Option-cases (lookup p.username d.db_users)) [
        | inl f ↦ rw (e, begin_enrollment) (rw f gone)
        | inr (user, f) ↦
            rw (e, begin_enrollment)
              (rw f (offer_secret-spends lib _ p user generated token now _ gone n))
      ]
    ]

-- A challenge that was presented to any of the three steps is spent, whether the step succeeded or not,
-- where its token is not the one that the step drew: no later step takes it, with whatever code.
pub challenge-single_use :
    (lib : Library) (d : Desk) (pending code secret token : Text) (raws : ℕ → Text) (now : ℕ)
    → IsSpent lib (verify_totp_login lib d pending code token now).0 pending
      × ((text_eq (lib.sha3_256_hex token) (lib.sha3_256_hex pending) ≡ false
            → IsSpent lib (begin_enrollment lib d pending secret token now).0 pending)
          × IsSpent lib (confirm_enrollment lib d pending code raws token now).0 pending)
challenge-single_use lib d pending code secret token raws now =
    let gone = lookup-erase_self (lib.sha3_256_hex pending) d.pendings in
    (
      absent-IsSpent lib _ pending
          (rw (verify_totp_login-pendings lib d pending code token now) gone),
      (
        λ n.
            absent-IsSpent lib _ pending (begin_enrollment-spends lib d pending secret token now n),
        absent-IsSpent lib _ pending
            (rw (confirm_enrollment-pendings lib d pending code raws token now) gone),
      ),
    )
