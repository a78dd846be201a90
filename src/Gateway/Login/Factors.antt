-- ===== src/Gateway/Login/Factors.antt =====
-- crates/qw-gateway/src/auth.rs: the second factor and its enrollment keep the users and the challenges
-- valid.
use quanta_watch.Prelude.{ℕ, ◌≡◌, refl, ap, inl, inr, Text, codes, Bool, some, Option-cases, arith}
use quanta_watch.Store.{lookup}
use quanta_watch.Gateway.Login.{
  Library, Desk, DbUser, MfaPending, challenge, consume_mfa_pending, issue_pending, issue_session,
}
use quanta_watch.Gateway.Login.Codes.{
  verify_totp_login, verify_code, check_code, consume_backup_code, remove_first, hash_backup_code,
  begin_enrollment, offer_secret, enrollment_secret, confirm_enrollment, confirm_user, enable,
}
use quanta_watch.Gateway.Login.Invariant.{
  is_some, Holds, erase-IsValid, pending-IsValid, change-IsValid,
}
use quanta_watch.Gateway.Login.Admission.{failure-Holds, if-Holds}

check_code-Holds :
    {w : Bool}
    → (lib : Library) (d : Desk) (name : Text) (user : DbUser) (code : Text) (now : ℕ) → Holds w d
    → lookup name d.db_users ≡ some user
    → Holds w (check_code lib d name user code now).0
unfolding check_code consume_backup_code
check_code-Holds lib d name user code now v found =
    if-Holds (lib.verify_totp _ name now code) _ _ v
      (elim (Option-cases (remove_first (hash_backup_code lib code) user.backup_code_hashes)) [
        | inl e ↦ rw (e, consume_backup_code) v
        | inr (hashes, e) ↦
            rw (e, consume_backup_code)
              (change-IsValid d.db_users d.pendings name user _ v found refl
                (v.armed name user found) (λ _ h. h))
      ])

verify_code-Holds :
    {w : Bool}
    → (lib : Library) (d : Desk) (p : MfaPending) (code token : Text) (now : ℕ) → Holds w d
    → Holds w (verify_code lib d p code token now).0
unfolding verify_code issue_session
verify_code-Holds lib d p code token now v = elim (Option-cases (lookup p.username d.db_users)) [
  | inl e ↦ rw (e, verify_code) v
  | inr (user, e) ↦
      let checked = check_code-Holds lib d p.username user code now v e in
      rw (e, verify_code)
        (if-Holds (check_code lib d p.username user code now).1 _ _ checked
          (failure-Holds _ p.username now checked))
]

pub verify_totp_login-Holds :
    {w : Bool}
    → (lib : Library) (d : Desk) (pending code token : Text) (now : ℕ) → Holds w d
    → Holds w (verify_totp_login lib d pending code token now).0
unfolding verify_totp_login challenge consume_mfa_pending
verify_totp_login-Holds lib d pending code token now v =
    let erased = erase-IsValid d.db_users d.pendings (lib.sha3_256_hex pending) v in
    elim (Option-cases (challenge lib d (codes "verify") pending now).1) [
      | inl e ↦ rw (e, verify_totp_login) erased
      | inr (p, e) ↦ rw (e, verify_totp_login) (verify_code-Holds lib _ p code token now erased)
    ]

-- Enrolling gives a secret, and takes none away.
offer_secret-Holds :
    {w : Bool}
    → (lib : Library) (d : Desk) (p : MfaPending) (user : DbUser) (generated token : Text) (now : ℕ)
    → Holds w d
    → lookup p.username d.db_users ≡ some user
    → Holds w (offer_secret lib d p user generated token now).0
unfolding offer_secret issue_pending
offer_secret-Holds lib d p user generated token now v found =
    elim (Option-cases (lib.otpauth_url (enrollment_secret user generated) p.username)) [
      | inl e ↦ rw (e, offer_secret) v
      | inr (url, e) ↦
          rw (e, offer_secret)
            (pending-IsValid _ d.pendings _ _
              (change-IsValid d.db_users d.pendings p.username user _ v found refl (λ _. refl)
                (λ _ _. refl))
              (λ k. absurd (ground arith)))
    ]

pub begin_enrollment-Holds :
    {w : Bool}
    → (lib : Library) (d : Desk) (pending generated token : Text) (now : ℕ) → Holds w d
    → Holds w (begin_enrollment lib d pending generated token now).0
unfolding begin_enrollment challenge consume_mfa_pending
begin_enrollment-Holds lib d pending generated token now v =
    let erased = erase-IsValid d.db_users d.pendings (lib.sha3_256_hex pending) v in
    elim (Option-cases (challenge lib d (codes "enroll") pending now).1) [
      | inl e ↦ rw (e, begin_enrollment) erased
      | inr (p, e) ↦ elim (Option-cases (lookup p.username d.db_users)) [
        | inl f ↦ rw (e, begin_enrollment) (rw f erased)
        | inr (user, f) ↦
            rw (e, begin_enrollment)
              (rw f (offer_secret-Holds lib _ p user generated token now erased f))
      ]
    ]

confirm_user-Holds :
    {w : Bool}
    → (lib : Library) (d : Desk) (p : MfaPending) (user : DbUser) (code : Text) (raws : ℕ → Text)
      (token : Text) (now : ℕ)
    → Holds w d
    → lookup p.username d.db_users ≡ some user
    → Holds w (confirm_user lib d p user code raws token now).0
unfolding confirm_user enable issue_session
confirm_user-Holds lib d p user code raws token now v found = elim (Option-cases user.totp_secret) [
  | inl e ↦ rw (e, confirm_user) v
  | inr (secret, e) ↦
      rw (e, confirm_user)
        (if-Holds (lib.verify_totp secret p.username now code) _ _
          (change-IsValid d.db_users d.pendings p.username user _ v found refl (λ _. ap is_some e)
            (λ _ h. h))
          v)
]

pub confirm_enrollment-Holds :
    {w : Bool}
    → (lib : Library) (d : Desk) (pending code : Text) (raws : ℕ → Text) (token : Text) (now : ℕ)
    → Holds w d
    → Holds w (confirm_enrollment lib d pending code raws token now).0
unfolding confirm_enrollment challenge consume_mfa_pending
confirm_enrollment-Holds lib d pending code raws token now v =
    let erased = erase-IsValid d.db_users d.pendings (lib.sha3_256_hex pending) v in
    elim (Option-cases (challenge lib d (codes "enroll") pending now).1) [
      | inl e ↦ rw (e, confirm_enrollment) erased
      | inr (p, e) ↦ elim (Option-cases (lookup p.username d.db_users)) [
        | inl f ↦ rw (e, confirm_enrollment) (rw f erased)
        | inr (user, f) ↦
            rw (e, confirm_enrollment)
              (rw f (confirm_user-Holds lib _ p user code raws token now erased f))
      ]
    ]
