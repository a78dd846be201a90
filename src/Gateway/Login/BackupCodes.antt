-- ===== src/Gateway/Login/BackupCodes.antt =====
-- crates/qw-gateway/src/auth.rs and mfa.rs: a backup code works, once.
use mathlib.Core.Path.{subst}
use quanta_watch.Prelude.{
  ℕ, ◌+◌, ◌≡◌, refl, sym, ap, ◌∙◌, inl, inr, Text, codes, text_eq, text_eq_iff, true, false, some,
  List, [], ◌∷◌, if◌then◌else◌, Option-cases, Bool-cases, arith, In, map,
}
use quanta_watch.Store.{lookup, insert, lookup-insert_self}
use quanta_watch.Gateway.Auth.{parse}
use quanta_watch.Gateway.Auth.Sessions.{none-some, some-injective}
use quanta_watch.Gateway.Login.{
  Library, Desk, DbUser, MfaPending, ok, challenge, consume_mfa_pending, issue_session,
}
use quanta_watch.Gateway.Login.Codes.{
  or_empty, verify_totp_login, verify_code, check_code, consume_backup_code, remove_first,
  hash_backup_code, generate_backup_codes, backup_code, backup_code_count, draw, confirm_enrollment,
  confirm_user, enable, EnrollResult,
}
use quanta_watch.Gateway.Login.Grants.{IsChallenge}
use quanta_watch.Gateway.Login.Invariant.{Holds, erase-IsValid}

unfoldable pub count : Text → List Text → ℕ
unfolding text_eq
count h [] = 0
count h (x ∷ hashes) = (if text_eq x h then 1 else 0) + count h hashes

-- What is removed is one of the code's hash, and nothing else.
remove_first-count :
    (h x : Text) (hashes rest : List Text)
    → remove_first h hashes ≡ some rest
    → count x hashes ≡ (if text_eq h x then 1 else 0) + count x rest
unfolding remove_first count
remove_first-count h x [] rest e = cc
remove_first-count h x (y ∷ hashes) rest e = elim (Bool-cases (text_eq y h)) [
  | inl hit ↦ ground (arith, text_eq_iff y h)
  | inr miss ↦ elim (Option-cases (remove_first h hashes)) [
    | inl none_left ↦ ground arith
    | inr (kept, f) ↦ let smaller = remove_first-count h x hashes kept f in ground arith
  ]
]

remove_first-In :
    (h : Text) (hashes : List Text)
    → In h hashes
    → (rest : List Text) × (remove_first h hashes ≡ some rest)
unfolding remove_first
remove_first-In h [] i = elim i [ ]
remove_first-In h (x ∷ hashes) (inl e) = (hashes, ground (arith, text_eq_iff x h))
remove_first-In h (x ∷ hashes) (inr i) =
    let (rest, e) = remove_first-In h hashes i in
    elim (Bool-cases (text_eq x h)) [
      | inl hit ↦ (hashes, ground arith)
      | inr miss ↦ (x ∷ rest, ground arith)
    ]

In-map : {A B : Type 0} (f : A → B) (x : A) (l : List A) → In x l → In (f x) (map f l)
In-map f x [] i = elim i [ ]
In-map f x (y ∷ l) (inl e) = inl (ap f e)
In-map f x (y ∷ l) (inr i) = inr (In-map f x l i)

pub challenge-stored :
    (lib : Library) (d : Desk) (kind token : Text) (now : ℕ) (p : MfaPending)
    → IsChallenge lib d kind token now p
    → (challenge lib d kind token now).1 ≡ some p
unfolding challenge consume_mfa_pending
challenge-stored lib d kind token now p c =
    let stored = c.stored in let unexpired = c.unexpired in let of_kind = c.of_kind in ground arith

-- A user that is written back is found under the name it was found under.
written :
    (d : Desk) (name : Text) (old new : DbUser)
    → Holds true d
    → lookup name d.db_users ≡ some old
    → new.username ≡ old.username
    → lookup name (insert new.username new d.db_users) ≡ some new
written d name old new v found same =
    let at_name = same ∙ (text_eq_iff old.username name).0 (v.keyed name old found) in
    ap (λ z. lookup z (insert new.username new d.db_users)) (sym at_name)
    ∙ lookup-insert_self new.username new d.db_users

verify_code-consumes :
    (lib : Library) (d : Desk) (p : MfaPending) (code token : Text) (now : ℕ) (user : DbUser)
    (rest : List Text)
    → lookup p.username d.db_users ≡ some user
    → lib.verify_totp (or_empty user.totp_secret) p.username now code ≡ false
    → remove_first (hash_backup_code lib code) user.backup_code_hashes ≡ some rest
    → ((verify_code lib d p code token now).1 ≡ ok token (parse user.role) d.session_ttl_secs)
      × ((verify_code lib d p code token now).0.db_users
          ≡ insert user.username (record user { backup_code_hashes = rest }) d.db_users)
unfolding verify_code check_code consume_backup_code issue_session
verify_code-consumes lib d p code token now user rest found no_totp removed =
    rw (found, verify_code) (rw no_totp (rw (removed, consume_backup_code) (refl, refl)))

-- On a valid desk, with a live challenge for a second factor: a backup code, where the authenticator's
-- code it is not, lets its user in, and of the hashes that the user has left exactly one of the
-- code's is gone.
pub verify_totp_login-consumes :
    (lib : Library) (d : Desk) (pending code token : Text) (now : ℕ) (p : MfaPending)
    (user : DbUser) (rest : List Text)
    → Holds true d
    → IsChallenge lib d (codes "verify") pending now p
    → lookup p.username d.db_users ≡ some user
    → lib.verify_totp (or_empty user.totp_secret) p.username now code ≡ false
    → remove_first (hash_backup_code lib code) user.backup_code_hashes ≡ some rest
    → ((verify_totp_login lib d pending code token now).1
        ≡ ok token (parse user.role) d.session_ttl_secs)
      × ((lookup p.username (verify_totp_login lib d pending code token now).0.db_users
            ≡ some (record user { backup_code_hashes = rest }))
          × ((x : Text)
              → count x user.backup_code_hashes
                ≡ (if text_eq (hash_backup_code lib code) x then 1 else 0) + count x rest))
unfolding verify_totp_login challenge consume_mfa_pending
verify_totp_login-consumes lib d pending code token now p user rest v c found no_totp removed =
    let e = challenge-stored lib d (codes "verify") pending now p c in
    let d' = (challenge lib d (codes "verify") pending now).0 in
    let done = verify_code-consumes lib d' p code token now user rest found no_totp removed in
    rw (e, verify_totp_login)
      (
        done.0,
        (
          ap (λ z. lookup p.username z) (done.1)
              ∙ written d p.username user (record user { backup_code_hashes = rest }) v found refl,
          λ x.
              remove_first-count (hash_backup_code lib code) x user.backup_code_hashes rest removed,
        ),
      )

abbrev enabled_user : Library → DbUser → (ℕ → Text) → DbUser
enabled_user lib user raws = record user {
  totp_enabled = true;
  backup_code_hashes = (generate_backup_codes lib raws).1;
}

enabled-checks :
    (lib : Library) (d : Desk) (name : Text) (user : DbUser) (raws : ℕ → Text) (code : Text)
    (later : ℕ)
    → In code (generate_backup_codes lib raws).0
    → (check_code lib d name (enabled_user lib user raws) code later).1 ≡ true
unfolding check_code consume_backup_code generate_backup_codes
enabled-checks lib d name user raws code later i =
    let (rest, e) =
      remove_first-In (hash_backup_code lib code)
        (map (hash_backup_code lib) (map backup_code (draw backup_code_count raws)))
        (In-map (hash_backup_code lib) code (map backup_code (draw backup_code_count raws)) i) in
    elim (Bool-cases (lib.verify_totp (or_empty user.totp_secret) name later code)) [
      | inl v ↦ rw v refl
      | inr v ↦ rw v (rw (e, consume_backup_code) refl)
    ]

-- What confirming an enrollment leaves of a user and a code that it shows.
abbrev pub IsUsable : Library → Desk → EnrollResult → Type 0
IsUsable lib d r =
    (name : Text) × (user : DbUser) × (lookup name d.db_users ≡ some user)
    × (user.totp_enabled ≡ true)
    × ((code : Text) (other : Desk) (later : ℕ)
        → In code r.backup_codes
        → (check_code lib other name user code later).1 ≡ true)

confirm_user-IsUsable :
    (lib : Library) (d : Desk) (p : MfaPending) (user : DbUser) (code : Text) (raws : ℕ → Text)
    (token : Text) (now : ℕ) (r : EnrollResult)
    → Holds true d
    → lookup p.username d.db_users ≡ some user
    → (confirm_user lib d p user code raws token now).1 ≡ some r
    → IsUsable lib (confirm_user lib d p user code raws token now).0 r
unfolding confirm_user enable issue_session
confirm_user-IsUsable lib d p user code raws token now r v found h =
    elim (Option-cases user.totp_secret) [
      | inl e ↦ absurd (none-some r (rw (e, confirm_user) at h))
      | inr (secret, e) ↦ elim (Bool-cases (lib.verify_totp secret p.username now code)) [
        | inr bad ↦ absurd (none-some r (rw bad at (rw (e, confirm_user) at h)))
        | inl good ↦
            let shown =
              ap (λ z. z.backup_codes)
                (some-injective _ r (rw good at (rw (e, confirm_user) at h))) in
            rw (e, confirm_user)
              (rw good (
                p.username,
                enabled_user lib user raws,
                written d p.username user (enabled_user lib user raws) v found refl,
                refl,
                λ c other later i.
                    enabled-checks lib other p.username user raws c later
                      (subst (λ z. In c z) (sym shown) i),
              ))
      ]
    ]

-- After an enrollment is confirmed on a valid desk, the user is in the store with the second factor on,
-- and each of the backup codes that the answer shows is accepted for that user, at any time.
pub confirm_enrollment-IsUsable :
    (lib : Library) (d : Desk) (pending code : Text) (raws : ℕ → Text) (token : Text) (now : ℕ)
    (r : EnrollResult)
    → Holds true d
    → (confirm_enrollment lib d pending code raws token now).1 ≡ some r
    → IsUsable lib (confirm_enrollment lib d pending code raws token now).0 r
unfolding confirm_enrollment challenge consume_mfa_pending
confirm_enrollment-IsUsable lib d pending code raws token now r v h =
    let d' = (challenge lib d (codes "enroll") pending now).0 in
    let v' : Holds true d' = erase-IsValid d.db_users d.pendings (lib.sha3_256_hex pending) v in
    elim (Option-cases (challenge lib d (codes "enroll") pending now).1) [
      | inl e ↦ absurd (none-some r (rw (e, confirm_enrollment) at h))
      | inr (p, e) ↦ elim (Option-cases (lookup p.username d'.db_users)) [
        | inl f ↦ absurd (none-some r (rw f at (rw (e, confirm_enrollment) at h)))
        | inr (user, f) ↦
            rw (e, confirm_enrollment)
              (rw f (
                confirm_user-IsUsable lib d' p user code raws token now r v' f
                  (rw f at (rw (e, confirm_enrollment) at h))))
      ]
    ]
