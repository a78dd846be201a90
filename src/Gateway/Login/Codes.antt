-- ===== src/Gateway/Login/Codes.antt =====
-- crates/qw-gateway/src/auth.rs and mfa.rs: the second factor, its enrollment and its backup codes.
use quanta_watch.Prelude.{
  ℕ, zero, suc, Text, codes, text_eq, to_lowercase, trim, Bool, true, false, Option, none, some,
  List, [], ◌∷◌, ◌++◌, map, if◌then◌else◌,
}
use quanta_watch.Store.{lookup, insert}
use quanta_watch.Gateway.Rbac.{drop}
use quanta_watch.Gateway.Auth.{Role, parse}
use quanta_watch.Gateway.Login.{
  Library, MfaPending, DbUser, Desk, LoginOutcome, ok, bad_credentials, issue_session,
  issue_pending, challenge, record_login_failure,
}
use quanta_watch.Gateway.Login.Password.{upsert_user}

unfoldable pub hash_backup_code : Library → Text → Text
unfolding trim to_lowercase
hash_backup_code lib code = lib.sha3_256_hex (to_lowercase (trim code))

-- `&raw[..n]`
unfoldable pub take : ℕ → Text → Text
take zero s = []
take (suc n) [] = []
take (suc n) (c ∷ s) = c ∷ take n s

-- A code of two groups, of a random token of ten hexadecimal digits.
unfoldable pub backup_code : Text → Text
unfolding take drop
backup_code raw = take 5 raw ++ (b'-' ∷ drop 5 raw)

abbrev pub backup_code_count : ℕ
backup_code_count = 10

-- So many tokens, drawn one after the other.
unfoldable pub draw : ℕ → (ℕ → Text) → List Text
draw zero raws = []
draw (suc n) raws = raws 0 ∷ draw n (λ i. raws (suc i))

-- The codes to show and the hashes to keep, of the tokens drawn.
unfoldable pub generate_backup_codes : Library → (ℕ → Text) → List Text × List Text
unfolding draw backup_code hash_backup_code
generate_backup_codes lib raws =
    let plain = map backup_code (draw backup_code_count raws) in
    (plain, map (hash_backup_code lib) plain)

-- `position` and `remove`: the list without the first that is equal.
unfoldable pub remove_first : Text → List Text → Option (List Text)
unfolding text_eq
remove_first h [] = none
remove_first h (x ∷ hashes) =
    let rest = remove_first h hashes in
    if text_eq x h then some hashes else (elim rest [ none ↦ none | some kept ↦ some (x ∷ kept) ])

unfoldable pub consume_backup_code : Library → Desk → DbUser → Text → Desk × Bool
unfolding hash_backup_code remove_first insert
consume_backup_code lib d user code =
    elim (remove_first (hash_backup_code lib code) user.backup_code_hashes) [
      | none ↦ (d, false)
      | some hashes ↦ (upsert_user d (record user { backup_code_hashes = hashes }), true)
    ]

abbrev pub or_empty : Option Text → Text
or_empty none = []
or_empty (some t) = t

-- The code of an authenticator, or else a backup code.
unfoldable pub check_code : Library → Desk → Text → DbUser → Text → ℕ → Desk × Bool
unfolding consume_backup_code
check_code lib d username user code now =
    if lib.verify_totp (or_empty user.totp_secret) username now code
    then (d, true)
    else consume_backup_code lib d user code

unfoldable pub verify_code : Library → Desk → MfaPending → Text → Text → ℕ → Desk × LoginOutcome
unfolding lookup check_code issue_session record_login_failure parse
verify_code lib d p code token now = elim (lookup p.username d.db_users) [
  | none ↦ (d, bad_credentials)
  | some user ↦
      let (d', good) = check_code lib d p.username user code now in
      if good
      then (
        issue_session lib d' p.username (parse user.role) user.org token now,
        ok token (parse user.role) d.session_ttl_secs,
      )
      else (record_login_failure d' p.username now, bad_credentials)
]

unfoldable pub verify_totp_login :
    Library → Desk → (pending code token : Text) → ℕ → Desk × LoginOutcome
unfolding challenge verify_code
verify_totp_login lib d pending code token now =
    let (d', found) = challenge lib d (codes "verify") pending now in
    elim found [ none ↦ (d', bad_credentials) | some p ↦ verify_code lib d' p code token now ]

pub record EnrollInfo : Type 0 where
  pub secret : Text
  pub otpauth_url : Text
  pub pending : Text

-- A secret that is not in use yet is kept, else there is a new one.
unfoldable pub enrollment_secret : DbUser → Text → Text
enrollment_secret user generated =
    if user.totp_enabled
    then generated
    else (elim user.totp_secret [ none ↦ generated | some secret ↦ secret ])

unfoldable pub offer_secret :
    Library → Desk → MfaPending → DbUser → (generated token : Text) → ℕ → Desk × Option EnrollInfo
unfolding enrollment_secret issue_pending insert
offer_secret lib d p user generated token now =
    let secret = enrollment_secret user generated in
    elim (lib.otpauth_url secret p.username) [
      | none ↦ (d, none)
      | some url ↦ (
        issue_pending lib
            (upsert_user d (record user { totp_secret = some secret; totp_enabled = false }))
            p.username (codes "enroll") token now,
        some (record { secret = secret; otpauth_url = url; pending = token }),
      )
    ]

unfoldable pub begin_enrollment :
    Library → Desk → (pending generated token : Text) → ℕ → Desk × Option EnrollInfo
unfolding challenge lookup offer_secret
begin_enrollment lib d pending generated token now =
    let (d', found) = challenge lib d (codes "enroll") pending now in
    elim found [
      | none ↦ (d', none)
      | some p ↦ elim (lookup p.username d'.db_users) [
        | none ↦ (d', none)
        | some user ↦ offer_secret lib d' p user generated token now
      ]
    ]

pub record EnrollResult : Type 0 where
  pub token : Text
  pub role : Role
  pub ttl : ℕ
  pub backup_codes : List Text

unfoldable pub enable :
    Library → Desk → MfaPending → DbUser → (ℕ → Text) → Text → ℕ → Desk × EnrollResult
unfolding generate_backup_codes issue_session insert parse
enable lib d p user raws token now =
    let (plain, hashes) = generate_backup_codes lib raws in
    (
      issue_session lib
          (upsert_user d (record user { totp_enabled = true; backup_code_hashes = hashes }))
          p.username (parse user.role) user.org token now,
      record {
        token = token;
        role = parse user.role;
        ttl = d.session_ttl_secs;
        backup_codes = plain;
      },
    )

unfoldable pub confirm_user :
    Library → Desk → MfaPending → DbUser → Text → (ℕ → Text) → Text → ℕ → Desk × Option EnrollResult
unfolding enable
confirm_user lib d p user code raws token now = elim user.totp_secret [
  | none ↦ (d, none)
  | some secret ↦
      if lib.verify_totp secret p.username now code
      then (let (d', result) = enable lib d p user raws token now in (d', some result))
      else (d, none)
]

unfoldable pub confirm_enrollment :
    Library → Desk → (pending code : Text) → (ℕ → Text) → Text → ℕ → Desk × Option EnrollResult
unfolding challenge lookup confirm_user
confirm_enrollment lib d pending code raws token now =
    let (d', found) = challenge lib d (codes "enroll") pending now in
    elim found [
      | none ↦ (d', none)
      | some p ↦ elim (lookup p.username d'.db_users) [
        | none ↦ (d', none)
        | some user ↦ confirm_user lib d' p user code raws token now
      ]
    ]
