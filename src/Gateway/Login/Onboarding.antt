-- ===== src/Gateway/Login/Onboarding.antt =====
-- crates/qw-gateway/src/auth.rs: from a fresh install to the first administrator's session.
use quanta_watch.Prelude.{ℕ, ◌+◌, ◌*◌, ◌<◌, ◌≡◌, Text, codes, trim, true, false, Option, some, ltb}
use quanta_watch.Store.{lookup}
use quanta_watch.Gateway.Auth.{second}
use quanta_watch.Gateway.Login.{Library, Desk, DbUser, MfaPending}
use quanta_watch.Gateway.Login.Password.{
  setup_admin, setup_required, is_empty, count_chars, first_admin,
}
use quanta_watch.Gateway.Login.Codes.{begin_enrollment, confirm_enrollment, EnrollResult}
use quanta_watch.Gateway.Login.Grants.{IsChallenge}

-- The three calls that the first administrator makes, each with the token that the one before gave.
unfoldable pub onboard :
    Library
    → Desk
    → (username password generated code : Text) → (ℕ → Text)
    → (t1 t2 t3 : Text) → (now1 now2 now3 : ℕ) → Desk × Option EnrollResult
unfolding setup_admin begin_enrollment confirm_enrollment
onboard lib d username password generated code raws t1 t2 t3 now1 now2 now3 =
    let d1 = (setup_admin lib d username password t1 now1).0 in
    let d2 = (begin_enrollment lib d1 t1 generated t2 now2).0 in
    confirm_enrollment lib d2 t2 code raws t3 now3

-- What the libraries are to do for it: the password is hashed, the secret has a URL, and the code that
-- is typed in is one of the secret.
pub record IsReady (lib : Library) (d : Desk) (username password generated code : Text)
    (now1 now2 now3 : ℕ) : Type 0 where
  pub fresh : setup_required d ≡ true
  pub named : is_empty (trim username) ≡ false
  pub long : ltb (count_chars password) 12 ≡ false
  pub hash : Text
  pub hashed : lib.hash_password password ≡ some hash
  pub url : Text
  pub offered : lib.otpauth_url generated (trim username) ≡ some url
  pub coded : lib.verify_totp generated (trim username) now3 code ≡ true
  pub in_time : (now2 < now1 + 600 * second) × (now3 < now2 + 600 * second)

abbrev admin_pending : Text → ℕ → MfaPending
admin_pending name now = record {
  username = name;
  kind = codes "enroll";
  expires_at = now + 600 * second;
}

-- A desk on which the user of that name may enroll with the token.
record MayEnroll (lib : Library) (d : Desk) (token : Text) (at : ℕ) (user : DbUser) : Type 0 where
  challenged :
      (now : ℕ)
      → now < at + 600 * second
      → IsChallenge lib d (codes "enroll") token now (admin_pending user.username at)
  stored : lookup user.username d.db_users ≡ some user

abbrev enrolling_admin : Text → Text → Text → ℕ → DbUser
enrolling_admin username hash generated now = record (first_admin (trim username) hash now) {
  totp_secret = some generated;
}
