-- ===== src/Gateway/Login/Calls.antt =====
-- crates/qw-gateway/src/auth.rs, admin/users_api.rs, and the administration commands of
-- crates/qw-cli/src/main.rs: a desk over a history of calls. The removal of expired rows is left out.
use quanta_watch.Prelude.{ℕ, Text, Bool, true, false, Option, List, [], ◌∷◌}
use quanta_watch.Gateway.Auth.{Role, validate, logout}
use quanta_watch.Gateway.Login.{
  Library, Desk, create_external_session, begin_oidc, consume_oidc_state,
}
use quanta_watch.Gateway.Login.Password.{login, setup_admin}
use quanta_watch.Gateway.Login.Codes.{verify_totp_login, begin_enrollment, confirm_enrollment}
use quanta_watch.Gateway.Login.Users.{
  create_user, update_user, delete_user, reset_2fa, reset_password,
}

pub data Call : Type 0 where
  logs_in : (username password token : Text) → Call
  verifies : (pending code token : Text) → Call
  begins : (pending generated token : Text) → Call
  confirms : (pending code : Text) (raws : ℕ → Text) (token : Text) → Call
  sets_up : (username password token : Text) → Call
  begins_oidc : (state : Text) → Call
  ends_oidc : (state : Text) → Call
  uses : (credential : Text) → Call
  logs_out : (token : Text) → Call
  enters_externally : (username : Text) (role : Role) (org token : Text) → Call
  creates_user : (tenant username password role : Text) (org : Option Text) → Call
  updates_user : (username : Text) (role password : Option Text) → Call
  deletes_user : (caller : Option Text) (username : Text) → Call
  resets_2fa : (username : Text) → Call
  resets_password : (username password : Text) → Call

unfoldable pub step : Library → Desk → ℕ × Call → Desk
unfolding login verify_totp_login begin_enrollment confirm_enrollment setup_admin begin_oidc
    consume_oidc_state validate logout create_external_session create_user update_user delete_user
    reset_2fa reset_password
step lib d (now, logs_in username password token) = (login lib d username password token now).0
step lib d (now, verifies pending code token) = (verify_totp_login lib d pending code token now).0
step lib d (now, begins pending generated token) =
    (begin_enrollment lib d pending generated token now).0
step lib d (now, confirms pending code raws token) =
    (confirm_enrollment lib d pending code raws token now).0
step lib d (now, sets_up username password token) =
    (setup_admin lib d username password token now).0
step lib d (now, begins_oidc state) = begin_oidc d state now
step lib d (now, ends_oidc state) = (consume_oidc_state d state now).0
step lib d (now, uses credential) = record d {
  auth = (validate d.auth (lib.sha3_256_hex credential) now).0;
}
step lib d (now, logs_out token) = record d { auth = logout d.auth (lib.sha3_256_hex token) }
step lib d (now, enters_externally username role org token) =
    create_external_session lib d username role org token now
step lib d (now, creates_user tenant username password role org) =
    (create_user lib d tenant username password role org now).0
step lib d (now, updates_user username role password) = (update_user lib d username role password).0
step lib d (now, deletes_user caller username) = (delete_user lib d caller username).0
step lib d (now, resets_2fa username) = (reset_2fa d username).0
step lib d (now, resets_password username password) = (reset_password lib d username password).0

unfoldable pub run : Library → List (ℕ × Call) → Desk → Desk
unfolding step
run lib [] d = d
run lib (c ∷ cs) d = run lib cs (step lib d c)

-- Removes a user.
abbrev pub removes : Call → Bool
removes (deletes_user caller username) = true
removes _ = false

-- May take the secret of a user away.
abbrev pub withdraws : Call → Bool
withdraws (deletes_user caller username) = true
withdraws (resets_2fa username) = true
withdraws _ = false
