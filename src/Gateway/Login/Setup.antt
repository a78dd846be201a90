-- ===== src/Gateway/Login/Setup.antt =====
-- crates/qw-gateway/src/auth.rs: the setup of a fresh install happens once.
use quanta_watch.Prelude.{ℕ, ◌≡◌, refl, ap, ◌∙◌, Text, false, List, [], ◌∷◌, All, arith}
use quanta_watch.Store.{insert}
use quanta_watch.Gateway.Login.{
  Library, Desk, challenge, consume_mfa_pending, issue_pending, issue_session, record_login_failure,
  clear_login_lockout, create_external_session, begin_oidc, consume_oidc_state,
}
use quanta_watch.Gateway.Login.Password.{
  login, attempt, account_of, admit_configured, admit_managed, setup_admin, setup_required, created,
  refused, already_completed,
}
use quanta_watch.Gateway.Login.Codes.{
  verify_totp_login, verify_code, check_code, consume_backup_code, begin_enrollment, offer_secret,
  confirm_enrollment, confirm_user, enable,
}
use quanta_watch.Gateway.Login.Administration.{
  create_user-IsSetUp, update_user-IsSetUp, reset_2fa-IsSetUp, reset_password-IsSetUp,
}
use quanta_watch.Gateway.Login.Calls.{
  Call, logs_in, verifies, begins, confirms, sets_up, begins_oidc, ends_oidc, uses, logs_out,
  enters_externally, creates_user, updates_user, deletes_user, resets_2fa, resets_password, removes,
  step, run,
}

abbrev IsSetUp : Desk → Type 0
IsSetUp d = setup_required d ≡ false

login-IsSetUp :
    (lib : Library) (d : Desk) (username password token : Text) (now : ℕ)
    → IsSetUp d
    → IsSetUp (login lib d username password token now).0
unfolding login attempt account_of admit_configured admit_managed issue_session issue_pending
    clear_login_lockout record_login_failure setup_required
login-IsSetUp lib d username password token now h = ground arith

verify-IsSetUp :
    (lib : Library) (d : Desk) (pending code token : Text) (now : ℕ)
    → IsSetUp d
    → IsSetUp (verify_totp_login lib d pending code token now).0
unfolding verify_totp_login challenge consume_mfa_pending verify_code check_code consume_backup_code
    issue_session record_login_failure setup_required insert
verify-IsSetUp lib d pending code token now h = ground arith

begin-IsSetUp :
    (lib : Library) (d : Desk) (pending generated token : Text) (now : ℕ)
    → IsSetUp d
    → IsSetUp (begin_enrollment lib d pending generated token now).0
unfolding begin_enrollment challenge consume_mfa_pending offer_secret issue_pending setup_required
    insert
begin-IsSetUp lib d pending generated token now h = ground arith

confirm-IsSetUp :
    (lib : Library) (d : Desk) (pending code : Text) (raws : ℕ → Text) (token : Text) (now : ℕ)
    → IsSetUp d
    → IsSetUp (confirm_enrollment lib d pending code raws token now).0
unfolding confirm_enrollment challenge consume_mfa_pending confirm_user enable issue_session
    setup_required insert
confirm-IsSetUp lib d pending code raws token now h = ground arith

setup-refused :
    (lib : Library) (d : Desk) (username password token : Text) (now : ℕ)
    → IsSetUp d
    → setup_admin lib d username password token now ≡ (d, refused already_completed)
unfolding setup_admin
setup-refused lib d username password token now h = rw (h, setup_admin) refl

setup-IsSetUp :
    (lib : Library) (d : Desk) (username password token t : Text) (now : ℕ)
    → (setup_admin lib d username password token now).1 ≡ created t
    → IsSetUp (setup_admin lib d username password token now).0
unfolding setup_admin setup_required issue_pending insert
setup-IsSetUp lib d username password token t now h = ground (arith, h)

step-IsSetUp :
    (lib : Library) (d : Desk) (c : ℕ × Call)
    → removes c.1 ≡ false
    → IsSetUp d
    → IsSetUp (step lib d c)
unfolding step begin_oidc consume_oidc_state create_external_session issue_session setup_required
step-IsSetUp lib d (now, logs_in username password token) left h =
    login-IsSetUp lib d username password token now h
step-IsSetUp lib d (now, verifies pending code token) left h =
    verify-IsSetUp lib d pending code token now h
step-IsSetUp lib d (now, begins pending generated token) left h =
    begin-IsSetUp lib d pending generated token now h
step-IsSetUp lib d (now, confirms pending code raws token) left h =
    confirm-IsSetUp lib d pending code raws token now h
step-IsSetUp lib d (now, sets_up username password token) left h =
    ap (λ r. setup_required r.0) (setup-refused lib d username password token now h) ∙ h
step-IsSetUp lib d (now, begins_oidc state) left h = h
step-IsSetUp lib d (now, ends_oidc state) left h = h
step-IsSetUp lib d (now, uses credential) left h = h
step-IsSetUp lib d (now, logs_out token) left h = h
step-IsSetUp lib d (now, enters_externally username role org token) left h = h
step-IsSetUp lib d (now, creates_user tenant username password role org) left h =
    create_user-IsSetUp lib d tenant username password role org now h
step-IsSetUp lib d (now, updates_user username role password) left h =
    update_user-IsSetUp lib d username role password h
step-IsSetUp lib d (now, deletes_user caller username) left h = absurd (ground arith)
step-IsSetUp lib d (now, resets_2fa username) left h = reset_2fa-IsSetUp d username h
step-IsSetUp lib d (now, resets_password username password) left h =
    reset_password-IsSetUp lib d username password h

-- A history in which no user is deleted.
abbrev pub AllStay : List (ℕ × Call) → Type 0
AllStay = All (λ c. removes c.1 ≡ false)

run-IsSetUp :
    (lib : Library) (cs : List (ℕ × Call)) (d : Desk)
    → AllStay cs
    → IsSetUp d
    → IsSetUp (run lib cs d)
unfolding run
run-IsSetUp lib [] d left h = h
run-IsSetUp lib (c ∷ cs) d left h =
    run-IsSetUp lib cs (step lib d c) left.1 (step-IsSetUp lib d c left.0 h)

-- Once a setup has succeeded, or any user is there, every later setup is refused and changes nothing,
-- whatever calls come between but the deletion of a user.
pub setup_admin-once :
    (lib : Library) (d : Desk) (cs : List (ℕ × Call)) (username password token : Text) (now : ℕ)
    → AllStay cs
    → (setup_required d ≡ false
        → setup_admin lib (run lib cs d) username password token now
          ≡ (run lib cs d, refused already_completed))
      × ((first secret drawn t : Text) (at : ℕ)
          → (setup_admin lib d first secret drawn at).1 ≡ created t
          → setup_admin lib
              (run lib cs (setup_admin lib d first secret drawn at).0)
              username
              password
              token
              now
            ≡ (run lib cs (setup_admin lib d first secret drawn at).0, refused already_completed))
setup_admin-once lib d cs username password token now left = (
  λ h. setup-refused lib _ username password token now (run-IsSetUp lib cs d left h),
  λ first secret drawn t at h.
      setup-refused lib _ username password token now
        (run-IsSetUp lib cs _ left (setup-IsSetUp lib d first secret drawn t at h)),
)
