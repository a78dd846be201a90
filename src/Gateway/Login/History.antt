-- ===== src/Gateway/Login/History.antt =====
-- crates/qw-gateway/src/auth.rs: every call keeps the users and the challenges valid.
use quanta_watch.Prelude.{ℕ, ◌≡◌, refl, Bool, true, false, List, [], ◌∷◌, All, arith}
use quanta_watch.Gateway.Login.{
  Library, Desk, issue_session, create_external_session, begin_oidc, consume_oidc_state,
}
use quanta_watch.Gateway.Login.Calls.{
  Call, logs_in, verifies, begins, confirms, sets_up, begins_oidc, ends_oidc, uses, logs_out,
  enters_externally, creates_user, updates_user, deletes_user, resets_2fa, resets_password,
  withdraws, step, run,
}
use quanta_watch.Gateway.Login.Users.{delete_user, reset_2fa}
use quanta_watch.Gateway.Login.Administration.{
  create_user-Holds, update_user-Holds, delete_user-Holds, reset_2fa-Holds, reset_password-Holds,
}
use quanta_watch.Gateway.Login.Invariant.{Holds}
use quanta_watch.Gateway.Login.Admission.{login-Holds, setup_admin-Holds}
use quanta_watch.Gateway.Login.Factors.{
  verify_totp_login-Holds, begin_enrollment-Holds, confirm_enrollment-Holds,
}

-- A history that withdraws a secret only where that may be.
abbrev pub AreCalm : Bool → List (ℕ × Call) → Type 0
AreCalm withdrawn = All (λ c. withdraws c.1 ≡ true → withdrawn ≡ true)

withdrawn-Holds :
    (w : Bool) (d d' : Desk) → w ≡ true → Holds w d → (Holds true d → Holds true d') → Holds w d'
withdrawn-Holds true d d' e v f = f v
withdrawn-Holds false d d' e v f = absurd (ground arith)

step-IsValid :
    {w : Bool}
    → (lib : Library) (d : Desk) (c : ℕ × Call) → (withdraws c.1 ≡ true → w ≡ true)
    → Holds w d
    → Holds w (step lib d c)
unfolding step begin_oidc consume_oidc_state create_external_session issue_session
step-IsValid lib d (now, logs_in username password token) calm v =
    login-Holds lib d username password token now v
step-IsValid lib d (now, verifies pending code token) calm v =
    verify_totp_login-Holds lib d pending code token now v
step-IsValid lib d (now, begins pending generated token) calm v =
    begin_enrollment-Holds lib d pending generated token now v
step-IsValid lib d (now, confirms pending code raws token) calm v =
    confirm_enrollment-Holds lib d pending code raws token now v
step-IsValid lib d (now, sets_up username password token) calm v =
    setup_admin-Holds lib d username password token now v
step-IsValid lib d (now, begins_oidc state) calm v = v
step-IsValid lib d (now, ends_oidc state) calm v = v
step-IsValid lib d (now, uses credential) calm v = v
step-IsValid lib d (now, logs_out token) calm v = v
step-IsValid lib d (now, enters_externally username role org token) calm v = v
step-IsValid lib d (now, creates_user tenant username password role org) calm v =
    create_user-Holds lib d tenant username password role org now v
step-IsValid lib d (now, updates_user username role password) calm v =
    update_user-Holds lib d username role password v
step-IsValid {w = w} lib d (now, deletes_user caller username) calm v =
    withdrawn-Holds w d (delete_user lib d caller username).0 (calm refl) v
      (delete_user-Holds lib d caller username)
step-IsValid {w = w} lib d (now, resets_2fa username) calm v =
    withdrawn-Holds w d (reset_2fa d username).0 (calm refl) v (reset_2fa-Holds d username)
step-IsValid lib d (now, resets_password username password) calm v =
    reset_password-Holds lib d username password v

-- After any history of calls on a valid desk, a user is stored under its name, and who has two factors
-- has a secret; and if no call of the history deletes a user or resets a second factor, everyone whom a
-- challenge asks for a code is a stored user with a secret (`withdrawn` tells whether one may).
pub run-Holds :
    (lib : Library) (withdrawn : Bool) (cs : List (ℕ × Call)) (d : Desk)
    → AreCalm withdrawn cs
    → Holds withdrawn d
    → Holds withdrawn (run lib cs d)
unfolding run
run-Holds lib withdrawn [] d calm v = v
run-Holds lib withdrawn (c ∷ cs) d calm v =
    run-Holds lib withdrawn cs (step lib d c) calm.1 (step-IsValid lib d c calm.0 v)
