-- ===== src/Gateway/Login/Lockout.antt =====
-- crates/qw-gateway/src/auth.rs: failed logins lock an account, and the lock lapses.
use quanta_watch.Prelude.{
  ℕ, suc, ◌+◌, ◌-◌, ◌*◌, ◌/◌, ◌^◌, ◌≤◌, ◌<◌, ◌≡◌, refl, sym, ap, ◌∙◌, inl, inr, Text, Bool, true,
  not, Option, none, some, List, [], ◌∷◌, ◌++◌, length, All, ltb, ◌==◌, if◌then◌else◌, Bool-cases,
  arith,
}
use quanta_watch.Store.{lookup, lookup-insert_self}
use quanta_watch.Gateway.Auth.{second, max_secs, add_secs}
use quanta_watch.Gateway.Login.{
  Library, LockoutState, Desk, LoginOutcome, bad_credentials, locked_out, streak_of, count_failure,
  record_login_failure, lock_left,
}
use quanta_watch.Gateway.Login.Password.{
  Account, configured, managed, unknown, account_of, attempt, login,
}

-- The password is none of the account's; nobody has that of an account that does not exist.
abbrev pub is_wrong : Library → Account → Text → Bool
is_wrong lib (configured u) password = not (lib.verify_password password u.password_hash)
is_wrong lib (managed u) password = not (lib.verify_password password u.password_hash)
is_wrong lib unknown password = true

-- The failures that count towards a lock, while there is none.
abbrev pub IsStreak : Option LockoutState → ℕ → Type 0
IsStreak none f = f ≡ 0
IsStreak (some st) f = (st.failures ≡ f) × (st.locked_until ≡ none)

pub record Guess : Type 0 where
  pub password : Text
  pub token : Text
  pub at : ℕ

unfoldable pub guesses : Library → Text → List Guess → Desk → Desk
unfolding login
guesses lib username [] d = d
guesses lib username (g ∷ gs) d =
    guesses lib username gs (login lib d username g.password g.token g.at).0

unfoldable pub answers : Library → Text → List Guess → Desk → List LoginOutcome
unfolding login
answers lib username [] d = []
answers lib username (g ∷ gs) d =
    let (d', outcome) = login lib d username g.password g.token g.at in
    outcome ∷ answers lib username gs d'

attempt-wrong :
    (lib : Library) (d : Desk) (username password token : Text) (now : ℕ)
    → is_wrong lib (account_of d username) password ≡ true
    → attempt lib d username password token now
      ≡ (record_login_failure d username now, bad_credentials)
unfolding attempt
attempt-wrong lib d username password token now h = ground arith

streak-open :
    (o : Option LockoutState) (f now : ℕ)
    → IsStreak o f
    → ((streak_of o now).failures ≡ f) × ((streak_of o now).locked_until ≡ none)
unfolding streak_of
streak-open none f now h = (sym h, refl)
streak-open (some st) f now h = ground arith

lock_left-open :
    (d : Desk) (username : Text) (f now : ℕ)
    → IsStreak (lookup username d.lockouts) f
    → lock_left d username now ≡ none
unfolding lock_left
lock_left-open d username f now h = ground arith

login-wrong :
    (lib : Library) (d : Desk) (username password token : Text) (f now : ℕ)
    → IsStreak (lookup username d.lockouts) f
    → is_wrong lib (account_of d username) password ≡ true
    → login lib d username password token now
      ≡ (record_login_failure d username now, bad_credentials)
unfolding login
login-wrong lib d username password token f now s w =
    rw (lock_left-open d username f now s, login)
      (attempt-wrong lib d username password token now w)

-- The row after a failure.
failed-row :
    (d : Desk) (username : Text) (now : ℕ)
    → 0 < d.max_failed_logins
    → lookup username (record_login_failure d username now).lockouts
      ≡ some (count_failure d (streak_of (lookup username d.lockouts) now) now)
unfolding record_login_failure
failed-row d username now h = elim (Bool-cases (d.max_failed_logins == 0)) [
  | inl e ↦ absurd (ground arith)
  | inr e ↦ rw e (lookup-insert_self username _ d.lockouts)
]

failure-counts :
    (d : Desk) (st : LockoutState) (f now : ℕ)
    → st.failures ≡ f
    → st.locked_until ≡ none
    → suc f < d.max_failed_logins
    → d.max_failed_logins < 2 ^ 32
    → ((count_failure d st now).failures ≡ suc f) × ((count_failure d st now).locked_until ≡ none)
unfolding count_failure
failure-counts d st f now e n h k = ground arith

failure-locks :
    (d : Desk) (st : LockoutState) (f now : ℕ)
    → st.failures ≡ f
    → suc f ≡ d.max_failed_logins
    → d.max_failed_logins < 2 ^ 32
    → (count_failure d st now).locked_until ≡ some (add_secs now d.lockout_secs)
unfolding count_failure
failure-locks d st f now e h k = ground arith

-- A failure writes the lock of one account and nothing else.
pub failure-rest :
    (d : Desk) (username : Text) (now : ℕ)
    → ((record_login_failure d username now).users ≡ d.users)
      × (((record_login_failure d username now).db_users ≡ d.db_users)
          × (((record_login_failure d username now).max_failed_logins ≡ d.max_failed_logins)
              × (((record_login_failure d username now).lockout_secs ≡ d.lockout_secs)
                  × ((record_login_failure d username now).auth ≡ d.auth))))
unfolding record_login_failure
failure-rest d username now = ground arith

account_of-failure :
    (d : Desk) (username other : Text) (now : ℕ)
    → account_of (record_login_failure d username now) other ≡ account_of d other
unfolding account_of record_login_failure
account_of-failure d username other now = ground arith

IsStreak-failure :
    (d : Desk) (username : Text) (f now : ℕ)
    → IsStreak (lookup username d.lockouts) f
    → suc f < d.max_failed_logins
    → d.max_failed_logins < 2 ^ 32
    → IsStreak (lookup username (record_login_failure d username now).lockouts) (suc f)
IsStreak-failure d username f now s h k =
    let open_streak = streak-open (lookup username d.lockouts) f now s in
    rw (failed-row d username now (omega arith)) (
      failure-counts d (streak_of (lookup username d.lockouts) now) f now open_streak.0
        open_streak.1 h k)

-- The lock that the last failure sets.
locked-row :
    (d : Desk) (username : Text) (until now : ℕ) (st : LockoutState)
    → lookup username d.lockouts ≡ some st
    → st.locked_until ≡ some until
    → 0 < d.max_failed_logins
    → lock_left d username now ≡ (if ltb now until then some ((until - now) / second) else none)
unfolding lock_left
locked-row d username until now st e l h = rw (e, lock_left) (rw l (ground arith))

lock_left-failure :
    (d : Desk) (username : Text) (f at now : ℕ)
    → IsStreak (lookup username d.lockouts) f
    → suc f ≡ d.max_failed_logins
    → d.max_failed_logins < 2 ^ 32
    → lock_left (record_login_failure d username at) username now ≡ (
        if ltb now (add_secs at d.lockout_secs)
        then some ((add_secs at d.lockout_secs - now) / second)
        else none)
lock_left-failure d username f at now s h k =
    let open_streak = streak-open (lookup username d.lockouts) f at s in
    let st = streak_of (lookup username d.lockouts) at in
    locked-row (record_login_failure d username at) username (add_secs at d.lockout_secs) now
      (count_failure d st at) (failed-row d username at (omega arith))
      (failure-locks d st f at open_streak.0 h k)
      (rw ((failure-rest d username at).1.1.0) (omega arith))

-- What the attempts did: the lock is on until `until`, and then it is as if it had never been.
pub record IsShut (lib : Library) (d : Desk) (username : Text) (until : ℕ) : Type 0 where
  pub shut :
      (password token : Text) (now : ℕ)
      → now < until
      → login lib d username password token now ≡ (d, locked_out ((until - now) / second))
  pub lapses :
      (password token : Text) (now : ℕ)
      → until ≤ now
      → login lib d username password token now ≡ attempt lib d username password token now

lock_left-IsShut :
    (lib : Library) (d : Desk) (username : Text) (until : ℕ)
    → ((now : ℕ)
        → lock_left d username now
          ≡ (if ltb now until then some ((until - now) / second) else none))
    → IsShut lib d username until
unfolding login
lock_left-IsShut lib d username until h = record {
  shut = λ password token now lt. ground (arith, h now);
  lapses = λ password token now le. ground (arith, h now);
}

abbrev pub AllBad : List LoginOutcome → Type 0
AllBad = All (λ o. o ≡ bad_credentials)

failure-IsShut :
    (lib : Library) (d d' : Desk) (username : Text) (f at until : ℕ)
    → IsStreak (lookup username d.lockouts) f
    → suc f ≡ d.max_failed_logins
    → d.max_failed_logins < 2 ^ 32
    → until ≡ add_secs at d.lockout_secs
    → d' ≡ record_login_failure d username at
    → IsShut lib d' username until
failure-IsShut lib d d' username f at until s h k u e = rw e (
    lock_left-IsShut lib _ username until
      (rw u (λ now. lock_left-failure d username f at now s h k)))

pub add_secs-plain : (now secs : ℕ) → secs ≤ max_secs → add_secs now secs ≡ now + secs * second
unfolding add_secs
add_secs-plain now secs h = ground arith

abbrev AllWrong : Library → Account → List Guess → Type 0
AllWrong lib a = All (λ g. is_wrong lib a g.password ≡ true)

streak-shuts :
    (lib : Library) (username : Text) (a : Account) (gs : List Guess) (last : Guess) (d : Desk)
    (f until : ℕ)
    → account_of d username ≡ a
    → IsStreak (lookup username d.lockouts) f
    → f + suc (length gs) ≡ d.max_failed_logins
    → d.max_failed_logins < 2 ^ 32
    → until ≡ add_secs last.at d.lockout_secs
    → AllWrong lib a gs
    → is_wrong lib a last.password ≡ true
    → (AllBad (answers lib username (gs ++ last ∷ []) d))
      × IsShut lib (guesses lib username (gs ++ last ∷ []) d) username until
unfolding answers guesses
streak-shuts lib username a [] last d f until own s n k u ws w =
    let e = login-wrong lib d username last.password last.token f last.at s (rw own w) in
    (
      (ap (λ z. z.1) e, tt),
      failure-IsShut lib d _ username f last.at until s (omega arith) k u (ap (λ z. z.0) e),
    )
streak-shuts lib username a (g ∷ gs) last d f until own s n k u ws w =
    let e = login-wrong lib d username g.password g.token f g.at s (rw own ws.0) in
    let rest = failure-rest d username g.at in
    let kept = rest.1.1 in
    let d' = (login lib d username g.password g.token g.at).0 in
    let at_d' : d' ≡ record_login_failure d username g.at = ap (λ z. z.0) e in
    let later =
      streak-shuts lib username a gs last d' (suc f) until
        (rw at_d' (account_of-failure d username username g.at ∙ own))
        (rw at_d' (IsStreak-failure d username f g.at s (omega arith) k))
        (rw at_d' (rw (kept.0) (omega arith))) (rw at_d' (rw (kept.0) k))
        (rw at_d' (rw (kept.1.0) u)) ws.1 w in
    ((ap (λ z. z.1) e, later.0), later.1)

-- On an account without recorded failures, after as many wrong passwords in a row as the configuration
-- allows (a `u32` of one or more), with a lockout time that chrono can hold, each answered as bad credentials, every login of the account is
-- refused until the lock's time has passed, the right password included, and changes nothing; from
-- then on a login is judged as on an account that is not locked.
pub login-locks :
    (lib : Library) (username : Text) (gs : List Guess) (last : Guess) (d : Desk)
    → lookup username d.lockouts ≡ none
    → suc (length gs) ≡ d.max_failed_logins
    → d.max_failed_logins < 2 ^ 32
    → d.lockout_secs ≤ max_secs
    → All (λ g. is_wrong lib (account_of d username) g.password ≡ true) gs
    → is_wrong lib (account_of d username) last.password ≡ true
    → (AllBad (answers lib username (gs ++ last ∷ []) d))
      × IsShut lib
          (guesses lib username (gs ++ last ∷ []) d)
          username
          (last.at + d.lockout_secs * second)
login-locks lib username gs last d e n k b ws w =
    streak-shuts lib username (account_of d username) gs last d 0 _ refl (rw e refl) (omega arith) k
      (sym (add_secs-plain last.at d.lockout_secs b)) ws w
