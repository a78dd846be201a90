-- ===== src/Tests/Login.antt =====
-- crates/qw-gateway/src/auth.rs: logins, codes, enrollment and setup on a small desk.
use quanta_watch.Prelude.{
  ℕ, ◌+◌, ◌*◌, ◌≡◌, ◌⊎◌, refl, Text, codes, text_eq, Bool, true, false, none, some, List, [], ◌∷◌,
  ◌++◌, if◌then◌else◌, arith,
}
use quanta_watch.Store.{lookup}
use quanta_watch.Gateway.Auth.{AuthSession, operator, admin, parse, second, get_auth_session}
use quanta_watch.Gateway.Login.{
  Library, UserConfig, MfaPending, DbUser, Desk, ok, new_session, find_user,
}
use quanta_watch.Gateway.Login.Password.{
  account_of, setup_required, setup_admin, refused, already_completed, created,
}
use quanta_watch.Gateway.Login.Codes.{
  or_empty, verify_totp_login, begin_enrollment, confirm_enrollment, EnrollResult, remove_first,
  hash_backup_code,
}
use quanta_watch.Gateway.Login.Lockout.{
  Guess, is_wrong, guesses, answers, AllBad, IsShut, login-locks,
}
use quanta_watch.Gateway.Login.Calls.{
  Call, logs_in, begins, confirms, sets_up, enters_externally, creates_user, deletes_user,
  resets_2fa, step, run,
}
use quanta_watch.Gateway.Login.Grants.{IsChallenge}
use quanta_watch.Gateway.Login.Provenance.{IsCarried, Granted, drawn, step-grants}
use quanta_watch.Gateway.Login.Invariant.{Holds}
use quanta_watch.Gateway.Login.History.{AreCalm, run-Holds}
use quanta_watch.Gateway.Login.SingleUse.{IsSpent, challenge-single_use}
use quanta_watch.Gateway.Login.BackupCodes.{
  count, IsUsable, verify_totp_login-consumes, confirm_enrollment-IsUsable,
}
use quanta_watch.Gateway.Login.Setup.{setup_admin-once}

-- Libraries by which a password is its own hash, a token its own too, and a secret its own code.
abbrev toy : Library
toy = record {
  verify_password = text_eq;
  hash_password = λ password. some password;
  sha3_256_hex = λ t. t;
  verify_totp = λ secret account now code. text_eq secret code;
  otpauth_url = λ secret account. some secret;
  is_like = λ s username. text_eq s.username username;
}

abbrev root : UserConfig
root = record {
  username = codes "root";
  password_hash = codes "swordfish";
  role = codes "admin";
  org = codes "acme";
}

abbrev empty_desk : Desk
empty_desk = record {
  auth = record {
    enabled = true;
    idle_timeout_secs = 0;
    api_keys = [];
    role_perms = [];
    sessions = [];
  };
  users = [];
  session_ttl_secs = 3600;
  max_failed_logins = 2;
  lockout_secs = 900;
  roles = [];
  db_users = [];
  lockouts = [];
  pendings = [];
  oidc_states = [];
}

abbrev rooted : Desk
rooted = record empty_desk { users = root ∷ [] }

abbrev guess : ℕ → Guess
guess at = record { password = codes "guess"; token = codes "t"; at = at }

guess-wrong : is_wrong toy (account_of rooted (codes "root")) (codes "guess") ≡ true
unfolding account_of find_user text_eq
guess-wrong = refl

no_lock : lookup (codes "root") rooted.lockouts ≡ none
unfolding lookup
no_lock = refl

login-locks_example :
    (AllBad (answers toy (codes "root") ((guess 1 ∷ []) ++ guess 2 ∷ []) rooted))
    × IsShut toy
        (guesses toy (codes "root") ((guess 1 ∷ []) ++ guess 2 ∷ []) rooted)
        (codes "root")
        ((guess 2).at + rooted.lockout_secs * second)
login-locks_example =
    login-locks toy (codes "root") (guess 1 ∷ []) (guess 2) rooted no_lock refl (omega arith)
      (omega arith) (guess-wrong, tt) guess-wrong

abbrev enters : Call
enters = logs_in (codes "root") (codes "swordfish") (codes "t")

abbrev root_session : AuthSession
root_session = new_session rooted (codes "root") (parse (codes "admin")) (codes "acme") 5

root-enters :
    get_auth_session (codes "t") (step toy rooted (5, enters)).auth.sessions ≡ some root_session
unfolding get_auth_session step
root-enters = refl

step-grants_example :
    IsCarried rooted.auth (codes "t") root_session
    ⊎ (Granted toy rooted 5 enters (step toy rooted (5, enters)).auth
        × (text_eq (toy.sha3_256_hex (drawn enters)) (codes "t") ≡ true))
step-grants_example = step-grants toy rooted 5 enters (codes "t") root_session root-enters

empty-Holds : (w : Bool) → Holds w empty_desk
unfolding lookup
empty-Holds w = record {
  keyed = λ name u h. absurd (ground arith);
  armed = λ name u h. absurd (ground arith);
  asked = λ calm hash p h. absurd (ground arith);
}

abbrev history : List (ℕ × Call)
history =
    (1, sets_up (codes "ada") (codes "correct horse") (codes "p"))
    ∷ (2, begins (codes "p") (codes "secret") (codes "q"))
    ∷ (3, confirms (codes "q") (codes "secret") (λ i. codes "0123456789") (codes "s"))
    ∷ (4, logs_in (codes "ada") (codes "correct horse") (codes "v"))
    ∷ []

history-calm : AreCalm false history
history-calm = (λ h. h, (λ h. h, (λ h. h, (λ h. h, tt))))

run-Holds_example : Holds false (run toy history empty_desk)
run-Holds_example = run-Holds toy false history empty_desk history-calm (empty-Holds false)

-- Ada is removed while her code is asked for: her challenge stays, and she has no secret any more.
abbrev removal : List (ℕ × Call)
removal =
    (5, creates_user (codes "t") (codes "bob") (codes "bobsecret") (codes "viewer") none)
    ∷ (6, enters_externally (codes "eve") operator (codes "acme") (codes "x"))
    ∷ (7, resets_2fa (codes "ada"))
    ∷ (8, deletes_user none (codes "ada"))
    ∷ []

removal-calm : AreCalm true removal
removal-calm = (λ _. refl, (λ _. refl, (λ _. refl, (λ _. refl, tt))))

history-Holds : Holds true (run toy history empty_desk)
history-Holds =
    run-Holds toy true history empty_desk (λ _. refl, (λ _. refl, (λ _. refl, (λ _. refl, tt))))
      (empty-Holds true)

removed-Holds : Holds true (run toy removal (run toy history empty_desk))
removed-Holds = run-Holds toy true removal (run toy history empty_desk) removal-calm history-Holds

ada-removed :
    (lookup (codes "ada") (run toy removal (run toy history empty_desk)).db_users ≡ none)
    × (get_auth_session (codes "s") (run toy removal (run toy history empty_desk)).auth.sessions
        ≡ none)
unfolding run lookup get_auth_session
ada-removed = (refl, refl)

challenge-single_use_example :
    IsSpent toy
      (verify_totp_login toy (run toy history empty_desk) (codes "v") (codes "x") (codes "y") 5).0
      (codes "v")
    × ((text_eq (toy.sha3_256_hex (codes "y")) (toy.sha3_256_hex (codes "v")) ≡ false
          → IsSpent toy
              (begin_enrollment toy
                (run toy history empty_desk)
                (codes "v")
                (codes "z")
                (codes "y")
                5).0
              (codes "v"))
        × IsSpent toy
            (confirm_enrollment toy
              (run toy history empty_desk)
              (codes "v")
              (codes "x")
              (λ i. [])
              (codes "y")
              5).0
            (codes "v"))
challenge-single_use_example =
    challenge-single_use toy (run toy history empty_desk) (codes "v") (codes "x") (codes "z")
      (codes "y") (λ i. []) 5

abbrev shown : Text
shown = codes "01234-56789"

abbrev nine : List Text
nine = shown ∷ shown ∷ shown ∷ shown ∷ shown ∷ shown ∷ shown ∷ shown ∷ shown ∷ []

abbrev ada : DbUser
ada = record {
  username = codes "ada";
  role = codes "admin";
  org = codes "default";
  password_hash = codes "correct horse";
  created_at = 1;
  totp_secret = some (codes "secret");
  totp_enabled = true;
  backup_code_hashes = shown ∷ nine;
}

abbrev asked : MfaPending
asked = record { username = codes "ada"; kind = codes "verify"; expires_at = 4 + 600 * second }

ada-found : lookup (codes "ada") (run toy history empty_desk).db_users ≡ some ada
unfolding lookup run
ada-found = refl

ada-IsChallenge : IsChallenge toy (run toy history empty_desk) (codes "verify") (codes "v") 5 asked
unfolding lookup run
ada-IsChallenge = record { stored = refl; unexpired = omega arith; of_kind = refl }

no_totp : toy.verify_totp (or_empty ada.totp_secret) asked.username 5 shown ≡ false
unfolding text_eq
no_totp = refl

shown-removed : remove_first (hash_backup_code toy shown) ada.backup_code_hashes ≡ some nine
unfolding remove_first hash_backup_code
shown-removed = refl

verify_totp_login-consumes_example :
    ((verify_totp_login toy (run toy history empty_desk) (codes "v") shown (codes "y") 5).1
      ≡ ok (codes "y") (parse ada.role) (run toy history empty_desk).session_ttl_secs)
    × ((lookup asked.username
            (verify_totp_login toy
              (run toy history empty_desk)
              (codes "v")
              shown
              (codes "y")
              5).0.db_users
          ≡ some (record ada { backup_code_hashes = nine }))
        × ((x : Text)
            → count x ada.backup_code_hashes
              ≡ (if text_eq (hash_backup_code toy shown) x then 1 else 0) + count x nine))
verify_totp_login-consumes_example =
    verify_totp_login-consumes toy (run toy history empty_desk) (codes "v") shown (codes "y") 5
      asked ada nine history-Holds ada-IsChallenge ada-found no_totp shown-removed

abbrev half : List (ℕ × Call)
half =
    (1, sets_up (codes "ada") (codes "correct horse") (codes "p"))
    ∷ (2, begins (codes "p") (codes "secret") (codes "q"))
    ∷ []

half-Holds : Holds true (run toy half empty_desk)
half-Holds = run-Holds toy true half empty_desk (λ _. refl, (λ _. refl, tt)) (empty-Holds true)

abbrev enrolled : EnrollResult
enrolled = record { token = codes "s"; role = admin; ttl = 3600; backup_codes = shown ∷ nine }

ada-enrolls :
    (confirm_enrollment toy
      (run toy half empty_desk)
      (codes "q")
      (codes "secret")
      (λ i. codes "0123456789")
      (codes "s")
      3).1
    ≡ some enrolled
unfolding confirm_enrollment run
ada-enrolls = refl

confirm_enrollment-IsUsable_example :
    IsUsable toy
      (confirm_enrollment toy
        (run toy half empty_desk)
        (codes "q")
        (codes "secret")
        (λ i. codes "0123456789")
        (codes "s")
        3).0
      enrolled
confirm_enrollment-IsUsable_example =
    confirm_enrollment-IsUsable toy (run toy half empty_desk) (codes "q") (codes "secret")
      (λ i. codes "0123456789") (codes "s") 3 enrolled half-Holds ada-enrolls

setup_admin-once_example :
    (setup_required empty_desk ≡ false
      → setup_admin toy (run toy history empty_desk) (codes "eve") (codes "pw") (codes "w") 9
        ≡ (run toy history empty_desk, refused already_completed))
    × ((first secret drawn t : Text) (at : ℕ)
        → (setup_admin toy empty_desk first secret drawn at).1 ≡ created t
        → setup_admin toy
            (run toy history (setup_admin toy empty_desk first secret drawn at).0)
            (codes "eve")
            (codes "pw")
            (codes "w")
            9
          ≡ (
            run toy history (setup_admin toy empty_desk first secret drawn at).0,
            refused already_completed,
          ))
setup_admin-once_example =
    setup_admin-once toy empty_desk history (codes "eve") (codes "pw") (codes "w") 9
      (refl, (refl, (refl, (refl, tt))))
