-- ===== src/Gateway/Login/Administration.antt =====
-- crates/qw-gateway/src/admin/users_api.rs and the administration commands of crates/qw-cli/src/main.rs:
-- what the user administration leaves of the users, the sessions and the setup.
use quanta_watch.Prelude.{
  ℕ, ◌≡◌, refl, inl, inr, Text, trim, Bool, true, false, Option, some, List, [], ◌∷◌, ltb,
  Option-cases, Bool-cases, arith,
}
use quanta_watch.Store.{lookup, insert, lookup-erase}
use quanta_watch.Gateway.Auth.{AuthSession, get_auth_session}
use quanta_watch.Gateway.Auth.Sessions.{get-delete}
use quanta_watch.Gateway.Login.{Library, DbUser, Desk}
use quanta_watch.Gateway.Login.Password.{setup_required, count_chars}
use quanta_watch.Gateway.Login.Invariant.{Holds, user-IsValid, change-IsValid}
use quanta_watch.Gateway.Login.Users.{
  Change, changed, rejected, new_user, store_user, create_user, set_role, set_password, is_caller,
  write_change, then_change, update_user, delete_sessions, delete_sessions_for_user, delete_user,
  reset_2fa, reset_password,
}

store_user-Holds :
    {w : Bool}
    → (lib : Library) (d : Desk) (username password role org : Text) (now : ℕ) → Holds w d
    → Holds w (store_user lib d username password role org now).0
unfolding store_user
store_user-Holds lib d username password role org now v =
    elim (Option-cases (lookup username d.db_users)) [
      | inr (u, e) ↦ rw (e, store_user) v
      | inl e ↦ elim (Option-cases (lib.hash_password password)) [
        | inl f ↦ rw (e, store_user) (rw f v)
        | inr (hash, f) ↦
            rw (e, store_user)
              (rw f (
                user-IsValid d.db_users d.pendings (new_user username role org hash now) v
                  (λ k. absurd (ground arith)) (λ _ old h. absurd (ground (arith, h, e)))))
      ]
    ]

pub create_user-Holds :
    {w : Bool}
    → (lib : Library) (d : Desk) (tenant username password role : Text) (org : Option Text)
      (now : ℕ)
    → Holds w d
    → Holds w (create_user lib d tenant username password role org now).0
unfolding create_user
create_user-Holds lib d tenant username password role org now v =
    ground (arith, store_user-Holds lib d (trim username) password role _ now v)

-- A change that keeps the name and the second factor.
abbrev IsMinor : DbUser → Change → Type 0
IsMinor user (changed u) =
    (u.username ≡ user.username)
    × ((u.totp_enabled ≡ user.totp_enabled) × (u.totp_secret ≡ user.totp_secret))
IsMinor user (rejected reply) = Unit {0}

set_role-IsMinor :
    (d : Desk) (role : Option Text) (user : DbUser) → IsMinor user (set_role d role user)
unfolding set_role
set_role-IsMinor d role user = ground arith

set_password-IsMinor :
    (lib : Library) (password : Option Text) (user : DbUser)
    → IsMinor user (set_password lib password user)
unfolding set_password
set_password-IsMinor lib password user = ground arith

then_change-IsMinor :
    (user : DbUser) (c : Change) (f : DbUser → Change)
    → IsMinor user c
    → ((u : DbUser) → IsMinor u (f u))
    → IsMinor user (then_change c f)
unfolding then_change
then_change-IsMinor user (rejected reply) f h k = tt
then_change-IsMinor user (changed u) f h k = ground (arith, k u)

write_change-Holds :
    {w : Bool}
    → (d : Desk) (username : Text) (user : DbUser) (c : Change) → Holds w d
    → lookup username d.db_users ≡ some user
    → IsMinor user c
    → Holds w (write_change d c).0
unfolding write_change
write_change-Holds d username user (rejected reply) v found h = v
write_change-Holds d username user (changed u) v found h =
    change-IsValid d.db_users d.pendings username user u v found h.0
      (λ on. ground (arith, v.armed username user found)) (λ _ has. ground arith)

pub update_user-Holds :
    {w : Bool}
    → (lib : Library) (d : Desk) (username : Text) (role password : Option Text) → Holds w d
    → Holds w (update_user lib d username role password).0
unfolding update_user
update_user-Holds lib d username role password v =
    elim (Option-cases (lookup username d.db_users)) [
      | inl e ↦ rw (e, update_user) v
      | inr (user, e) ↦
          rw (e, update_user)
            (write_change-Holds d username user _ v e (
              then_change-IsMinor user (set_role d role user) (set_password lib password)
                (set_role-IsMinor d role user) (set_password-IsMinor lib password)))
    ]

pub reset_password-Holds :
    {w : Bool}
    → (lib : Library) (d : Desk) (username password : Text) → Holds w d
    → Holds w (reset_password lib d username password).0
unfolding reset_password
reset_password-Holds lib d username password v = elim (Bool-cases (ltb (count_chars password) 12)) [
  | inl short ↦ rw (short, reset_password) v
  | inr long ↦ elim (Option-cases (lookup username d.db_users)) [
    | inl e ↦ rw (long, reset_password) (rw e v)
    | inr (user, e) ↦ elim (Option-cases (lib.hash_password password)) [
      | inl f ↦ rw (long, reset_password) (rw e (rw f v))
      | inr (hash, f) ↦
          rw (long, reset_password)
            (rw e (
              rw f (
                change-IsValid d.db_users d.pendings username user
                  (record user { password_hash = hash }) v e refl (v.armed username user e)
                  (λ _ h. h))))
    ]
  ]
]

-- A reset takes a secret away.
pub reset_2fa-Holds :
    (d : Desk) (username : Text) → Holds true d → Holds true (reset_2fa d username).0
unfolding reset_2fa
reset_2fa-Holds d username v = elim (Option-cases (lookup username d.db_users)) [
  | inl e ↦ rw (e, reset_2fa) v
  | inr (user, e) ↦
      rw (e, reset_2fa)
        (change-IsValid d.db_users d.pendings username user _ v e refl (λ k. absurd (ground arith))
          (λ calm. absurd (ground arith)))
]

pub delete_user-Holds :
    (lib : Library) (d : Desk) (caller : Option Text) (username : Text)
    → Holds true d
    → Holds true (delete_user lib d caller username).0
unfolding delete_user delete_sessions_for_user
delete_user-Holds lib d caller username v = elim (Bool-cases (is_caller caller username)) [
  | inl own ↦ rw (own, delete_user) v
  | inr other ↦ elim (Option-cases (lookup username d.db_users)) [
    | inl e ↦ rw (other, delete_user) (rw e v)
    | inr (user, e) ↦
        rw (other, delete_user)
          (rw e (record {
            keyed = λ name u h.
                v.keyed name u (ground (arith, lookup-erase username name d.db_users, h));
            armed = λ name u h.
                v.armed name u (ground (arith, lookup-erase username name d.db_users, h));
            asked = λ calm. absurd (ground arith);
          }))
  ]
]

-- A session that the removal of a user leaves was there.
get-delete_sessions :
    (picks : AuthSession → Bool) (hash : Text) (sessions : List (Text × AuthSession))
    (s : AuthSession)
    → get_auth_session hash (delete_sessions picks sessions) ≡ some s
    → get_auth_session hash sessions ≡ some s
unfolding get_auth_session delete_sessions
get-delete_sessions picks hash [] s h = h
get-delete_sessions picks hash ((k, old) ∷ sessions) s h = ground (
  arith,
  get-delete_sessions picks hash sessions s,
  get-delete k hash (delete_sessions picks sessions),
)

pub get-delete_user :
    (lib : Library) (d : Desk) (caller : Option Text) (username hash : Text) (s : AuthSession)
    → get_auth_session hash (delete_user lib d caller username).0.auth.sessions ≡ some s
    → get_auth_session hash d.auth.sessions ≡ some s
unfolding delete_user delete_sessions_for_user
get-delete_user lib d caller username hash s h =
    ground (arith, get-delete_sessions (λ x. lib.is_like x username) hash d.auth.sessions s)

-- The other operations leave the sessions alone.
pub create_user-auth :
    (lib : Library) (d : Desk) (tenant username password role : Text) (org : Option Text) (now : ℕ)
    → (create_user lib d tenant username password role org now).0.auth ≡ d.auth
unfolding create_user store_user
create_user-auth lib d tenant username password role org now = ground arith

write_change-auth : (d : Desk) (c : Change) → (write_change d c).0.auth ≡ d.auth
unfolding write_change
write_change-auth d c = ground arith

pub update_user-auth :
    (lib : Library) (d : Desk) (username : Text) (role password : Option Text)
    → (update_user lib d username role password).0.auth ≡ d.auth
unfolding update_user
update_user-auth lib d username role password = ground (arith, write_change-auth d)

pub reset_2fa-auth : (d : Desk) (username : Text) → (reset_2fa d username).0.auth ≡ d.auth
unfolding reset_2fa
reset_2fa-auth d username = ground arith

pub reset_password-auth :
    (lib : Library) (d : Desk) (username password : Text)
    → (reset_password lib d username password).0.auth ≡ d.auth
unfolding reset_password
reset_password-auth lib d username password = ground arith

-- Neither does any of them take the last user away.
pub create_user-IsSetUp :
    (lib : Library) (d : Desk) (tenant username password role : Text) (org : Option Text) (now : ℕ)
    → setup_required d ≡ false
    → setup_required (create_user lib d tenant username password role org now).0 ≡ false
unfolding create_user store_user setup_required insert
create_user-IsSetUp lib d tenant username password role org now h = ground arith

write_change-IsSetUp :
    (d : Desk) (c : Change) → setup_required d ≡ false → setup_required (write_change d c).0 ≡ false
unfolding write_change setup_required insert
write_change-IsSetUp d c h = ground arith

pub update_user-IsSetUp :
    (lib : Library) (d : Desk) (username : Text) (role password : Option Text)
    → setup_required d ≡ false
    → setup_required (update_user lib d username role password).0 ≡ false
unfolding update_user
update_user-IsSetUp lib d username role password h =
    elim (Option-cases (lookup username d.db_users)) [
      | inl e ↦ rw (e, update_user) h
      | inr (user, e) ↦ rw (e, update_user) (write_change-IsSetUp d _ h)
    ]

pub reset_2fa-IsSetUp :
    (d : Desk) (username : Text)
    → setup_required d ≡ false
    → setup_required (reset_2fa d username).0 ≡ false
unfolding reset_2fa setup_required insert
reset_2fa-IsSetUp d username h = ground arith

pub reset_password-IsSetUp :
    (lib : Library) (d : Desk) (username password : Text)
    → setup_required d ≡ false
    → setup_required (reset_password lib d username password).0 ≡ false
unfolding reset_password setup_required insert
reset_password-IsSetUp lib d username password h = ground arith
