-- ===== src/Gateway/Login/Users.antt =====
-- crates/qw-gateway/src/admin/users_api.rs and the administration commands of crates/qw-cli/src/main.rs:
-- the users of the store are created, changed and removed, and their passwords and second factors reset.
use quanta_watch.Prelude.{
  ℕ, Text, codes, text_eq, trim, has_item, length, Bool, true, false, not, ◌||◌, Option, none, some,
  List, [], ◌∷◌, ◌++◌, ltb, if◌then◌else◌,
}
use quanta_watch.Store.{lookup, insert, erase}
use quanta_watch.Gateway.Auth.{AuthSession, delete_auth_session, with_sessions}
use quanta_watch.Gateway.Login.{Library, UserConfig, DbUser, Desk, find_user}
use quanta_watch.Gateway.Login.Password.{is_empty, count_chars, upsert_user}

unfoldable pub add_roles : List Text → List Text → List Text
unfolding has_item
add_roles roles [] = roles
add_roles roles (name ∷ names) =
    add_roles (if has_item roles name then roles else roles ++ name ∷ []) names

unfoldable pub known_roles : Desk → List Text
unfolding add_roles
known_roles d = add_roles (codes "admin" ∷ codes "operator" ∷ codes "viewer" ∷ []) d.roles

-- The statuses of the answers, and those of the command line.
pub data Reply : Type 0 where
  created updated deleted bad_request conflict not_found internal_error : Reply

unfoldable pub is_configured : Text → List UserConfig → Bool
unfolding find_user
is_configured username users = elim (find_user username users) [ none ↦ false | some u ↦ true ]

abbrev pub new_user : (username role org password_hash : Text) → ℕ → DbUser
new_user username role org password_hash now = record {
  username = username;
  role = role;
  org = org;
  password_hash = password_hash;
  created_at = now;
  totp_secret = none;
  totp_enabled = false;
  backup_code_hashes = [];
}

abbrev or_tenant : Text → Option Text → Text
or_tenant tenant none = tenant
or_tenant tenant (some org) = org

-- The part of `create_user` after its checks of the request.
unfoldable pub store_user : Library → Desk → (username password role org : Text) → ℕ → Desk × Reply
unfolding lookup insert
store_user lib d username password role org now = elim (lookup username d.db_users) [
  | some u ↦ (d, conflict)
  | none ↦ elim (lib.hash_password password) [
    | none ↦ (d, internal_error)
    | some hash ↦ (upsert_user d (new_user username role org hash now), created)
  ]
]

unfoldable pub create_user :
    Library → Desk → (tenant username password role : Text) → Option Text → ℕ → Desk × Reply
unfolding trim known_roles has_item is_configured store_user
create_user lib d tenant username password role org now =
    if is_empty (trim username) || ltb (length password) 8
    then (d, bad_request)
    else if not (has_item (known_roles d) role)
    then (d, bad_request)
    else if is_configured (trim username) d.users
    then (d, conflict)
    else store_user lib d (trim username) password role (or_tenant tenant org) now

-- A changed user, or the refusal of the change.
pub data Change : Type 0 where
  changed : DbUser → Change
  rejected : Reply → Change

unfoldable pub set_role : Desk → Option Text → DbUser → Change
unfolding known_roles has_item
set_role d none user = changed user
set_role d (some role) user =
    if has_item (known_roles d) role
    then changed (record user { role = role })
    else rejected bad_request

unfoldable pub set_password : Library → Option Text → DbUser → Change
set_password lib none user = changed user
set_password lib (some password) user =
    if ltb (length password) 8 then rejected bad_request else (elim (lib.hash_password password) [
      | none ↦ rejected internal_error
      | some hash ↦ changed (record user { password_hash = hash })
    ])

unfoldable pub write_change : Desk → Change → Desk × Reply
unfolding insert
write_change d (changed user) = (upsert_user d user, updated)
write_change d (rejected reply) = (d, reply)

unfoldable pub then_change : Change → (DbUser → Change) → Change
then_change (changed user) f = f user
then_change (rejected reply) f = rejected reply

unfoldable pub update_user :
    Library → Desk → (username : Text) → (role password : Option Text) → Desk × Reply
unfolding lookup set_role set_password write_change then_change
update_user lib d username role password = elim (lookup username d.db_users) [
  | none ↦ (d, not_found)
  | some user ↦
      write_change d (then_change (set_role d role user) (λ u. set_password lib password u))
]

-- The rows that a test picks out are gone; a hash is the table's primary key.
unfoldable pub delete_sessions :
    (AuthSession → Bool) → List (Text × AuthSession) → List (Text × AuthSession)
unfolding delete_auth_session
delete_sessions picks [] = []
delete_sessions picks ((k, s) ∷ sessions) =
    let rest = delete_sessions picks sessions in
    if picks s then delete_auth_session k rest else (k, s) ∷ rest

unfoldable pub delete_sessions_for_user : Library → Desk → Text → Desk
unfolding delete_sessions
delete_sessions_for_user lib d username = record d {
  auth = with_sessions d.auth (delete_sessions (λ s. lib.is_like s username) d.auth.sessions);
}

unfoldable pub is_caller : Option Text → Text → Bool
unfolding text_eq
is_caller none username = false
is_caller (some principal) username = text_eq principal username

unfoldable pub delete_user : Library → Desk → Option Text → Text → Desk × Reply
unfolding lookup erase is_caller delete_sessions_for_user
delete_user lib d caller username =
    if is_caller caller username then (d, bad_request) else (elim (lookup username d.db_users) [
      | none ↦ (d, not_found)
      | some user ↦ (
        delete_sessions_for_user lib (record d { db_users = erase username d.db_users }) username,
        deleted,
      )
    ])

-- `admin reset-2fa`
unfoldable pub reset_2fa : Desk → Text → Desk × Reply
unfolding lookup insert
reset_2fa d username = elim (lookup username d.db_users) [
  | none ↦ (d, not_found)
  | some user ↦ (
    upsert_user d
        (record user { totp_secret = none; totp_enabled = false; backup_code_hashes = [] }),
    updated,
  )
]

-- `admin reset-password`
unfoldable pub reset_password : Library → Desk → (username password : Text) → Desk × Reply
unfolding count_chars lookup insert
reset_password lib d username password =
    if ltb (count_chars password) 12 then (d, bad_request) else (elim (lookup username d.db_users) [
      | none ↦ (d, not_found)
      | some user ↦ elim (lib.hash_password password) [
        | none ↦ (d, internal_error)
        | some hash ↦ (upsert_user d (record user { password_hash = hash }), updated)
      ]
    ])
