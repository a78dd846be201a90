-- ===== src/Gateway/Auth.antt =====
-- crates/qw-gateway/src/auth.rs and `auth_layer` of router.rs: who a request is from, and whether it
-- reaches its handler. Instants are in nanoseconds. The table of sessions is that of
-- crates/qw-store/src/lib.rs, a map from the hash of a token; the hash is a parameter.
pub mod Sessions
pub mod Guard
pub mod Viewers
use quanta_watch.Audit.Entry.{AuditEvent, access_denied, admin_action}
use quanta_watch.Gateway.Rbac.{PermissionSet, allows, RoleTable, get_role, Method, route_permission}
use quanta_watch.Prelude.{
  ℕ, ◌+◌, ◌-◌, ◌*◌, ◌^◌, Text, codes, text_eq, to_lowercase, starts_with, ends_with, has_text, Bool,
  true, false, not, ◌&&◌, ◌||◌, Option, none, some, List, [], ◌∷◌, ◌++◌, any, leb, ltb,
  if◌then◌else◌,
}

pub data Role : Type 0 where
  viewer auditor operator admin : Role

-- `Role::parse`
unfoldable pub parse : Text → Role
unfolding to_lowercase text_eq
parse s =
    let name = to_lowercase s in
    if text_eq name (codes "admin")
    then admin
    else if text_eq name (codes "operator")
    then operator
    else if text_eq name (codes "auditor")
    then auditor
    else viewer

pub record AuthSession : Type 0 where
  pub username : Text
  pub role : Text
  pub org : Text
  pub expires_at : ℕ
  pub last_used : ℕ

pub record ApiKeyConfig : Type 0 where
  pub name : Text
  pub key_hash : Text
  pub role : Text
  pub org : Text

pub record AuthContext : Type 0 where
  pub principal : Text
  pub role : Role
  pub role_name : Text
  pub permissions : PermissionSet
  pub org : Text
  pub method : Text

-- The manager, with the part of its store and of its configuration that it reads here.
pub record AuthManager : Type 0 where
  pub enabled : Bool
  pub idle_timeout_secs : ℕ
  pub api_keys : List ApiKeyConfig
  pub role_perms : RoleTable
  pub sessions : List (Text × AuthSession)

unfoldable pub get_auth_session : Text → List (Text × AuthSession) → Option AuthSession
unfolding text_eq
get_auth_session hash [] = none
get_auth_session hash ((k, s) ∷ sessions) =
    let rest = get_auth_session hash sessions in if text_eq k hash then some s else rest

unfoldable pub delete_auth_session : Text → List (Text × AuthSession) → List (Text × AuthSession)
unfolding text_eq
delete_auth_session hash [] = []
delete_auth_session hash ((k, s) ∷ sessions) =
    let rest = delete_auth_session hash sessions in if text_eq k hash then rest else (k, s) ∷ rest

-- `UPDATE`: a session that is not there is not added.
unfoldable pub touch_auth_session :
    Text → AuthSession → List (Text × AuthSession) → List (Text × AuthSession)
unfolding text_eq
touch_auth_session hash s [] = []
touch_auth_session hash s ((k, old) ∷ sessions) =
    let rest = touch_auth_session hash s sessions in
    if text_eq k hash then (k, s) ∷ rest else (k, old) ∷ rest

-- The permissions of a role's name; an unknown role has none.
unfoldable pub perms_for : AuthManager → Text → PermissionSet
unfolding get_role to_lowercase
perms_for m role_name = elim (get_role (to_lowercase role_name) m.role_perms) [
  | some set ↦ set
  | none ↦ record { patterns = [] }
]

abbrev pub second : ℕ
second = 1_000_000_000

-- The most seconds that chrono's `Duration::seconds` takes, `i64::MAX` milliseconds.
abbrev pub max_secs : ℕ
max_secs = 9_223_372_036_854_775

-- `now + Duration::seconds(secs as i64)`: a `u64` of 2^63 or more is a negative count of seconds. Out
-- of chrono's range the source panics; that is not modelled.
unfoldable pub add_secs : ℕ → ℕ → ℕ
add_secs now secs =
    if ltb secs (2 ^ 63) then now + secs * second else now - (2 ^ 64 - secs) * second

-- `now - since > Duration::seconds(secs as i64)`
unfoldable pub is_longer : (since now secs : ℕ) → Bool
is_longer since now secs =
    if ltb secs (2 ^ 63)
    then ltb (secs * second) (now - since)
    else ltb since (now + (2 ^ 64 - secs) * second)

unfoldable pub is_over : AuthManager → AuthSession → ℕ → Bool
unfolding is_longer
is_over m s now =
    leb s.expires_at now
    || (ltb 0 m.idle_timeout_secs && is_longer s.last_used now m.idle_timeout_secs)

unfoldable pub session_context : AuthManager → AuthSession → AuthContext
unfolding perms_for parse
session_context m s = record {
  principal = s.username;
  role = parse s.role;
  role_name = s.role;
  permissions = perms_for m s.role;
  org = s.org;
  method = codes "session";
}

unfoldable pub key_context : AuthManager → ApiKeyConfig → AuthContext
unfolding perms_for parse
key_context m key = record {
  principal = codes "apikey:" ++ key.name;
  role = parse key.role;
  role_name = key.role;
  permissions = perms_for m key.role;
  org = key.org;
  method = codes "api-key";
}

unfoldable pub find_key : Text → List ApiKeyConfig → Option ApiKeyConfig
unfolding text_eq
find_key hash [] = none
find_key hash (key ∷ keys) =
    let rest = find_key hash keys in if text_eq key.key_hash hash then some key else rest

abbrev pub with_sessions : AuthManager → List (Text × AuthSession) → AuthManager
with_sessions m sessions = record m { sessions = sessions }

-- `validate` of a session: it is over and is deleted, or it is refreshed once a minute.
unfoldable pub validate_session :
    AuthManager → Text → AuthSession → ℕ → AuthManager × Option AuthContext
unfolding is_over delete_auth_session touch_auth_session session_context
validate_session m hash s now =
    if is_over m s now
    then (with_sessions m (delete_auth_session hash m.sessions), none)
    else if ltb (60 * second) (now - s.last_used)
    then (
      with_sessions m (touch_auth_session hash (record s { last_used = now }) m.sessions),
      some (session_context m s),
    )
    else (m, some (session_context m s))

-- `validate`, of the hash of a credential.
unfoldable pub validate : AuthManager → Text → ℕ → AuthManager × Option AuthContext
unfolding validate_session get_auth_session find_key key_context
validate m hash now = elim (get_auth_session hash m.sessions) [
  | some s ↦ validate_session m hash s now
  | none ↦ elim (find_key hash m.api_keys) [
    | some key ↦ (m, some (key_context m key))
    | none ↦ (m, none)
  ]
]

unfoldable pub logout : AuthManager → Text → AuthManager
unfolding delete_auth_session
logout m hash = with_sessions m (delete_auth_session hash m.sessions)

-- The request as `auth_layer` reads it: two credentials and the tenant, each if its header is there.
pub record Request : Type 0 where
  pub method : Method
  pub method_name : Text
  pub path : Text
  pub authorization : Option Text
  pub x_api_key : Option Text
  pub x_tenant : Option Text

-- The endpoints that need no credential.
unfoldable pub always_open : Text → Bool
unfolding ends_with has_text
always_open path =
    any (λ suffix. ends_with path suffix)
      (codes "/api/auth/login"
        ∷ codes "/api/health"
        ∷ codes "/api/auth/config"
        ∷ codes "/api/auth/status"
        ∷ codes "/api/auth/setup"
        ∷ codes "/api/endpoints/report"
        ∷ codes "/api/endpoints/agent.ps1"
        ∷ codes "/api/endpoints/agent.sh"
        ∷ codes "/api/k8s/admission"
        ∷ [])
    || any (λ part. has_text path part)
        (codes "/api/auth/2fa/" ∷ codes "/api/auth/oidc/" ∷ codes "/api/webhooks/" ∷ [])

unfoldable pub strip_prefix : Text → Text → Option Text
strip_prefix [] s = some s
strip_prefix (p ∷ ps) [] = none
strip_prefix (p ∷ ps) (c ∷ s) =
    let rest = strip_prefix ps s in if leb p c && leb c p then rest else none

unfoldable pub credential : Request → Option Text
unfolding strip_prefix
credential req = elim req.authorization [
  | none ↦ req.x_api_key
  | some v ↦ elim (strip_prefix (codes "Bearer ") v) [ some t ↦ some t | none ↦ req.x_api_key ]
]

-- What the layer answers: the handler's response, which ran for a caller or for nobody in particular,
-- or a refusal.
pub data Response : Type 0 where
  next : Option AuthContext → Response
  unauthorized : Response
  forbidden : (required : Text) → Response

unfoldable pub identity_only : Text → Bool
unfolding has_text
identity_only path =
    has_text path (codes "/api/auth/me") || has_text path (codes "/api/auth/logout")

-- The tenant header, for a caller who may write the configuration.
unfoldable pub switch_tenant : AuthContext → Option Text → AuthContext
unfolding allows
switch_tenant ctx x_tenant =
    if allows ctx.permissions (codes "config:write")
    then (elim x_tenant [ none ↦ ctx | some [] ↦ ctx | some (c ∷ t) ↦ record ctx { org = c ∷ t } ])
    else ctx

-- The layer for a caller who is known; `succeeds` is whether the handler's response is a success.
-- The events are the calls of `audit_logger.log`, whose failure the layer ignores.
unfoldable pub guard : Request → AuthContext → Bool → Response × List AuditEvent
unfolding identity_only route_permission allows switch_tenant ends_with
guard req ctx succeeds =
    let required = route_permission req.method req.path in
    let is_write = not (identity_only req.path) && ends_with required (codes ":write") in
    if not (identity_only req.path) && not (allows ctx.permissions required)
    then (forbidden required, access_denied ctx.principal req.method_name req.path required ∷ [])
    else (
      next (some (switch_tenant ctx req.x_tenant)),
      (if is_write && succeeds
          then admin_action ctx.principal req.method_name req.path required ∷ []
          else []),
    )

unfoldable pub auth_layer :
    (Text → Text) → AuthManager → Request → ℕ → Bool → AuthManager × Response × List AuditEvent
unfolding always_open credential validate guard
auth_layer sha3_256_hex m req now succeeds =
    if not m.enabled || always_open req.path then (m, next none, []) else (elim (credential req) [
      | none ↦ (m, unauthorized, [])
      | some c ↦
          let (m', found) = validate m (sha3_256_hex c) now in
          elim found [
            | none ↦ (m', unauthorized, [])
            | some ctx ↦ let (response, events) = guard req ctx succeeds in (m', response, events)
          ]
    ])
