-- ===== src/Gateway/Rbac.antt =====
-- crates/qw-gateway/src/rbac.rs: the permission that a request needs, and the permissions of a role.
pub mod Routes
use quanta_watch.Prelude.{
  ℕ, zero, suc, Text, codes, text_eq, starts_with, ends_with, has_text, has_item, split_on,
  to_lowercase, Bool, true, false, not, ◌&&◌, ◌||◌, ◌==◌, Option, none, some, List, [], ◌∷◌, ◌++◌,
  any, map, if◌then◌else◌,
}

abbrev pub rbac_resources : List Text
rbac_resources =
    codes "scans"
    ∷ codes "findings"
    ∷ codes "posture"
    ∷ codes "cbom"
    ∷ codes "compliance"
    ∷ codes "soc2"
    ∷ codes "frameworks"
    ∷ codes "rbac"
    ∷ codes "governance"
    ∷ codes "crypto-policies"
    ∷ codes "overlay"
    ∷ codes "pki"
    ∷ codes "connectors"
    ∷ codes "connections"
    ∷ codes "endpoints"
    ∷ codes "targets"
    ∷ codes "slos"
    ∷ codes "alerts"
    ∷ codes "integrations"
    ∷ codes "remediation"
    ∷ codes "assets"
    ∷ codes "audit"
    ∷ codes "sessions"
    ∷ codes "threats"
    ∷ codes "agents"
    ∷ codes "attack_paths"
    ∷ codes "report"
    ∷ codes "evidence"
    ∷ codes "metrics"
    ∷ codes "tenants"
    ∷ codes "onboarding"
    ∷ codes "risk"
    ∷ codes "stats"
    ∷ []

-- The set of patterns, as a list: only membership is asked.
pub record PermissionSet : Type 0 where
  pub patterns : List Text

-- `split`: at the first colon; without one the action is `*`.
unfoldable pub split : Text → Text × Text
split [] = ([], codes "*")
split (c ∷ s) = let (r, a) = split s in if c == b':' then ([], s) else (c ∷ r, a)

unfoldable pub pattern_allows : Text → Text → Bool
unfolding split text_eq
pattern_allows p needed =
    let (nres, nact) = split needed in
    let (pres, pact) = split p in
    (text_eq pres (codes "*") || text_eq pres nres)
    && (text_eq pact (codes "*") || text_eq pact nact)

unfoldable pub allows : PermissionSet → Text → Bool
unfolding pattern_allows
allows set needed = any (λ p. pattern_allows p needed) set.patterns

unfoldable pub reads : List Text
reads = map (λ r. r ++ codes ":read") rbac_resources

unfoldable pub writes : List Text
writes = map (λ r. r ++ codes ":write") rbac_resources

unfoldable pub builtin_role_permissions : Text → Option PermissionSet
unfolding reads writes text_eq to_lowercase
builtin_role_permissions role_name =
    let name = to_lowercase role_name in
    if text_eq name (codes "viewer") || text_eq name (codes "auditor")
    then some (record { patterns = reads })
    else if text_eq name (codes "operator")
    then some (record { patterns = reads ++ writes })
    else if text_eq name (codes "admin")
    then some (record { patterns = codes "*" ∷ [] })
    else none

abbrev pub RoleTable : Type 0
RoleTable = List (Text × PermissionSet)

-- `HashMap::insert`, and `get`.
unfoldable pub insert_role : Text → PermissionSet → RoleTable → RoleTable
unfolding text_eq
insert_role name set [] = (name, set) ∷ []
insert_role name set ((k, old) ∷ table) =
    let rest = insert_role name set table in
    if text_eq k name then (name, set) ∷ table else (k, old) ∷ rest

unfoldable pub get_role : Text → RoleTable → Option PermissionSet
unfolding text_eq
get_role name [] = none
get_role name ((k, set) ∷ table) =
    let rest = get_role name table in if text_eq k name then some set else rest

unfoldable pub insert_builtins : List Text → RoleTable → RoleTable
unfolding builtin_role_permissions insert_role
insert_builtins [] table = table
insert_builtins (name ∷ names) table = elim (builtin_role_permissions name) [
  | some set ↦ insert_builtins names (insert_role name set table)
  | none ↦ insert_builtins names table
]

-- The custom roles of the configuration, in the order in which the map is read.
unfoldable pub insert_custom : List (Text × List Text) → RoleTable → RoleTable
unfolding insert_role to_lowercase
insert_custom [] table = table
insert_custom ((name, patterns) ∷ custom) table =
    insert_custom custom (insert_role (to_lowercase name) (record { patterns = patterns }) table)

unfoldable pub resolve_roles : List (Text × List Text) → RoleTable
unfolding insert_builtins insert_custom
resolve_roles custom =
    insert_custom custom (
      insert_builtins (codes "viewer" ∷ codes "auditor" ∷ codes "operator" ∷ codes "admin" ∷ []) [])

-- The methods of the crate http.
pub data Method : Type 0 where
  get head options post put patch delete : Method
  other : Text → Method

unfoldable pub is_write : Method → Bool
is_write get = false
is_write head = false
is_write options = false
is_write _ = true

unfoldable pub act : Bool → Text
act w = if w then codes "write" else codes "read"

unfoldable pub permission : Text → Bool → Text
unfolding act
permission resource w = resource ++ (codes ":" ++ act w)

unfoldable pub drop : ℕ → Text → Text
drop zero s = s
drop (suc n) [] = []
drop (suc n) (c ∷ s) = drop n s

-- The text before the first `sep`, and the text after it where there is one.
unfoldable pub split_once_at : ℕ → Text → Text → Text × Option Text
unfolding starts_with drop
split_once_at skip sep [] = ([], none)
split_once_at skip sep (c ∷ s) =
    let (before, after) = split_once_at skip sep s in
    if starts_with (c ∷ s) sep then ([], some (drop skip (c ∷ s))) else (c ∷ before, after)

-- `segment_after_api`
unfoldable pub segment_after_api : Text → Text
unfolding split_once_at split_on
segment_after_api path = elim (split_once_at 5 (codes "/api/") path).1 [
  | none ↦ []
  | some rest ↦ (split_on b'/' (split_once_at 5 (codes "/api/") rest).0).0
]

unfoldable pub resource_of : Text → Text
unfolding has_item text_eq
resource_of segment =
    if text_eq segment (codes "attack-paths")
    then codes "attack_paths"
    else if has_item rbac_resources segment
    then segment
    else codes "config"

-- The early returns of `route_permission`, in order: a test of the path and the permission it returns.
unfoldable pub path_rules : Bool → Text → List (Bool × Text)
unfolding permission has_text ends_with
path_rules write path =
    (has_text path (codes "/api/config"), permission (codes "config") write)
    ∷ (has_text path (codes "/api/audit"), permission (codes "audit") false)
    ∷ (has_text path (codes "/remediate"), permission (codes "remediation") true)
    ∷ (
      has_text path (codes "/findings/") && has_text path (codes "/plan"),
      permission (codes "remediation") false,
    )
    ∷ (
      has_text path (codes "/findings/") && has_text path (codes "/verify"),
      permission (codes "scans") true,
    )
    ∷ (
      has_text path (codes "/findings/") && has_text path (codes "/apply-fix"),
      permission (codes "remediation") true,
    )
    ∷ (
      has_text path (codes "/findings/") && has_text path (codes "/status"),
      permission (codes "findings") true,
    )
    ∷ (has_text path (codes "/api/ct/"), permission (codes "scans") true)
    ∷ (has_text path (codes "/api/remediations"), permission (codes "remediation") write)
    ∷ (has_text path (codes "/attack-paths/simulate"), permission (codes "attack_paths") false)
    ∷ (has_text path (codes "/api/findings"), permission (codes "findings") false)
    ∷ (ends_with path (codes "/metrics"), permission (codes "metrics") false)
    ∷ []

-- The first rule whose test holds.
unfoldable pub first_rule : List (Bool × Text) → Text → Text
first_rule [] fallback = fallback
first_rule ((test, needed) ∷ rules) fallback =
    let rest = first_rule rules fallback in if test then needed else rest

unfoldable pub route_permission : Method → Text → Text
unfolding is_write permission segment_after_api resource_of path_rules first_rule
route_permission method path =
    let write = is_write method in
    first_rule (path_rules write path) (permission (resource_of (segment_after_api path)) write)
