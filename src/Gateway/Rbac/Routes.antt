-- ===== src/Gateway/Rbac/Routes.antt =====
-- crates/qw-gateway/src/rbac.rs: which requests each built-in role may make.
use quanta_watch.Prelude.{
  ◌≡◌, refl, sym, ◌∙◌, inl, inr, Text, codes, text_eq, text_eq_iff, starts_with, ends_with,
  has_item, Bool, true, false, not, ◌&&◌, Bool-cases, none, some, List, [], ◌∷◌, ◌++◌, all, All,
  arith,
}
use quanta_watch.Gateway.Rbac.{
  rbac_resources, PermissionSet, allows, reads, writes, builtin_role_permissions, Method, is_write,
  permission, segment_after_api, resource_of, path_rules, first_rule, route_permission,
}

-- The known resources: the listed ones, and `config`.
abbrev pub known_resources : List Text
known_resources = codes "config" ∷ rbac_resources

-- A permission on a known resource.
abbrev pub Known : Text → Type 0
Known needed =
    (r : Text) × (w : Bool) × ((has_item known_resources r ≡ true) × (needed ≡ permission r w))

Known-first :
    (rules : List (Bool × Text)) (fallback : Text)
    → All (λ rule. Known rule.1) rules
    → Known fallback
    → Known (first_rule rules fallback)
unfolding first_rule
Known-first [] fallback k f = f
Known-first ((true, needed) ∷ rules) fallback k f = k.0
Known-first ((false, needed) ∷ rules) fallback k f = Known-first rules fallback k.1 f

resource_of-known : (segment : Text) → has_item known_resources (resource_of segment) ≡ true
unfolding resource_of has_item text_eq
resource_of-known segment = elim (Bool-cases (text_eq segment (codes "attack-paths"))) [
  | inl e ↦ rw e refl
  | inr e ↦ rw e (elim (Bool-cases (has_item rbac_resources segment)) [
    | inl q ↦ rw q (ground arith)
    | inr q ↦ rw q refl
  ])
]

listed : (r : Text) (w : Bool) → has_item known_resources r ≡ true → Known (permission r w)
listed r w h = (r, w, (h, refl))

rules-Known : (write : Bool) (path : Text) → All (λ rule. Known rule.1) (path_rules write path)
unfolding path_rules has_item text_eq
rules-Known write path = (
  listed (codes "config") write refl,
  (
    listed (codes "audit") false refl,
    (
      listed (codes "remediation") true refl,
      (
        listed (codes "remediation") false refl,
        (
          listed (codes "scans") true refl,
          (
            listed (codes "remediation") true refl,
            (
              listed (codes "findings") true refl,
              (
                listed (codes "scans") true refl,
                (
                  listed (codes "remediation") write refl,
                  (
                    listed (codes "attack_paths") false refl,
                    (
                      listed (codes "findings") false refl,
                      (listed (codes "metrics") false refl, tt),
                    ),
                  ),
                ),
              ),
            ),
          ),
        ),
      ),
    ),
  ),
)

pub route_permission-Known : (method : Method) (path : Text) → Known (route_permission method path)
unfolding route_permission
route_permission-Known method path =
    Known-first (path_rules (is_write method) path) _ (rules-Known (is_write method) path)
      (listed _ _ (resource_of-known (segment_after_api path)))

-- A test that holds of every known resource holds of each.
holds-listed :
    (p : Text → Bool) (l : List Text) (r : Text) → all p l ≡ true → has_item l r ≡ true → p r ≡ true
unfolding has_item
holds-listed p [] r h i = cc
holds-listed p (x ∷ l) r h i = elim (Bool-cases (text_eq x r)) [
  | inl e ↦ rw (sym ((text_eq_iff x r).0 e)) (ground arith)
  | inr e ↦ holds-listed p l r (ground arith) (ground arith)
]

-- Whether a permission is on the configuration, or is only to read.
abbrev pub on_config : Text → Bool
on_config needed = starts_with needed (codes "config:")

abbrev pub to_read : Text → Bool
to_read needed = ends_with needed (codes ":read")

abbrev pub same_bool : Bool → Bool → Bool
same_bool true b = b
same_bool false b = not b

abbrev pub viewer_set : PermissionSet
viewer_set = record { patterns = reads }

abbrev operator_set : PermissionSet
operator_set = record { patterns = reads ++ writes }

viewer_case : Text → Bool → Bool
viewer_case r w =
    same_bool (allows viewer_set (permission r w))
      (to_read (permission r w) && not (on_config (permission r w)))

operator_case : Text → Bool → Bool
operator_case r w =
    same_bool (allows operator_set (permission r w)) (not (on_config (permission r w)))

viewer-all : (w : Bool) → all (λ r. viewer_case r w) known_resources ≡ true
unfolding viewer_case allows permission reads starts_with ends_with
viewer-all true = refl
viewer-all false = refl

operator-all : (w : Bool) → all (λ r. operator_case r w) known_resources ≡ true
unfolding operator_case allows permission reads writes starts_with ends_with
operator-all true = refl
operator-all false = refl

-- Whether a built-in role grants a permission.
abbrev pub role_allows : Text → Text → Bool
role_allows name needed = elim (builtin_role_permissions name) [
  | none ↦ false
  | some set ↦ allows set needed
]

same_bool-eq : (b c : Bool) → same_bool b c ≡ true → b ≡ c
same_bool-eq true c h = sym h
same_bool-eq false true h = cc
same_bool-eq false false h = refl

viewer-known :
    (r : Text) (w : Bool)
    → has_item known_resources r ≡ true
    → allows viewer_set (permission r w)
      ≡ (to_read (permission r w) && not (on_config (permission r w)))
unfolding viewer_case
viewer-known r w h =
    same_bool-eq _ _ (holds-listed (λ x. viewer_case x w) known_resources r (viewer-all w) h)

operator-known :
    (r : Text) (w : Bool)
    → has_item known_resources r ≡ true
    → allows operator_set (permission r w) ≡ not (on_config (permission r w))
unfolding operator_case
operator-known r w h =
    same_bool-eq _ _ (holds-listed (λ x. operator_case x w) known_resources r (operator-all w) h)

admin-allows : (needed : Text) → allows (record { patterns = codes "*" ∷ [] }) needed ≡ true
unfolding allows
admin-allows needed = refl

role_sets :
    (needed : Text)
    → (role_allows (codes "viewer") needed ≡ allows viewer_set needed)
      × ((role_allows (codes "auditor") needed ≡ allows viewer_set needed)
          × ((role_allows (codes "operator") needed ≡ allows operator_set needed)
              × (role_allows (codes "admin") needed ≡ true)))
unfolding builtin_role_permissions
role_sets needed = (refl, (refl, (refl, admin-allows needed)))

-- The viewer's set, on the permission that a request needs.
pub viewer_set-allows :
    (method : Method) (path : Text)
    → let needed = route_permission method path in
      allows viewer_set needed ≡ (to_read needed && not (on_config needed))
viewer_set-allows method path =
    let (r, w, (h, e)) = route_permission-Known method path in rw e (viewer-known r w h)

-- For every method and path, the permission that a request needs is on a known resource; a viewer and
-- an auditor have it exactly when it is only to read and not on the configuration, an operator exactly
-- when it is not on the configuration, and an admin always.
pub builtins-reach :
    (method : Method) (path : Text)
    → let needed = route_permission method path in
      (Known needed)
      × ((role_allows (codes "viewer") needed ≡ (to_read needed && not (on_config needed)))
          × ((role_allows (codes "auditor") needed ≡ (to_read needed && not (on_config needed)))
              × ((role_allows (codes "operator") needed ≡ not (on_config needed))
                  × (role_allows (codes "admin") needed ≡ true))))
builtins-reach method path =
    let (r, w, (h, e)) = route_permission-Known method path in
    let sets = role_sets (permission r w) in
    rw e (
      listed r w h,
      (
        sets.0 ∙ viewer-known r w h,
        (sets.1.0 ∙ viewer-known r w h, (sets.1.1.0 ∙ operator-known r w h, sets.1.1.1)),
      ),
    )
