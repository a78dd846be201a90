-- ===== src/Gateway/Auth/Viewers.antt =====
-- auth.rs, rbac.rs and router.rs of crates/qw-gateway/src together: what a viewer may reach.
use quanta_watch.Prelude.{
  ℕ, ◌≡◌, ◌⊎◌, inl, inr, refl, sym, ap, ◌∙◌, Text, codes, to_lowercase, Bool, true, not, ◌&&◌, some,
  [],
}
use quanta_watch.Gateway.Rbac.{
  PermissionSet, allows, get_role, insert_role, insert_builtins, resolve_roles,
  builtin_role_permissions, route_permission,
}
use quanta_watch.Gateway.Rbac.Routes.{viewer_set, viewer_set-allows, to_read, on_config}
use quanta_watch.Gateway.Auth.{
  AuthContext, AuthManager, perms_for, session_context, key_context, Request, next, identity_only,
  auth_layer,
}
use quanta_watch.Gateway.Auth.Sessions.{Accepted, by_session, by_key, validate-accepts}
use quanta_watch.Gateway.Auth.Guard.{auth_layer-admits}

Accepted-permissions :
    (m : AuthManager) (hash : Text) (now : ℕ) (ctx : AuthContext)
    → Accepted m hash now ctx
    → ctx.permissions ≡ perms_for m ctx.role_name
unfolding session_context key_context
Accepted-permissions m hash now ctx (by_session s found live e) =
    ap (λ c. c.permissions) e ∙ ap (λ c. perms_for m c.role_name) (sym e)
Accepted-permissions m hash now ctx (by_key key absent found e) =
    ap (λ c. c.permissions) e ∙ ap (λ c. perms_for m c.role_name) (sym e)

builtin_viewer : get_role (codes "viewer") (resolve_roles []) ≡ some viewer_set
unfolding resolve_roles insert_builtins insert_role builtin_role_permissions get_role
builtin_viewer = refl

found_permissions :
    (m : AuthManager) (name : Text) (set : PermissionSet)
    → get_role (to_lowercase name) m.role_perms ≡ some set
    → perms_for m name ≡ set
unfolding perms_for
found_permissions m name set h = rw (h, perms_for) refl

viewer_permissions :
    (m : AuthManager) (name : Text)
    → m.role_perms ≡ resolve_roles []
    → to_lowercase name ≡ codes "viewer"
    → perms_for m name ≡ viewer_set
viewer_permissions m name r e =
    found_permissions m name viewer_set (
      ap (λ z. get_role z m.role_perms) e
      ∙ ap (λ t. get_role (codes "viewer") t) r
      ∙ builtin_viewer)

-- Without custom roles, a caller whose role is the viewer's, in any case of its letters, reaches a
-- handler only on a path of the caller's own identity or where the route needs a permission that is only
-- to read and not on the configuration.
pub auth_layer-confines_viewers :
    (sha3_256_hex : Text → Text) (m : AuthManager) (req : Request) (now : ℕ) (succeeds : Bool)
    (ctx : AuthContext)
    → m.role_perms ≡ resolve_roles []
    → to_lowercase ctx.role_name ≡ codes "viewer"
    → (auth_layer sha3_256_hex m req now succeeds).1 ≡ next (some ctx)
    → let needed = route_permission req.method req.path in
      (identity_only req.path ≡ true) ⊎ ((to_read needed && not (on_config needed)) ≡ true)
auth_layer-confines_viewers sha3_256_hex m req now succeeds ctx r v h =
    let (c, caller, (found, (valid, admitted))) =
      auth_layer-admits sha3_256_hex m req now succeeds ctx h in
    let set : caller.permissions ≡ viewer_set =
      Accepted-permissions m (sha3_256_hex c) now caller
        (validate-accepts m (sha3_256_hex c) now caller valid)
      ∙ viewer_permissions m caller.role_name r (ap to_lowercase (sym admitted.role_name) ∙ v) in
    elim admitted.granted [
      | inl own ↦ inl own
      | inr granted ↦ inr (
          sym (viewer_set-allows req.method req.path)
          ∙ ap (λ set'. allows set' (route_permission req.method req.path)) (sym set)
          ∙ granted)
    ]
