-- ===== src/Gateway/Auth/Guard.antt =====
-- `auth_layer` of crates/qw-gateway/src/router.rs: which requests reach their handler.
use quanta_watch.Audit.Entry.{access_denied, admin_action}
use quanta_watch.Gateway.Rbac.{allows, route_permission}
use quanta_watch.Gateway.Auth.{
  AuthContext, AuthManager, validate, Request, always_open, credential, next, unauthorized,
  forbidden, identity_only, switch_tenant, guard, auth_layer,
}
use quanta_watch.Prelude.{
  ℕ, ◌≡◌, ◌⊎◌, refl, sym, inl, inr, Text, codes, ends_with, Bool, true, false, not, ◌&&◌, ◌||◌,
  Bool-cases, Option, Option-cases, none, some, [], ◌∷◌, arith,
}

-- Why a caller's request may reach its handler.
pub record IsAdmitted (req : Request) (caller ctx : AuthContext) : Type 0 where
  pub granted :
      (identity_only req.path ≡ true)
      ⊎ (allows caller.permissions (route_permission req.method req.path) ≡ true)
  pub permissions : ctx.permissions ≡ caller.permissions
  pub role_name : ctx.role_name ≡ caller.role_name
  pub tenant : (ctx.org ≡ caller.org) ⊎ (allows caller.permissions (codes "config:write") ≡ true)

switch_tenant-keeps :
    (caller : AuthContext) (x_tenant : Option Text)
    → ((switch_tenant caller x_tenant).permissions ≡ caller.permissions)
      × (((switch_tenant caller x_tenant).role_name ≡ caller.role_name)
          × (((switch_tenant caller x_tenant).org ≡ caller.org)
              ⊎ (allows caller.permissions (codes "config:write") ≡ true)))
unfolding switch_tenant
switch_tenant-keeps caller none =
    elim (Bool-cases (allows caller.permissions (codes "config:write"))) [
      | inl e ↦ rw e (refl, (refl, inr refl))
      | inr e ↦ rw e (refl, (refl, inl refl))
    ]
switch_tenant-keeps caller (some []) =
    elim (Bool-cases (allows caller.permissions (codes "config:write"))) [
      | inl e ↦ rw e (refl, (refl, inr refl))
      | inr e ↦ rw e (refl, (refl, inl refl))
    ]
switch_tenant-keeps caller (some (c ∷ t)) =
    elim (Bool-cases (allows caller.permissions (codes "config:write"))) [
      | inl e ↦ rw e (refl, (refl, inr refl))
      | inr e ↦ rw e (refl, (refl, inl refl))
    ]

next-injective : (a b : AuthContext) → next (some a) ≡ next (some b) → a ≡ b
next-injective a b h = cc

forbidden-next : (t : Text) (o : Option AuthContext) → forbidden t ≡ next o → ⊥
forbidden-next t o h = cc

either : (b c : Bool) → (not b && not c) ≡ false → (b ≡ true) ⊎ (c ≡ true)
either true c h = inl refl
either false true h = inr refl
either false false h = cc

anonymous-next : (ctx : AuthContext) → next none ≡ next (some ctx) → ⊥
anonymous-next ctx h = cc

unauthorized-next : (ctx : AuthContext) → unauthorized ≡ next (some ctx) → ⊥
unauthorized-next ctx h = cc

guard-admits :
    (req : Request) (caller ctx : AuthContext) (succeeds : Bool)
    → (guard req caller succeeds).0 ≡ next (some ctx)
    → IsAdmitted req caller ctx
unfolding guard
guard-admits req caller ctx succeeds h =
    let granted = allows caller.permissions (route_permission req.method req.path) in
    let kept = switch_tenant-keeps caller req.x_tenant in
    elim (Bool-cases (not (identity_only req.path) && not granted)) [
      | inl e ↦ absurd (forbidden-next _ _ (rw e at h))
      | inr e ↦
          let q : switch_tenant caller req.x_tenant ≡ ctx = next-injective _ ctx (rw e at h) in
          record {
            granted = either _ _ e;
            permissions = rw (sym q) kept.0;
            role_name = rw (sym q) kept.1.0;
            tenant = rw (sym q) kept.1.1;
          }
    ]

-- The audit trail of the layer: a refusal for want of a permission is logged as such, with the
-- permission; a request that goes on is logged when it needs a permission to write and succeeds.
pub guard-audits :
    (req : Request) (caller : AuthContext) (succeeds : Bool)
    → let required = route_permission req.method req.path in
      let granted = identity_only req.path || allows caller.permissions required in
      ((granted ≡ false
          → guard req caller succeeds ≡ (
            forbidden required,
            access_denied caller.principal req.method_name req.path required ∷ [],
          ))
        × (granted ≡ true
            → (identity_only req.path ≡ false)
            → ends_with required (codes ":write") ≡ true
            → (guard req caller true).1
              ≡ admin_action caller.principal req.method_name req.path required ∷ []))
unfolding guard
guard-audits req caller succeeds = (λ h. ground arith, λ h i w. ground arith)

-- A request that reaches its handler for a caller is that of a credential which is accepted now. The
-- path is one of the caller's own identity, or the caller's role grants the permission that the route
-- needs; the handler sees the caller's permissions, and another tenant than the caller's own only where
-- the caller may write the configuration.
pub auth_layer-admits :
    (sha3_256_hex : Text → Text) (m : AuthManager) (req : Request) (now : ℕ) (succeeds : Bool)
    (ctx : AuthContext)
    → (auth_layer sha3_256_hex m req now succeeds).1 ≡ next (some ctx)
    → (c : Text) × (caller : AuthContext) × ((credential req ≡ some c)
        × (((validate m (sha3_256_hex c) now).1 ≡ some caller) × IsAdmitted req caller ctx))
unfolding auth_layer
auth_layer-admits sha3_256_hex m req now succeeds ctx h =
    elim (Bool-cases (not m.enabled || always_open req.path)) [
      | inl o ↦ absurd (anonymous-next ctx (rw o at h))
      | inr o ↦ elim (Option-cases (credential req)) [
        | inl e ↦ absurd (unauthorized-next ctx (rw e at (rw o at h)))
        | inr (c, e) ↦ elim (Option-cases (validate m (sha3_256_hex c) now).1) [
          | inl v ↦ absurd (unauthorized-next ctx (rw v at (rw e at (rw o at h))))
          | inr (caller, v) ↦ (
            c,
            caller,
            (e, (v, guard-admits req caller ctx succeeds (rw v at (rw e at (rw o at h))))),
          )
        ]
      ]
    ]
