-- ===== src/Authz/Resolve/Guard.antt =====
-- The bindings of a principal, and a request that passed the guard.
use mizan_labs_v.Prelude.{
  ℕ, String, ◌≡◌, refl, ◌∙◌, ◌||◌, none, inl, inr, Bool-cases, str_eq, if◌then◌else◌, Bool, true,
  false, ◌&&◌, Option, some, List, [], ◌∷◌, arith, ◌==◌, any,
}
use mizan_labs_v.Authz.{GrantBinding, select, bindings_for, grants, allows}
use mizan_labs_v.Authz.Allows.{any-append}
use mizan_labs_v.Authz.Resolve.{
  Membership, Grant, Principal, Request, admitted, denied, forbidden, is_active, bind, bind_role,
  bind_all, resolve_permissions, permissions_for, is_none, authorize,
}

any-bind_role :
    (test : GrantBinding → Bool) (m : Membership) (gs : List Grant)
    → any test (bind_role m gs) ≡ any (λ g. g.role == m.role_id && test (bind m g)) gs
unfolding bind_role
any-bind_role test m [] = refl
any-bind_role test m (g ∷ gs) = ground (arith, any-bind_role test m gs)

-- A binding with a property is there exactly when an active membership of the user in an active
-- role meets a grant of that role whose binding has the property.
any-resolve_permissions :
    (test : GrantBinding → Bool) (ms : List Membership) (gs : List Grant) (user : ℕ)
    (tenant : Option ℕ)
    → any test (resolve_permissions ms gs user tenant).bindings
      ≡ any (λ m. is_active user m && any (λ g. g.role == m.role_id && test (bind m g)) gs) ms
unfolding resolve_permissions bind_all
any-resolve_permissions test [] gs user tenant = refl
any-resolve_permissions test (m ∷ ms) gs user tenant = ground (
  arith,
  any-append test (bind_role m gs) (bind_all user ms gs),
  any-bind_role test m gs,
  any-resolve_permissions test ms gs user tenant,
)

any-select :
    (test : GrantBinding → Bool) (resource action : String) (bs : List GrantBinding)
    → any test (select resource action bs)
      ≡ any (λ b. (str_eq b.resource resource && str_eq b.action action) && test b) bs
unfolding select
any-select test resource action [] = refl
any-select test resource action (b ∷ bs) = ground (arith, any-select test resource action bs)

any-ext {ℓ} :
    {A : Type ℓ} (f g : A → Bool) (xs : List A) → ((x : A) → f x ≡ g x) → any f xs ≡ any g xs
any-ext f g [] same = refl
any-ext f g (x ∷ xs) same = cc (same x, any-ext f g xs same)

-- A grant counts at a branch, or where none is asked for: it is for all branches, or the membership is
-- for the branch or for every one.
abbrev pub covers : Option ℕ → Membership → Grant → Bool
covers none m g = true
covers (some branch) m g = elim m.branch_id [
  | none ↦ true
  | some b ↦ str_eq g.scope "ALL_BRANCHES" || b == branch
]

-- The tables entitle a user: an active membership of theirs, in an active role, has a grant of this
-- role for the action on the resource that counts at the branch.
abbrev pub is_entitled : List Membership → List Grant → ℕ → Option ℕ → String → String → Bool
is_entitled ms gs user branch resource action =
    any
      (λ m.
        m.user_id == user
        && str_eq m.status "ACTIVE"
        && str_eq m.role_status "ACTIVE"
        && any
            (λ g.
              g.role == m.role_id
              && str_eq g.resource resource
              && str_eq g.action action
              && covers branch m g)
            gs)
      ms

entitled_by :
    (branch : Option ℕ) (resource action : String) (m : Membership) (g : Grant)
    → (g.role == m.role_id
        && ((str_eq (bind m g).resource resource && str_eq (bind m g).action action)
            && grants branch (bind m g)))
      ≡ (g.role == m.role_id
          && str_eq g.resource resource
          && str_eq g.action action
          && covers branch m g)
unfolding bind
entitled_by none resource action m g = ground arith
entitled_by (some b) resource action m g = ground arith

allows-resolve_permissions :
    (ms : List Membership) (gs : List Grant) (user : ℕ) (tenant branch : Option ℕ)
    (resource action : String)
    → allows (resolve_permissions ms gs user tenant) resource action branch
      ≡ is_entitled ms gs user branch resource action
unfolding allows bindings_for
allows-resolve_permissions ms gs user tenant branch resource action =
    any-select (grants branch) resource action (resolve_permissions ms gs user tenant).bindings
    ∙ any-resolve_permissions
        (λ b. (str_eq b.resource resource && str_eq b.action action) && grants branch b) ms gs user
        tenant
    ∙ any-ext _ _ ms (λ m.
      (let inner =
          any-ext
            (λ g.
              g.role == m.role_id
              && ((str_eq (bind m g).resource resource && str_eq (bind m g).action action)
                  && grants branch (bind m g)))
            (λ g.
              g.role == m.role_id
              && str_eq g.resource resource
              && str_eq g.action action
              && covers branch m g)
            gs (entitled_by branch resource action m) in
        rw inner (ground arith)))

module _ (ms : List Membership) (gs : List Grant) where
  -- A principal who is no platform operator outside every tenant, and whose permissions are not cached
  -- yet, is admitted to an action on a resource exactly if the tables of memberships and grants entitle them to it in their
  -- branch, and is forbidden it otherwise. Either way the permissions that the tables give are cached on
  -- the principal; the request gets an authorization for this action on this resource with these
  -- permissions where it is admitted, and keeps the one it had where it is not.
  pub authorize_lem :
      (request : Request) (resource action : String) (p : Principal)
      → request.principal ≡ some p
      → p.cache ≡ none
      → (p.operator && is_none p.tenant) ≡ false
      → let perms = resolve_permissions ms gs p.principal_id p.tenant in
        let entitled = is_entitled ms gs p.principal_id p.branch resource action in
        (r : Request) × (authorize ms gs request resource action
          ≡ (if entitled then admitted r else denied forbidden r))
        × (r.principal ≡ some (record p { cache = some perms }))
        × (r.authz ≡ (
            if entitled
            then some (record { permissions = perms; for_resource = resource; for_action = action })
            else request.authz))
  unfolding authorize permissions_for
  authorize_lem request resource action p has empty staff =
      let perms = resolve_permissions ms gs p.principal_id p.tenant in
      let p' : Principal = record p { cache = some perms } in
      let fresh : permissions_for ms gs p ≡ (perms, p') = rw (permissions_for, empty, staff) refl in
      let tables =
        allows-resolve_permissions ms gs p.principal_id p.tenant p.branch resource action in
      elim (Bool-cases (is_entitled ms gs p.principal_id p.branch resource action)) [
        | inl able ↦ rw able (
          record request {
            principal = some p';
            authz =
                some (record { permissions = perms; for_resource = resource; for_action = action });
          },
          rw (authorize, has, fresh, tables, able) refl,
          refl,
          refl,
        )
        | inr unable ↦ rw unable (
          record request { principal = some p' },
          rw (authorize, has, fresh, tables, unable) refl,
          refl,
          refl,
        )
      ]
