-- ===== src/Authz/Resolve.antt =====
-- From a principal to its permissions, and the guard of an API operation
-- (backend/mizan/apps/identity/authz.py). The tables of memberships and grants are lists, the
-- memberships in the order of their creation.
pub mod Guard
use mizan_labs_v.Prelude.{
  ℕ, String, Bool, true, false, ◌&&◌, Option, none, some, List, [], ◌∷◌, ◌++◌, not, str_eq, ◌==◌,
  if◌then◌else◌,
}
use mizan_labs_v.Authz.{GrantBinding, EffectivePermissions, allows, for_platform_operator}

pub record Membership : Type 0 where
  pub id : ℕ
  pub user_id : ℕ
  pub status : String
  pub role_id : ℕ
  pub role_code : String
  pub role_status : String
  pub branch_id : Option ℕ
  pub department_id : Option ℕ
  pub account_id : Option ℕ
  pub project_ids : List ℕ

pub record Grant : Type 0 where
  pub role : ℕ
  pub resource : String
  pub action : String
  pub scope : String
  pub field_groups : List String

-- The query's filter on a membership.
abbrev pub is_active : ℕ → Membership → Bool
is_active user m = m.user_id == user && (str_eq m.status "ACTIVE" && str_eq m.role_status "ACTIVE")

unfoldable pub bind : Membership → Grant → GrantBinding
bind m g = record {
  resource = g.resource;
  action = g.action;
  scope = g.scope;
  field_groups = g.field_groups;
  role_code = m.role_code;
  membership_id = some m.id;
  branch_id = m.branch_id;
  department_id = m.department_id;
  account_id = m.account_id;
  project_ids = m.project_ids;
}

-- The bindings of one membership: the grants of its role, in the order of the table.
unfoldable pub bind_role : Membership → List Grant → List GrantBinding
bind_role m [] = []
bind_role m (g ∷ gs) = if g.role == m.role_id then bind m g ∷ bind_role m gs else bind_role m gs

unfoldable pub bind_all : ℕ → List Membership → List Grant → List GrantBinding
bind_all user [] grants = []
bind_all user (m ∷ ms) grants =
    if is_active user m
    then bind_role m grants ++ bind_all user ms grants
    else bind_all user ms grants

unfoldable pub resolve_permissions :
    List Membership → List Grant → ℕ → Option ℕ → EffectivePermissions
resolve_permissions memberships grants user tenant = record {
  user_id = user;
  tenant_id = tenant;
  bindings = bind_all user memberships grants;
  is_platform_operator = false;
}

-- The caller, with the permissions cached on it.
pub record Principal : Type 0 where
  pub principal_id : ℕ
  pub tenant : Option ℕ
  pub branch : Option ℕ
  pub operator : Bool
  pub cache : Option EffectivePermissions

abbrev pub is_none : Option ℕ → Bool
is_none none = true
is_none (some t) = false

-- The permissions, and the principal with its cache filled.
unfoldable pub permissions_for :
    List Membership → List Grant → Principal → EffectivePermissions × Principal
permissions_for memberships grants p = elim (p.cache) [
  | some cached ↦ (cached, p)
  | none ↦
      let perms =
        if p.operator && is_none p.tenant
        then for_platform_operator p.principal_id
        else resolve_permissions memberships grants p.principal_id p.tenant in
      (perms, record p { cache = some perms })
]

pub record Authorization : Type 0 where
  pub permissions : EffectivePermissions
  pub for_resource : String
  pub for_action : String

pub record Request : Type 0 where
  pub principal : Option Principal
  pub authz : Option Authorization

pub data Denied : Type 0 where
  unauthorized forbidden : Denied

pub data Outcome : Type 0 where
  admitted : Request → Outcome
  denied : Denied → Request → Outcome

module _ (memberships : List Membership) (grants : List Grant) where
  -- The request as `authorize` leaves it: the principal's cache is filled also where it is refused.
  authorize_as : Principal → Request → String → String → Outcome
  authorize_as p request resource action =
      let (perms, p') = permissions_for memberships grants p in
      let cached = record request { principal = some p' } in
      if allows perms resource action p.branch
      then admitted (record cached {
        authz = some (record { permissions = perms; for_resource = resource; for_action = action });
      })
      else denied forbidden cached

  unfoldable pub authorize : Request → String → String → Outcome
  unfolding authorize_as
  authorize request resource action = elim (request.principal) [
    | none ↦ denied unauthorized request
    | some p ↦ authorize_as p request resource action
  ]

  same_resource : Option Authorization → String → Bool
  same_resource none resource = false
  same_resource (some a) resource = str_eq a.for_resource resource

  -- The wrapper of `requires`: whether the view runs, and on which request.
  unfoldable pub requires : Request → String → String → Outcome
  unfolding same_resource
  requires request resource action =
      if same_resource request.authz resource
      then admitted request
      else authorize request resource action
