-- ===== src/Authz.antt =====
-- Effective permissions (backend/mizan/platform/authz/permissions.py): grants bound to memberships,
-- the test `allows`, the reachable branches, and the row filter that repository queries use.
-- Identifiers are numbers. Django's `Q` objects are a parameter, `Filters`, with the laws of its
-- documentation; a model is the list of its field names.
pub mod Allows
pub mod Filter
pub mod Resolve
pub mod Catalog
mod Examples
use mizan_labs_v.Prelude.{
  ℕ, String, ◌≡◌, Bool, true, false, ◌&&◌, ◌||◌, Option, none, some, List, [], ◌∷◌, ◌++◌, str_eq,
  ◌==◌, if◌then◌else◌, any,
}

pub record GrantBinding : Type 0 where
  pub resource : String
  pub action : String
  pub scope : String
  pub field_groups : List String
  pub role_code : String
  pub membership_id : Option ℕ
  pub branch_id : Option ℕ
  pub department_id : Option ℕ
  pub account_id : Option ℕ
  pub project_ids : List ℕ

pub record ScopeFields : Type 0 where
  pub branch : String
  pub department : String
  pub assignee : String
  pub owner : String
  pub account : String
  pub project : String

abbrev pub default_scope_fields : ScopeFields
default_scope_fields = record {
  branch = "branch_id";
  department = "department_id";
  assignee = "assigned_user_id";
  owner = "created_by";
  account = "account_id";
  project = "project_id";
}

-- No model means that every field is taken to be there.
unfoldable pub has_field : Option (List String) → String → Bool
has_field none name = true
has_field (some names) name = any (λ f. str_eq f name) names

pub record EffectivePermissions : Type 0 where
  pub user_id : ℕ
  pub tenant_id : Option ℕ
  pub bindings : List GrantBinding
  pub is_platform_operator : Bool

-- [b for b in self.bindings if b.resource == resource and b.action == action]
unfoldable pub select : String → String → List GrantBinding → List GrantBinding
select resource action [] = []
select resource action (b ∷ bs) =
    if str_eq b.resource resource && str_eq b.action action
    then b ∷ select resource action bs
    else select resource action bs

unfoldable pub bindings_for : EffectivePermissions → String → String → List GrantBinding
bindings_for perms resource action = select resource action perms.bindings

-- binding.branch_id in (None, branch_id)
abbrev pub open_at : Option ℕ → ℕ → Bool
open_at none branch = true
open_at (some b) branch = b == branch

abbrev pub grants : Option ℕ → GrantBinding → Bool
grants none binding = true
grants (some branch) binding =
    str_eq binding.scope "ALL_BRANCHES" || open_at binding.branch_id branch

unfoldable pub allows : EffectivePermissions → String → String → Option ℕ → Bool
allows perms resource action branch_id = any (grants branch_id) (bindings_for perms resource action)

unfoldable pub field_groups_of : List GrantBinding → List String
field_groups_of [] = []
field_groups_of (b ∷ bs) = b.field_groups ++ field_groups_of bs

-- The loop of `branch_ids`: `none` is Python's `None`, all branches.
unfoldable pub reachable : List GrantBinding → List ℕ → Option (List ℕ)
reachable [] result = some result
reachable (b ∷ bs) result = elim (b.branch_id) [
  | none ↦ none
  | some branch ↦
      let rest = reachable bs (branch ∷ result) in
      if str_eq b.scope "ALL_BRANCHES" then none else rest
]

unfoldable pub branch_ids : EffectivePermissions → String → String → Option (List ℕ)
unfolding reachable
branch_ids perms resource action = reachable (bindings_for perms resource action) []

-- merge(perms)
unfoldable pub merge : List EffectivePermissions → List GrantBinding
merge [] = []
merge (p ∷ ps) = p.bindings ++ merge ps

abbrev operator_binding : String → GrantBinding
operator_binding action = record {
  resource = "tenant";
  action = action;
  scope = "ALL_BRANCHES";
  field_groups = [];
  role_code = "PLATFORM";
  membership_id = none;
  branch_id = none;
  department_id = none;
  account_id = none;
  project_ids = [];
}

unfoldable pub for_platform_operator : ℕ → EffectivePermissions
for_platform_operator user = record {
  user_id = user;
  tenant_id = none;
  bindings =
      operator_binding "view"
      ∷ operator_binding "create"
      ∷ operator_binding "edit"
      ∷ operator_binding "configure"
      ∷ [];
  is_platform_operator = true;
}

-- Django's `Q`. A row gives a field a number, or NULL.
abbrev pub Row : Type 0
Row = String → Option ℕ

abbrev pub holds : Option ℕ → ℕ → Bool
holds none v = false
holds (some w) v = w == v

pub record Filters : Type 1 where
  pub Q : Type 0
  pub empty : Q  -- Q()
  pub nothing : Q  -- Q(pk__in=[])
  pub equals : String → ℕ → Q  -- Q(**{field: value})
  pub member : String → List ℕ → Q  -- Q(**{f"{field}__in": values})
  pub both : Q → Q → Q  -- q & r
  pub either : Q → Q → Q  -- q | r
  pub is_empty : Q → Bool
  pub matches : Q → Row → Bool
  -- An empty `Q` filters nothing, and `&` and `|` with it give the other operand.
  pub matches-empty : (r : Row) → matches empty r ≡ true
  pub matches-nothing : (r : Row) → matches nothing r ≡ false
  pub matches-equals : (f : String) (v : ℕ) (r : Row) → matches (equals f v) r ≡ holds (r f) v
  pub matches-member :
      (f : String) (vs : List ℕ) (r : Row) → matches (member f vs) r ≡ any (holds (r f)) vs
  pub matches-both : (q r : Q) (x : Row) → matches (both q r) x ≡ (matches q x && matches r x)
  pub matches-either :
      (q r : Q) (x : Row)
      → matches (either q r) x ≡ (
          if is_empty q
          then matches r x
          else if is_empty r
          then matches q x
          else matches q x || matches r x)
  pub empty-is_empty : is_empty empty ≡ true
  pub nothing-is_empty : is_empty nothing ≡ false
  pub equals-is_empty : (f : String) (v : ℕ) → is_empty (equals f v) ≡ false
  pub member-is_empty : (f : String) (vs : List ℕ) → is_empty (member f vs) ≡ false
  pub both-is_empty : (q r : Q) → is_empty (both q r) ≡ (is_empty q && is_empty r)
  pub either-is_empty : (q r : Q) → is_empty (either q r) ≡ (is_empty q && is_empty r)
