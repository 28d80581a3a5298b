-- ===== src/Authz/Examples.antt =====
-- Two grants of one user, filters as a small syntax, and the theorems at them.
use mizan_labs_v.Prelude.{
  ℕ, String, ◌≡◌, refl, Bool, true, false, ◌&&◌, ◌||◌, Option, none, some, List, [], ◌∷◌, str_eq,
  if◌then◌else◌, any,
}
use mizan_labs_v.Authz.{
  GrantBinding, default_scope_fields, EffectivePermissions, has_field, select, bindings_for, allows,
  branch_ids, Row, holds, Filters,
}
use mizan_labs_v.Authz.Allows.{reaches, allows-branch_ids}
use mizan_labs_v.Authz.Filter.{clause, clauses, predicate}
use mizan_labs_v.Authz.Filter.Rows.{
  some_clause, in_branch, granted, predicate_sound, predicate_exact, all_branches_lost,
}
use mizan_labs_v.Authz.Resolve.{
  Membership, Grant, Principal, Request, admitted, bind, bind_role, bind_all, resolve_permissions,
  permissions_for, authorize,
}
use mizan_labs_v.Authz.Resolve.Guard.{authorize_lem}

data Filter : Type 0 where
  empty nothing : Filter
  equals : String → ℕ → Filter
  member : String → List ℕ → Filter
  both either : Filter → Filter → Filter

abbrev is_empty : Filter → Bool
is_empty empty = true
is_empty nothing = false
is_empty (equals f v) = false
is_empty (member f vs) = false
is_empty (both q r) = is_empty q && is_empty r
is_empty (either q r) = is_empty q && is_empty r

abbrev matches : Filter → Row → Bool
matches empty r = true
matches nothing r = false
matches (equals f v) r = holds (r f) v
matches (member f vs) r = any (holds (r f)) vs
matches (both p q) r = matches p r && matches q r
matches (either p q) r =
    if is_empty p
    then matches q r
    else if is_empty q
    then matches p r
    else matches p r || matches q r

abbrev syntax : Filters
syntax = record {
  Q = Filter;
  empty = empty;
  nothing = nothing;
  equals = equals;
  member = member;
  both = both;
  either = either;
  is_empty = is_empty;
  matches = matches;
  matches-empty = λ r. refl;
  matches-nothing = λ r. refl;
  matches-equals = λ f v r. refl;
  matches-member = λ f vs r. refl;
  matches-both = λ q r x. refl;
  matches-either = λ q r x. refl;
  empty-is_empty = refl;
  nothing-is_empty = refl;
  equals-is_empty = λ f v. refl;
  member-is_empty = λ f vs. refl;
  both-is_empty = λ q r. refl;
  either-is_empty = λ q r. refl;
}

abbrev grant_of : String → Option ℕ → GrantBinding
grant_of scope branch = record {
  resource = "quote";
  action = "view";
  scope = scope;
  field_groups = [];
  role_code = "R";
  membership_id = some 1;
  branch_id = branch;
  department_id = none;
  account_id = none;
  project_ids = [];
}

abbrev holder : List GrantBinding → EffectivePermissions
holder bs = record { user_id = 7; tenant_id = some 1; bindings = bs; is_platform_operator = false }

-- A row of branch 4, where the user is at home in branch 3.
abbrev foreign_row : Row
foreign_row f = if str_eq f "branch_id" then some 4 else none

abbrev home_row : Row
home_row f = if str_eq f "branch_id" then some 3 else none

abbrev wide_and_own : EffectivePermissions
wide_and_own = holder (grant_of "ALL_BRANCHES" none ∷ grant_of "OWN_BRANCH" (some 3) ∷ [])

abbrev own_only : EffectivePermissions
own_only = holder (grant_of "OWN_BRANCH" (some 3) ∷ [])

two_bindings :
    bindings_for wide_and_own "quote" "view"
    ≡ grant_of "ALL_BRANCHES" none ∷ grant_of "OWN_BRANCH" (some 3) ∷ []
unfolding bindings_for select
two_bindings = refl

all_branches_lost_example :
    (allows wide_and_own "quote" "view" (some 4) ≡ true)
    × (matches
          (predicate syntax wide_and_own "quote" "view" none default_scope_fields none)
          foreign_row
        ≡ false)
all_branches_lost_example =
    all_branches_lost syntax wide_and_own "quote" "view" none default_scope_fields
      (grant_of "ALL_BRANCHES" none) (grant_of "OWN_BRANCH" (some 3)) 3 4 foreign_row two_bindings
      refl refl refl (unfold has_field in refl)

predicate_sound_example :
    (some_clause syntax
        (granted syntax own_only "quote" "view" none default_scope_fields none home_row)
        home_row
      ≡ true)
    × (in_branch syntax none default_scope_fields none home_row ≡ true)
unfolding predicate clause bindings_for select has_field
predicate_sound_example =
    predicate_sound syntax own_only "quote" "view" none default_scope_fields none home_row refl

predicate_exact_example :
    matches (predicate syntax own_only "quote" "view" none default_scope_fields none) home_row ≡ (
      some_clause syntax
        (granted syntax own_only "quote" "view" none default_scope_fields none home_row)
        home_row
      && in_branch syntax none default_scope_fields none home_row)
unfolding clauses clause bindings_for select has_field
predicate_exact_example =
    predicate_exact syntax own_only "quote" "view" none default_scope_fields none home_row refl

allows-branch_ids_example :
    allows own_only "quote" "view" (some 3) ≡ reaches (branch_ids own_only "quote" "view") 3
allows-branch_ids_example = allows-branch_ids own_only "quote" "view" 3

abbrev reception : Membership
reception = record {
  id = 1;
  user_id = 7;
  status = "ACTIVE";
  role_id = 5;
  role_code = "RECEPTION";
  role_status = "ACTIVE";
  branch_id = some 3;
  department_id = none;
  account_id = none;
  project_ids = [];
}

abbrev sees_quotes : Grant
sees_quotes = record {
  role = 5;
  resource = "quote";
  action = "view";
  scope = "OWN_BRANCH";
  field_groups = [];
}

abbrev caller : Principal
caller = record {
  principal_id = 7;
  tenant = some 1;
  branch = some 3;
  operator = false;
  cache = none;
}

abbrev asked : Request
asked = record { principal = some caller; authz = none }

abbrev tables_say : EffectivePermissions
tables_say = resolve_permissions (reception ∷ []) (sees_quotes ∷ []) 7 (some 1)

authorize_lem_example :
    (r : Request) × (authorize (reception ∷ []) (sees_quotes ∷ []) asked "quote" "view"
      ≡ admitted r)
    × (r.principal ≡ some (record caller { cache = some tables_say }))
    × (r.authz
        ≡ some (record { permissions = tables_say; for_resource = "quote"; for_action = "view" }))
authorize_lem_example =
    authorize_lem (reception ∷ []) (sees_quotes ∷ []) asked "quote" "view" caller refl refl refl

authorize_runs :
    (allows (permissions_for (reception ∷ []) (sees_quotes ∷ []) caller).0 "quote" "view" (some 3)
      ≡ true)
    × (allows (permissions_for (reception ∷ []) (sees_quotes ∷ []) caller).0 "quote" "edit" (some 3)
        ≡ false)
unfolding allows permissions_for resolve_permissions bind_all bind_role bind bindings_for select
authorize_runs = (refl, refl)
