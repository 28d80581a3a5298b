-- ===== src/Identity/Roles.antt =====
-- Roles: `expand` of backend/mizan/apps/identity/roles.py. It keeps its rows sorted as they come, in
-- place of sorting them in the end.
pub mod Install
pub mod Services
pub mod Defaults
pub mod Rows
pub mod Replace
mod Examples
use Prim.Native.Nat.{Ordering}
use Prim.Native.String.{compare}
use mizan_labs_v.Prelude.{
  ℕ, String, ◌≡◌, Bool, true, false, ◌&&◌, not, Option, none, some, List, [], ◌∷◌, ◌++◌, map,
  str_eq, any, if◌then◌else◌,
}
use mizan_labs_v.Authz.Catalog.{GrantError, Checked, valid, invalid, validate_grant}

pub record GrantSpec : Type 0 where
  pub resources : List String
  pub actions : List String
  pub scope : String
  pub groups : List String

pub record RoleTemplate : Type 0 where
  pub code : String
  pub labels : List (String × String)
  pub grants : List GrantSpec
  pub description : String

-- A row of `expand`, and a Grant of the database without its role.
pub record Row : Type 0 where
  pub resource : String
  pub action : String
  pub scope : String
  pub groups : List String

abbrev pub compare_next : Ordering → Ordering → Ordering
compare_next Ordering.eq next = next
compare_next Ordering.lt next = Ordering.lt
compare_next Ordering.gt next = Ordering.gt

-- The order of the keys, as tuples of texts.
unfoldable pub compare_keys : Row → Row → Ordering
compare_keys r s =
    compare_next (compare r.resource s.resource)
      (compare_next (compare r.action s.action) (compare r.scope s.scope))

-- sorted(set(names)), by insertion
unfoldable pub insert_name : String → List String → List String
insert_name n [] = n ∷ []
insert_name n (m ∷ ms) =
    let rest = insert_name n ms in
    elim (compare n m) [ Ordering.lt ↦ n ∷ m ∷ ms | Ordering.eq ↦ m ∷ ms | Ordering.gt ↦ m ∷ rest ]

unfoldable pub insert_names : List String → List String → List String
unfolding insert_name
insert_names [] ms = ms
insert_names (n ∷ ns) ms = insert_name n (insert_names ns ms)

abbrev pub sorted_set : List String → List String
sorted_set names = insert_names names []

-- sorted(names), which keeps what is twice there
unfoldable pub insert_sorted : String → List String → List String
insert_sorted n [] = n ∷ []
insert_sorted n (m ∷ ms) =
    let rest = insert_sorted n ms in elim (compare n m) [ Ordering.gt ↦ m ∷ rest | _ ↦ n ∷ m ∷ ms ]

unfoldable pub sorted : List String → List String
unfolding insert_sorted
sorted [] = []
sorted (n ∷ ns) = insert_sorted n (sorted ns)

-- rows.setdefault(key, set()).update(groups)
unfoldable pub add_row : Row → List Row → List Row
unfolding compare_keys insert_names
add_row r [] = (record r { groups = sorted_set r.groups }) ∷ []
add_row r (s ∷ rows) =
    let rest = add_row r rows in
    elim (compare_keys r s) [
      | Ordering.lt ↦ (record r { groups = sorted_set r.groups }) ∷ s ∷ rows
      | Ordering.eq ↦ (record s { groups = insert_names r.groups s.groups }) ∷ rows
      | Ordering.gt ↦ s ∷ rest
    ]

-- The loops of `expand` over actions, resources and specs; an invalid grant stops them.
unfoldable pub expand_actions : GrantSpec → String → List String → List Row → Checked (List Row)
unfolding add_row validate_grant
expand_actions spec resource [] rows = valid rows
expand_actions spec resource (action ∷ actions) rows =
    let row : Row = record {
      resource = resource;
      action = action;
      scope = spec.scope;
      groups = spec.groups;
    } in
    elim (validate_grant resource action spec.scope spec.groups) [
      | invalid e ↦ invalid e
      | valid u ↦ expand_actions spec resource actions (add_row row rows)
    ]

unfoldable pub expand_resources : GrantSpec → List String → List Row → Checked (List Row)
unfolding expand_actions
expand_resources spec [] rows = valid rows
expand_resources spec (resource ∷ resources) rows =
    elim (expand_actions spec resource spec.actions rows) [
      | invalid e ↦ invalid e
      | valid rows' ↦ expand_resources spec resources rows'
    ]

unfoldable pub expand_specs : List GrantSpec → List Row → Checked (List Row)
unfolding expand_resources
expand_specs [] rows = valid rows
expand_specs (spec ∷ specs) rows = elim (expand_resources spec spec.resources rows) [
  | invalid e ↦ invalid e
  | valid rows' ↦ expand_specs specs rows'
]

unfoldable pub expand : RoleTemplate → Checked (List Row)
unfolding expand_specs
expand template = expand_specs template.grants []

abbrev pub same_key : Row → Row → Bool
same_key r s = str_eq r.resource s.resource && str_eq r.action s.action && str_eq r.scope s.scope
