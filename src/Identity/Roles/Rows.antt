-- ===== src/Identity/Roles/Rows.antt =====
-- The rows of `expand` (backend/mizan/apps/identity/roles.py) against the template that they come from.
use Prim.Native.Nat.{Ordering}
use Prim.Native.String.{compare}
use text.Mathlib.TextEquality.{path_by_compare}
use mathlib.Core.Path.{subst}
use mizan_labs_v.Prelude.{
  str_eq-sym, String, ◌≡◌, refl, ◌∙◌, Bool, true, false, ◌&&◌, ◌||◌, inl, inr, ◌⊎◌, List, [], ◌∷◌,
  str_eq, any, all, All, if◌then◌else◌, arith,
}
use mizan_labs_v.Authz.Catalog.{
  GrantError, unknown_resource, unknown_action, unknown_scope, unknown_groups, Checked, valid,
  invalid, one_of, groups_in, validate_grant, resources, actions, scopes, field_groups,
}
use mizan_labs_v.Identity.Roles.{
  GrantSpec, RoleTemplate, Row, compare_next, compare_keys, insert_name, insert_names, sorted_set,
  add_row, expand_actions, expand_resources, expand_specs, expand, same_key,
}
use mizan_labs_v.Identity.Roles.Services.{has_key}

pub Checked-cases :
    {A : Type 0} (c : Checked A) → ((a : A) × (c ≡ valid a)) ⊎ ((e : GrantError) × (c ≡ invalid e))
Checked-cases (valid a) = inl (a, refl)
Checked-cases (invalid e) = inr (e, refl)

compare-cases : (o : Ordering) → (o ≡ Ordering.lt) ⊎ ((o ≡ Ordering.eq) ⊎ (o ≡ Ordering.gt))
compare-cases Ordering.lt = inl refl
compare-cases Ordering.eq = inr (inl refl)
compare-cases Ordering.gt = inr (inr refl)

next_eq : (a b : Ordering) → compare_next a b ≡ Ordering.eq → (a ≡ Ordering.eq) × (b ≡ Ordering.eq)
next_eq Ordering.eq b h = (refl, h)
next_eq Ordering.lt b h = cc
next_eq Ordering.gt b h = cc

-- Keys that compare as equal are equal.
pub compare_keys-eq :
    (r s : Row)
    → compare_keys r s ≡ Ordering.eq
    → (r.resource ≡ s.resource) × (r.action ≡ s.action) × (r.scope ≡ s.scope)
unfolding compare_keys
compare_keys-eq r s h =
    let (first, others) = next_eq (compare r.resource s.resource) _ h in
    let (second, third) = next_eq (compare r.action s.action) _ others in
    (path_by_compare _ _ first, path_by_compare _ _ second, path_by_compare _ _ third)

all-insert_name :
    (p : String → Bool) (n : String) (ms : List String)
    → all p (insert_name n ms) ≡ (p n && all p ms)
unfolding insert_name
all-insert_name p n [] = refl
all-insert_name p n (m ∷ ms) = elim (compare-cases (compare n m)) [
  | inl e ↦ rw (insert_name, e) refl
  | inr (inl e) ↦ rw (insert_name, e) (let same = path_by_compare n m e in rw same (ground arith))
  | inr (inr e) ↦ rw (insert_name, e) (let rest = all-insert_name p n ms in ground arith)
]

pub all-insert_names :
    (p : String → Bool) (ns ms : List String) → all p (insert_names ns ms) ≡ (all p ns && all p ms)
unfolding insert_names
all-insert_names p [] ms = refl
all-insert_names p (n ∷ ns) ms =
    all-insert_name p n (insert_names ns ms) ∙ (let rest = all-insert_names p ns ms in ground arith)

-- A grant that the catalogue knows.
abbrev pub IsValid : Row → Type 0
IsValid r = validate_grant r.resource r.action r.scope r.groups ≡ valid tt

guards :
    (a b c d : Bool)
    → (if a
        then (if b
            then (if c
                then (if d then valid tt else invalid unknown_groups)
                else invalid unknown_scope)
            else invalid unknown_action)
        else invalid unknown_resource)
      ≡ valid (tt {0})
    → (a ≡ true) × (b ≡ true) × (c ≡ true) × (d ≡ true)
guards true true true true h = (refl, refl, refl, refl)
guards true true true false h = cc
guards true true false d h = cc
guards true false c d h = cc
guards false b c d h = cc

pub groups-valid :
    (resource action scope : String) (groups : List String)
    → validate_grant resource action scope groups ≡ valid tt
    → all (one_of (groups_in resource field_groups)) groups ≡ true
unfolding validate_grant
groups-valid resource action scope groups h =
    let (first, second, third, fourth) =
      guards (one_of resources resource) (one_of actions action) (one_of scopes scope)
        (all (one_of (groups_in resource field_groups)) groups) h in
    fourth

valid-groups :
    (resource action scope : String) (groups groups' : List String)
    → validate_grant resource action scope groups ≡ valid tt
    → all (one_of (groups_in resource field_groups)) groups' ≡ true
    → validate_grant resource action scope groups' ≡ valid tt
unfolding validate_grant
valid-groups resource action scope groups groups' h known =
    let (first, second, third, fourth) =
      guards (one_of resources resource) (one_of actions action) (one_of scopes scope)
        (all (one_of (groups_in resource field_groups)) groups) h in
    rw (validate_grant, first, second, third, known) refl

pub sorted-IsValid : (r : Row) → IsValid r → IsValid (record r { groups = sorted_set r.groups })
sorted-IsValid r h = valid-groups r.resource r.action r.scope r.groups (sorted_set r.groups) h (
    let known = groups-valid r.resource r.action r.scope r.groups h in
    all-insert_names _ r.groups [] ∙ rw known refl)

All-add_row :
    (r : Row) (rows : List Row) → IsValid r → All IsValid rows → All IsValid (add_row r rows)
unfolding add_row
All-add_row r [] h hs = (sorted-IsValid r h, tt)
All-add_row r (s ∷ rows) h hs = elim (compare-cases (compare_keys r s)) [
  | inl e ↦ rw (add_row, e) (sorted-IsValid r h, hs)
  | inr (inl e) ↦
      (let (resource, action, scope) = compare_keys-eq r s e in
        let mine = groups-valid r.resource r.action r.scope r.groups h in
        let theirs = groups-valid s.resource s.action s.scope s.groups hs.0 in
        rw (add_row, e)
          (
            valid-groups s.resource s.action s.scope s.groups (insert_names r.groups s.groups) hs.0
                (let known = rw resource at mine in
                  all-insert_names _ r.groups s.groups ∙ rw (known, theirs) refl),
            hs.1,
          ))
  | inr (inr e) ↦ rw (add_row, e) (hs.0, All-add_row r rows h hs.1)
]

-- The keys of the rows: a new one is added to those there are.
has_key-add_row :
    (k r : Row) (rows : List Row) → has_key k (add_row r rows) ≡ (same_key k r || has_key k rows)
unfolding add_row
has_key-add_row k r [] = refl
has_key-add_row k r (s ∷ rows) = elim (compare-cases (compare_keys r s)) [
  | inl e ↦ rw (add_row, e) refl
  | inr (inl e) ↦
      (let (resource, action, scope) = compare_keys-eq r s e in
        rw (add_row, e, resource, action, scope) (ground arith))
  | inr (inr e) ↦ (let rest = has_key-add_row k r rows in rw (add_row, e) (ground arith))
]

-- Whether a spec grants the action on the resource within the scope of a key.
abbrev pub grants_it : Row → GrantSpec → Bool
grants_it k spec =
    one_of spec.resources k.resource && one_of spec.actions k.action && str_eq k.scope spec.scope

-- The rows are valid, and their keys are the former and those of the specs gone through.
abbrev Extends : (Row → Bool) → List Row → Checked (List Row) → Type 0
Extends new rows (invalid e) = Unit
Extends new rows (valid rows') =
    All IsValid rows' × ((k : Row) → has_key k rows' ≡ (new k || has_key k rows))

rearrange :
    (r many s one k : Bool)
    → ((r && many && s) || ((r && one && s) || k)) ≡ ((r && (one || many) && s) || k)
rearrange r many s one k = ground arith

regroup :
    (r rs a s k : Bool) → ((rs && a && s) || ((r && a && s) || k)) ≡ (((r || rs) && a && s) || k)
regroup r rs a s k = ground arith

reorder : (g gs k : Bool) → (gs || (g || k)) ≡ ((g || gs) || k)
reorder g gs k = ground arith

or_false : (b : Bool) → (b || false) ≡ b
or_false b = ground arith

Extends-from :
    (new new' : Row → Bool) (rows rows' : List Row) (c : Checked (List Row))
    → Extends new rows' c
    → ((k : Row) → (new k || has_key k rows') ≡ (new' k || has_key k rows))
    → Extends new' rows c
Extends-from new new' rows rows' (invalid e) h same = tt
Extends-from new new' rows rows' (valid found) h same = (h.0, λ k. h.1 k ∙ same k)

expand_actions-Extends :
    (spec : GrantSpec) (resource : String) (acts : List String) (rows : List Row)
    → All IsValid rows
    → Extends
        (λ k. str_eq resource k.resource && one_of acts k.action && str_eq k.scope spec.scope)
        rows
        (expand_actions spec resource acts rows)
unfolding expand_actions
expand_actions-Extends spec resource [] rows h = (h, λ k. ground arith)
expand_actions-Extends spec resource (action ∷ acts) rows h =
    elim (Checked-cases (validate_grant resource action spec.scope spec.groups)) [
      | inr (e, he) ↦ rw (Extends, expand_actions, he) tt
      | inl (u, hv) ↦
          (let r : Row = record {
            resource = resource;
            action = action;
            scope = spec.scope;
            groups = spec.groups;
          } in
            rw (Extends, expand_actions, hv)
              (Extends-from _ _ rows (add_row r rows)
                (expand_actions spec resource acts (add_row r rows))
                (expand_actions-Extends spec resource acts (add_row r rows)
                  (All-add_row r rows hv h))
                λ k.
                  (let added = has_key-add_row k r rows in
                    let resource_sym = str_eq-sym resource k.resource in
                    let action_sym = str_eq-sym action k.action in
                    rw (added, resource_sym, action_sym)
                      (rearrange (str_eq k.resource resource) (one_of acts k.action)
                        (str_eq k.scope spec.scope) (str_eq k.action action) (has_key k rows)))))
    ]

Checked-Extends :
    (new : Row → Bool) (rows : List Row) (c : Checked (List Row)) {rows' : List Row}
    → Extends new rows c
    → c ≡ valid rows'
    → All IsValid rows' × ((k : Row) → has_key k rows' ≡ (new k || has_key k rows))
Checked-Extends new rows c {rows'} h e = subst (λ c. Extends new rows c) e h

expand_resources-Extends :
    (spec : GrantSpec) (names : List String) (rows : List Row)
    → All IsValid rows
    → Extends
        (λ k. one_of names k.resource && one_of spec.actions k.action && str_eq k.scope spec.scope)
        rows
        (expand_resources spec names rows)
unfolding expand_resources
expand_resources-Extends spec [] rows h = (h, λ k. refl)
expand_resources-Extends spec (resource ∷ names) rows h =
    elim (Checked-cases (expand_actions spec resource spec.actions rows)) [
      | inr (e, he) ↦ rw (Extends, expand_resources, he) tt
      | inl (rows', hv) ↦
          (let (all_valid, keys) =
              Checked-Extends _ rows _ (expand_actions-Extends spec resource spec.actions rows h)
                hv in
            rw (Extends, expand_resources, hv)
              (Extends-from _ _ rows rows' (expand_resources spec names rows')
                (expand_resources-Extends spec names rows' all_valid)
                λ k. rw (keys k) (
                  regroup (str_eq resource k.resource) (one_of names k.resource)
                    (one_of spec.actions k.action) (str_eq k.scope spec.scope) (has_key k rows))))
    ]

expand_specs-Extends :
    (specs : List GrantSpec) (rows : List Row)
    → All IsValid rows
    → Extends (λ k. any (grants_it k) specs) rows (expand_specs specs rows)
unfolding expand_specs
expand_specs-Extends [] rows h = (h, λ k. refl)
expand_specs-Extends (spec ∷ specs) rows h =
    elim (Checked-cases (expand_resources spec spec.resources rows)) [
      | inr (e, he) ↦ rw (Extends, expand_specs, he) tt
      | inl (rows', hv) ↦
          (let (all_valid, keys) =
              Checked-Extends _ rows _ (expand_resources-Extends spec spec.resources rows h) hv in
            rw (Extends, expand_specs, hv)
              (Extends-from _ _ rows rows' (expand_specs specs rows')
                (expand_specs-Extends specs rows' all_valid)
                λ k.
                  rw (keys k)
                    (reorder (grants_it k spec) (any (grants_it k) specs) (has_key k rows))))
    ]

-- The rows of a template that expands are all known to the catalogue, and there is one for an action
-- on a resource within a scope exactly if some spec of the template grants it.
pub expand_exact :
    (template : RoleTemplate) {rows : List Row}
    → expand template ≡ valid rows
    → All IsValid rows × ((k : Row) → has_key k rows ≡ any (grants_it k) template.grants)
unfolding expand
expand_exact template h =
    let (all_valid, keys) = Checked-Extends _ [] _ (expand_specs-Extends template.grants [] tt) h in
    (all_valid, λ k. keys k ∙ or_false (any (grants_it k) template.grants))
