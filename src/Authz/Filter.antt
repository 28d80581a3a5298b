-- ===== src/Authz/Filter.antt =====
-- The row filter of `EffectivePermissions.predicate` and `_clause`, over Django's `Q`.
pub mod Rows
use mizan_labs_v.Prelude.{
  ℕ, String, Bool, true, false, ◌&&◌, Option, none, some, List, [], ◌∷◌, str_eq, if◌then◌else◌,
}
use mizan_labs_v.Authz.{
  GrantBinding, ScopeFields, EffectivePermissions, Filters, has_field, bindings_for,
}

module _ (F : Filters) where
  open F use {Q, empty, nothing, equals, member, both, either}

  -- q if the value and the field are there, else Q()
  unfoldable pub branch_clause : GrantBinding → Option (List String) → ScopeFields → Q
  branch_clause binding model fields = elim (binding.branch_id) [
    | none ↦ empty
    | some branch ↦ if has_field model fields.branch then equals fields.branch branch else empty
  ]

  department_clause : GrantBinding → Option (List String) → ScopeFields → Q
  department_clause binding model fields = elim (binding.department_id) [
    | none ↦ branch_clause binding model fields
    | some department ↦
        if has_field model fields.department
        then both (branch_clause binding model fields) (equals fields.department department)
        else branch_clause binding model fields
  ]

  owner_clause : ℕ → GrantBinding → Option (List String) → ScopeFields → Option Q
  owner_clause user binding model fields =
      if has_field model fields.owner
      then some (both (branch_clause binding model fields) (equals fields.owner user))
      else none

  assignee_clause : ℕ → GrantBinding → Option (List String) → ScopeFields → Option Q
  assignee_clause user binding model fields =
      if has_field model fields.assignee
      then some (both (branch_clause binding model fields) (equals fields.assignee user))
      else owner_clause user binding model fields

  abbrev has_projects : List ℕ → Bool
  has_projects [] = false
  has_projects (p ∷ ps) = true

  account_clause : GrantBinding → Option (List String) → ScopeFields → Option Q
  account_clause binding model fields = elim (binding.account_id) [
    | none ↦ none
    | some account ↦
        if has_field model fields.account
        then some (
            if has_projects binding.project_ids && has_field model fields.project
            then both (equals fields.account account) (member fields.project binding.project_ids)
            else equals fields.account account)
        else none
  ]

  -- `_clause`; `none` is Python's `None`, a scope that gives no rows of this model.
  unfoldable pub clause : ℕ → GrantBinding → Option (List String) → ScopeFields → Option Q
  unfolding department_clause owner_clause assignee_clause account_clause branch_clause
  clause user binding model fields =
      if str_eq binding.scope "ALL_BRANCHES"
      then some empty
      else if str_eq binding.scope "OWN_BRANCH"
      then some (branch_clause binding model fields)
      else if str_eq binding.scope "OWN_DEPARTMENT"
      then some (department_clause binding model fields)
      else if str_eq binding.scope "ASSIGNED_TO_ME"
      then assignee_clause user binding model fields
      else if str_eq binding.scope "OWN_RECORDS"
      then owner_clause user binding model fields
      else if str_eq binding.scope "OWN_ACCOUNT"
      then account_clause binding model fields
      else none

  -- The clauses that are not `None`, in order.
  unfoldable pub clauses : ℕ → List GrantBinding → Option (List String) → ScopeFields → List Q
  clauses user [] model fields = []
  clauses user (b ∷ bs) model fields =
      let rest = clauses user bs model fields in
      elim (clause user b model fields) [ none ↦ rest | some q ↦ q ∷ rest ]

  -- combined = clauses[0]; for clause in clauses[1:]: combined |= clause
  unfoldable pub combine : Q → List Q → Q
  combine q [] = q
  combine q (r ∷ rs) = combine (either q r) rs

  unfoldable pub narrow : Q → Option (List String) → ScopeFields → Option ℕ → Q
  narrow q model fields none = q
  narrow q model fields (some branch) =
      if has_field model fields.branch then both q (equals fields.branch branch) else q

  abbrev pub restrict : List Q → Option (List String) → ScopeFields → Option ℕ → Q
  restrict [] model fields branch = nothing
  restrict (q ∷ qs) model fields branch = narrow (combine q qs) model fields branch

  unfoldable pub predicate :
      EffectivePermissions → String → String → Option (List String) → ScopeFields → Option ℕ → Q
  unfolding clauses combine narrow
  predicate perms resource action model fields branch =
      restrict (clauses perms.user_id (bindings_for perms resource action) model fields) model
        fields branch
