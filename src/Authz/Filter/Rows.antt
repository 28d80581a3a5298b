-- ===== src/Authz/Filter/Rows.antt =====
-- The rows that the filter of `predicate` lets through, and the clauses of the grants.
use mizan_labs_v.Prelude.{
  ℕ, String, ◌≡◌, Bool, true, ◌&&◌, Option, none, some, List, [], ◌∷◌, arith, if◌then◌else◌, any,
  all, not,
}
use mizan_labs_v.Authz.{
  GrantBinding, ScopeFields, EffectivePermissions, Row, holds, Filters, has_field, bindings_for,
  allows,
}
use mizan_labs_v.Authz.Filter.{clause, clauses, combine, narrow, restrict, predicate}

module _ (F : Filters) where
  open F use {
    Q, either, is_empty, matches, matches-either, matches-both, matches-nothing, matches-equals,
    equals, either-is_empty, empty, empty-is_empty,
  }

  -- A row that one of the clauses lets through.
  abbrev pub some_clause : List Q → Row → Bool
  some_clause qs row = any (λ q. matches q row) qs

  -- The branch that the request asks for, where the model has one.
  abbrev pub in_branch : Option (List String) → ScopeFields → Option ℕ → Row → Bool
  in_branch model fields none row = true
  in_branch model fields (some branch) row =
      if has_field model fields.branch then holds (row fields.branch) branch else true

  combine_sound :
      (q : Q) (qs : List Q) (row : Row)
      → matches (combine F q qs) row ≡ true
      → some_clause (q ∷ qs) row ≡ true
  unfolding combine
  combine_sound q [] row h = ground arith
  combine_sound q (r ∷ rs) row h =
      ground (arith, combine_sound (either q r) rs row h, matches-either q r row)

  abbrev pub none_empty : List Q → Bool
  none_empty qs = all (λ q. not (is_empty q)) qs

  combine_exact :
      (q : Q) (qs : List Q) (row : Row)
      → none_empty (q ∷ qs) ≡ true
      → matches (combine F q qs) row ≡ some_clause (q ∷ qs) row
  unfolding combine
  combine_exact q [] row h = ground arith
  combine_exact q (r ∷ rs) row h =
      ground (arith, combine_exact (either q r) rs row, matches-either q r row, either-is_empty q r)

  narrow_lem :
      (q : Q) (model : Option (List String)) (fields : ScopeFields) (branch : Option ℕ) (row : Row)
      → matches (narrow F q model fields branch) row
        ≡ (matches q row && in_branch model fields branch row)
  unfolding narrow
  narrow_lem q model fields none row = ground arith
  narrow_lem q model fields (some b) row =
      ground
        (arith, matches-both q (equals fields.branch b) row, matches-equals fields.branch b row)

  restrict_sound :
      (qs : List Q) (model : Option (List String)) (fields : ScopeFields) (branch : Option ℕ)
      (row : Row)
      → matches (restrict F qs model fields branch) row ≡ true
      → (some_clause qs row ≡ true) × (in_branch model fields branch row ≡ true)
  restrict_sound [] model fields branch row h = cc (matches-nothing row)
  restrict_sound (q ∷ qs) model fields branch row h =
      ground (arith, narrow_lem (combine F q qs) model fields branch row, combine_sound q qs row)

  restrict_exact :
      (qs : List Q) (model : Option (List String)) (fields : ScopeFields) (branch : Option ℕ)
      (row : Row)
      → none_empty qs ≡ true
      → matches (restrict F qs model fields branch) row
        ≡ (some_clause qs row && in_branch model fields branch row)
  restrict_exact [] model fields branch row h = matches-nothing row
  restrict_exact (q ∷ qs) model fields branch row h =
      ground (arith, narrow_lem (combine F q qs) model fields branch row, combine_exact q qs row h)

  module _ (perms : EffectivePermissions) (resource action : String) (model : Option (List String))
      (fields : ScopeFields) (branch : Option ℕ) (row : Row) where
    abbrev pub granted : List Q
    granted = clauses F perms.user_id (bindings_for perms resource action) model fields

    -- No row gets through that no grant gives, nor one of another branch than the one asked for.
    pub predicate_sound :
        matches (predicate F perms resource action model fields branch) row ≡ true
        → (some_clause granted row ≡ true) × (in_branch model fields branch row ≡ true)
    unfolding predicate
    predicate_sound h = restrict_sound granted model fields branch row h

    -- As long as no grant is unrestricted, the filter is exactly the union of the grants, within the
    -- branch that is asked for.
    pub predicate_exact :
        none_empty granted ≡ true
        → matches (predicate F perms resource action model fields branch) row
          ≡ (some_clause granted row && in_branch model fields branch row)
    unfolding predicate
    predicate_exact h = restrict_exact granted model fields branch row h

  clause-all_branches :
      (user : ℕ) (b : GrantBinding) (model : Option (List String)) (fields : ScopeFields)
      → b.scope ≡ "ALL_BRANCHES"
      → clause F user b model fields ≡ some empty
  unfolding clause
  clause-all_branches user b model fields e = rw e

  clause-own_branch :
      (user : ℕ) (b : GrantBinding) (model : Option (List String)) (fields : ScopeFields) (home : ℕ)
      → b.scope ≡ "OWN_BRANCH"
      → b.branch_id ≡ some home
      → has_field model fields.branch ≡ true
      → clause F user b model fields ≡ some (equals fields.branch home)
  unfolding clause
  clause-own_branch user b model fields home e at_ has = rw e (ground arith)

  -- A grant for all branches is lost beside one for a single branch: `Q()` is the neutral element of
  -- `|`, so only the rows of that branch are left, though `allows` says yes at every branch.
  pub all_branches_lost :
      (perms : EffectivePermissions) (resource action : String) (model : Option (List String))
      (fields : ScopeFields) (wide own : GrantBinding) (home branch : ℕ) (row : Row)
      → bindings_for perms resource action ≡ wide ∷ own ∷ []
      → wide.scope ≡ "ALL_BRANCHES"
      → own.scope ≡ "OWN_BRANCH"
      → own.branch_id ≡ some home
      → has_field model fields.branch ≡ true
      → (allows perms resource action (some branch) ≡ true)
        × (matches (predicate F perms resource action model fields none) row
            ≡ holds (row fields.branch) home)
  unfolding predicate allows
  all_branches_lost perms resource action model fields wide own home branch row two all_ one at_
        has =
      let first = clause-all_branches perms.user_id wide model fields all_ in
      let second = clause-own_branch perms.user_id own model fields home one at_ has in
      (
        rw (two, all_),
        rw (two, clauses)
            (ground (
              arith,
              first,
              second,
              matches-either empty (equals fields.branch home) row,
              empty-is_empty,
              matches-equals fields.branch home row,
            )),
      )
