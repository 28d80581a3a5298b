-- ===== src/Authz/Allows.antt =====
-- `allows` and `branch_ids` compared.
use mizan_labs_v.Prelude.{
  ℕ, String, ◌≡◌, refl, ap, sym, inl, inr, Bool, true, ◌&&◌, ◌||◌, Option, none, some, List, [],
  ◌∷◌, ◌++◌, arith, str_eq, ◌==◌, Option-cases, any,
}
use mizan_labs_v.Authz.{
  GrantBinding, select, merge, for_platform_operator, EffectivePermissions, bindings_for, grants,
  allows, reachable, branch_ids,
}

-- Whether a set of branches, or all of them, has this branch in it.
abbrev pub reaches : Option (List ℕ) → ℕ → Bool
reaches none branch = true
reaches (some branches) branch = any (λ b. b == branch) branches

reaches-reachable :
    (bs : List GrantBinding) (result : List ℕ) (branch : ℕ)
    → reaches (reachable bs result) branch
      ≡ (any (λ b. b == branch) result || any (grants (some branch)) bs)
unfolding reachable
reaches-reachable [] result branch = ground arith
reaches-reachable (b ∷ bs) result branch = elim (Option-cases b.branch_id) [
  | inl all ↦ ground arith
  | inr (x, one) ↦ ground (arith, reaches-reachable bs (x ∷ result) branch)
]

-- A branch is allowed exactly when it is among the reachable ones.
pub allows-branch_ids :
    (perms : EffectivePermissions) (resource action : String) (branch : ℕ)
    → allows perms resource action (some branch) ≡ reaches (branch_ids perms resource action) branch
unfolding allows branch_ids
allows-branch_ids perms resource action branch =
    sym (reaches-reachable (bindings_for perms resource action) [] branch)

-- What a platform operator may do: four actions on tenants, and nothing else, at every branch.
allows-for_platform_operator :
    (user : ℕ) (resource action : String) (branch : Option ℕ)
    → allows (for_platform_operator user) resource action branch ≡ (
        str_eq "tenant" resource
        && (str_eq "view" action
            || (str_eq "create" action || (str_eq "edit" action || str_eq "configure" action))))
unfolding allows bindings_for select for_platform_operator
allows-for_platform_operator user resource action none = ground arith
allows-for_platform_operator user resource action (some b) = ground arith

select-append :
    (resource action : String) (xs ys : List GrantBinding)
    → select resource action (xs ++ ys) ≡ select resource action xs ++ select resource action ys
unfolding select
select-append resource action [] ys = refl
select-append resource action (x ∷ xs) ys = ground (arith, select-append resource action xs ys)

pub any-append :
    (test : GrantBinding → Bool) (xs ys : List GrantBinding)
    → any test (xs ++ ys) ≡ (any test xs || any test ys)
any-append test [] ys = refl
any-append test (x ∷ xs) ys = ground (arith, any-append test xs ys)

any-merge :
    (resource action : String) (branch : Option ℕ) (perms : List EffectivePermissions)
    → any (grants branch) (select resource action (merge perms))
      ≡ any (λ p. any (grants branch) (select resource action p.bindings)) perms
unfolding merge select
any-merge resource action branch [] = refl
any-merge resource action branch (p ∷ ps) =
    rw (select-append, any-append)
      (ap (λ r. any (grants branch) (select resource action p.bindings) || r)
        (any-merge resource action branch ps))

-- Merged permissions allow what one of their parts allows.
allows-merge :
    (perms : List EffectivePermissions) (whole : EffectivePermissions) (resource action : String)
    (branch : Option ℕ)
    → whole.bindings ≡ merge perms
    → allows whole resource action branch ≡ any (λ p. allows p resource action branch) perms
unfolding allows bindings_for
allows-merge perms whole resource action branch e = rw e (any-merge resource action branch perms)
