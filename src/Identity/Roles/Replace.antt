-- ===== src/Identity/Roles/Replace.antt =====
-- Replacing the grants of a role (`replace_grants` of backend/mizan/apps/identity/services.py).
use mathlib.Core.Path.{subst}
use mizan_labs_v.Prelude.{
  str_eq-sym, ◌≡◌, refl, ◌∙◌, Bool, true, false, ◌&&◌, ◌||◌, inl, inr, ◌⊎◌, List, [], ◌∷◌, ◌++◌,
  str_eq, All, eq_iff, Bool-cases, arith,
}
use mizan_labs_v.Authz.Catalog.{validate_grant}
use mizan_labs_v.Identity.Roles.{Row, sorted_set, same_key}
use mizan_labs_v.Identity.Roles.Install.{Role}
use mizan_labs_v.Identity.Roles.Services.{
  has_key, RoleError, Saved, saved, refused, new_grants, replace_grants,
}
use mizan_labs_v.Identity.Roles.Rows.{IsValid, Checked-cases, sorted-IsValid}

All-snoc :
    (rows : List Row) (r : Row) → All IsValid rows → IsValid r → All IsValid (rows ++ (r ∷ []))
All-snoc [] r h p = (p, tt)
All-snoc (s ∷ rows) r h p = (h.0, All-snoc rows r h.1 p)

has_key-snoc :
    (k : Row) (rows : List Row) (r : Row)
    → has_key k (rows ++ (r ∷ [])) ≡ (has_key k rows || same_key k r)
has_key-snoc k [] r = ground arith
has_key-snoc k (s ∷ rows) r = let rest = has_key-snoc k rows r in ground arith

or_assoc : (a b c : Bool) → ((a || b) || c) ≡ (a || (b || c))
or_assoc a b c = ground arith

Saved-cases :
    {A : Type 0} (s : Saved A) → ((a : A) × (s ≡ saved a)) ⊎ ((e : RoleError) × (s ≡ refused e))
Saved-cases (saved a) = inl (a, refl)
Saved-cases (refused e) = inr (e, refl)

-- No key comes twice.
abbrev pub IsUnique : List Row → Type 0
IsUnique [] = Unit
IsUnique (r ∷ rows) = (has_key r rows ≡ false) × IsUnique rows

same_key-sym : (r s : Row) → same_key r s ≡ same_key s r
same_key-sym r s =
    let resource = str_eq-sym r.resource s.resource in
    let action = str_eq-sym r.action s.action in let scope = str_eq-sym r.scope s.scope in cc

IsUnique-snoc :
    (rows : List Row) (r : Row)
    → IsUnique rows
    → has_key r rows ≡ false
    → IsUnique (rows ++ (r ∷ []))
IsUnique-snoc [] r h fresh = (refl, tt)
IsUnique-snoc (s ∷ rows) r h fresh =
    let snoc = has_key-snoc s rows r in
    let turned = same_key-sym s r in
    let first = h.0 in (ground arith, IsUnique-snoc rows r h.1 (ground arith))

-- The rows made so far, and the keys of what they were made from.
abbrev IsBuilt : (Row → Bool) → List Row → Saved (List Row) → Type 0
IsBuilt new rows (refused e) = Unit
IsBuilt new rows (saved found) =
    All IsValid found × IsUnique found × ((k : Row) → has_key k found ≡ (has_key k rows || new k))

IsBuilt-from :
    (new new' : Row → Bool) (rows rows' : List Row) (r : Saved (List Row))
    → IsBuilt new rows' r
    → ((k : Row) → (has_key k rows' || new k) ≡ (has_key k rows || new' k))
    → IsBuilt new' rows r
IsBuilt-from new new' rows rows' (refused e) h same = tt
IsBuilt-from new new' rows rows' (saved found) h same = (h.0, h.1, λ k. h.2 k ∙ same k)

has_key-same :
    (k r : Row) (rows : List Row)
    → same_key k r ≡ true
    → has_key r rows ≡ true
    → has_key k rows ≡ true
has_key-same k r rows h present =
    let (first, second, third) =
      keys (str_eq k.resource r.resource) (str_eq k.action r.action) (str_eq k.scope r.scope) h in
    let resource = (eq_iff k.resource r.resource).0 first in
    let action = (eq_iff k.action r.action).0 second in
    let scope = (eq_iff k.scope r.scope).0 third in rw (resource, action, scope) present
  where
    keys : (a b c : Bool) → (a && b && c) ≡ true → (a ≡ true) × (b ≡ true) × (c ≡ true)
    keys a b c h = ground arith

new_grants-IsBuilt :
    (specs rows : List Row)
    → All IsValid rows
    → IsUnique rows
    → IsBuilt (λ k. has_key k specs) rows (new_grants specs rows)
unfolding new_grants
new_grants-IsBuilt [] rows h u = (h, u, λ k. ground arith)
new_grants-IsBuilt (spec ∷ specs) rows h u =
    elim (Checked-cases (validate_grant spec.resource spec.action spec.scope spec.groups)) [
      | inr (e, he) ↦ rw (IsBuilt, new_grants, he) tt
      | inl (x, hv) ↦ elim (Bool-cases (has_key spec rows)) [
        | inl seen ↦
            rw (IsBuilt, new_grants, hv, seen)
              (IsBuilt-from _ _ rows rows (new_grants specs rows)
                (new_grants-IsBuilt specs rows h u)
                λ k. elim (Bool-cases (same_key k spec)) [
                  | inl same ↦
                      (let there = has_key-same k spec rows same seen in rw (same, there) refl)
                  | inr other ↦ rw other refl
                ])
        | inr fresh ↦
            (let r : Row = record spec { groups = sorted_set spec.groups } in
              rw (IsBuilt, new_grants, hv, fresh)
                (IsBuilt-from _ _ rows (rows ++ (r ∷ [])) (new_grants specs (rows ++ (r ∷ [])))
                  (new_grants-IsBuilt specs (rows ++ (r ∷ []))
                    (All-snoc rows r h (sorted-IsValid spec hv)) (IsUnique-snoc rows r u fresh))
                  λ k.
                    rw (has_key-snoc k rows r)
                      (or_assoc (has_key k rows) (same_key k spec) (has_key k specs))))
      ]
    ]

-- The grants of a role after they were replaced: the catalogue knows them all, no key comes twice,
-- and the keys are those that were asked for.
pub replace_grants-saved :
    (role : Role) (specs : List Row) {role' : Role}
    → replace_grants role specs ≡ saved role'
    → All IsValid role'.grants
      × IsUnique role'.grants
      × ((k : Row) → has_key k role'.grants ≡ has_key k specs)
      × (role' ≡ record role { grants = role'.grants })
unfolding replace_grants
replace_grants-saved role specs {role'} h = elim (Saved-cases (new_grants specs [])) [
  | inr (e, he) ↦ (let x = rw (replace_grants, he) at h in cc)
  | inl (rows, hr) ↦
      (let x : saved (record role { grants = rows }) ≡ saved role' = rw (replace_grants, hr) at h in
        let same : record role { grants = rows } ≡ role' = cc in
        let (all_valid, unique, keys) =
          subst (λ c. IsBuilt (λ k. has_key k specs) [] c) hr (new_grants-IsBuilt specs [] tt tt) in
        subst
          (λ r.
            All IsValid r.grants
            × IsUnique r.grants
            × ((k : Row) → has_key k r.grants ≡ has_key k specs)
            × (r ≡ record role { grants = r.grants }))
          same (all_valid, unique, keys, refl))
]
