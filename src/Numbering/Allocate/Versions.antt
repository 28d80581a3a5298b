-- ===== src/Numbering/Allocate/Versions.antt =====
-- Numbers of different periods under a pattern without a date.
use mizan_labs_v.Prelude.{ℕ, ◌≡◌, refl, sym, ap, ◌∙◌, Bool, true, false, List, [], ◌∷◌, arith, all}
use mizan_labs_v.Numbering.{
  Date, Token, prefix_token, branch_token, dept_token, yyyy, yy, mm, seq, Segment, literal, token,
  segments, repl, substitute, format_number,
}
use mizan_labs_v.Numbering.Allocate.{
  Scheme, Store, fields_of, format, AllocatedNumber, allocated, allocate,
}
use mizan_labs_v.Numbering.Allocate.Laws.{allocate_lem}

-- No token of a year or a month.
abbrev pub is_undated : Segment → Bool
is_undated (token yyyy) = false
is_undated (token yy) = false
is_undated (token mm) = false
is_undated _ = true

repl_undated :
    (scheme : Scheme) (on on' : Date) (n : ℕ) (t : Token)
    → is_undated (token t) ≡ true
    → repl (fields_of scheme on) n t ≡ repl (fields_of scheme on') n t
unfolding repl
repl_undated scheme on on' n prefix_token h = refl
repl_undated scheme on on' n branch_token h = refl
repl_undated scheme on on' n dept_token h = refl
repl_undated scheme on on' n yyyy h = cc
repl_undated scheme on on' n yy h = cc
repl_undated scheme on on' n mm h = cc
repl_undated scheme on on' n (seq w) h = refl

substitute_undated :
    (scheme : Scheme) (on on' : Date) (n : ℕ) (xs : List Segment)
    → all is_undated xs ≡ true
    → substitute (fields_of scheme on) n xs ≡ substitute (fields_of scheme on') n xs
unfolding substitute
substitute_undated scheme on on' n [] h = refl
substitute_undated scheme on on' n (literal c ∷ xs) h =
    ap (λ s. c ∷ s) (substitute_undated scheme on on' n xs h)
substitute_undated scheme on on' n (token t ∷ xs) h =
    let first = repl_undated scheme on on' n t (ground arith) in
    let rest = substitute_undated scheme on on' n xs (ground arith) in rw (first, rest)

-- Where a pattern has no year and no month, two allocations with the same sequence have the same
-- number, though they are in different periods.
periods_repeat :
    (scheme : Scheme) (on on' : Date) (store store' : Store) {a b : AllocatedNumber}
    {scheme₁ scheme₂ : Scheme} {store₁ store₂ : Store}
    → all is_undated (segments scheme.pattern) ≡ true
    → allocate scheme on store ≡ allocated a scheme₁ store₁
    → allocate scheme on' store' ≡ allocated b scheme₂ store₂
    → a.sequence ≡ b.sequence
    → a.number ≡ b.number
unfolding format format_number
periods_repeat scheme on on' store store' undated first second same =
    let (_, text, _, _, _) = allocate_lem scheme on store first in
    let (_, text', _, _, _) = allocate_lem scheme on' store' second in
    text
    ∙ substitute_undated scheme on on' _ (segments scheme.pattern) undated
    ∙ ap (format scheme on') same
    ∙ sym text'
