-- ===== src/Numbering/Format.antt =====
-- Validation of a pattern, and the texts of two sequences under it.
use mizan_labs_v.Prelude.{
  ℕ, ◌≡◌, ◌↔◌, refl, sym, ap, inl, inr, true, false, ◌&&◌, not, none, some, List, [], ◌∷◌, ◌++◌,
  arith, Bool-cases, length, length-append,
}
use mizan_labs_v.Numbering.Digits.{Text, zfill_injective}
use mizan_labs_v.Numbering.{
  GapPolicy, Allocation, Token, prefix_token, branch_token, dept_token, yyyy, yy, mm, seq, Segment,
  literal, token, segments, is_seq, seq_count, literals, has_braces, is_gap_free, is_on_issue,
  validate_scheme, Fields, repl, substitute, format_number,
}

-- One sequence, no other text in braces, and numbers without gaps only where they are given on issue.
pub record IsValid (pattern : Text) (gap_policy : GapPolicy) (allocation : Allocation)
    : Type 0 where
  pub one_seq : seq_count (segments pattern) ≡ 1
  pub no_braces : has_braces (literals (segments pattern)) ≡ false
  pub issued : (is_gap_free gap_policy && not (is_on_issue allocation)) ≡ false

-- Validation passes exactly the schemes in order.
validate_scheme-none :
    (pattern : Text) (gap_policy : GapPolicy) (allocation : Allocation)
    → (validate_scheme pattern gap_policy allocation ≡ none) ↔ IsValid pattern gap_policy allocation
unfolding validate_scheme
validate_scheme-none pattern gap_policy allocation = (
  λ h. record { one_seq = ground arith; no_braces = ground arith; issued = ground arith },
  λ v. ground (arith, v.one_seq, v.no_braces, v.issued),
)

cancel_left {ℓ} : {A : Type ℓ} (xs : List A) {ys zs : List A} → xs ++ ys ≡ xs ++ zs → ys ≡ zs
cancel_left [] h = h
cancel_left (x ∷ xs) h = cancel_left xs (cc)

append_longer {ℓ} : {A : Type ℓ} (xs zs : List A) → length (xs ++ zs) ≡ length zs → xs ≡ []
append_longer [] zs h = refl
append_longer (x ∷ xs) zs h = absurd (omega (arith, length-append (x ∷ xs) zs))

cancel_right {ℓ} : {A : Type ℓ} (zs xs ys : List A) → xs ++ zs ≡ ys ++ zs → xs ≡ ys
cancel_right zs [] ys h = sym (append_longer ys zs (sym (ap length h)))
cancel_right zs (x ∷ xs) [] h = append_longer (x ∷ xs) zs (ap length h)
cancel_right zs (x ∷ xs) (y ∷ ys) h =
    let same : x ≡ y = cc in let rest : xs ≡ ys = cancel_right zs xs ys (cc) in cc

repl_same : (f : Fields) (t : Token) (m n : ℕ) → is_seq (token t) ≡ false → repl f m t ≡ repl f n t
unfolding repl
repl_same f prefix_token m n h = refl
repl_same f branch_token m n h = refl
repl_same f dept_token m n h = refl
repl_same f yyyy m n h = refl
repl_same f yy m n h = refl
repl_same f mm m n h = refl
repl_same f (seq w) m n h = cc

-- Without a sequence in the pattern, the text does not depend on it.
substitute_same :
    (f : Fields) (xs : List Segment) (m n : ℕ)
    → seq_count xs ≡ 0
    → substitute f m xs ≡ substitute f n xs
unfolding substitute
substitute_same f [] m n h = refl
substitute_same f (literal c ∷ xs) m n h = ap (λ s. c ∷ s) (substitute_same f xs m n h)
substitute_same f (token t ∷ xs) m n h = elim (Bool-cases (is_seq (token t))) [
  | inl hit ↦ absurd (omega (arith, rw hit at h))
  | inr other ↦ rw (repl_same f t m n other, substitute_same f xs m n (rw other at h))
]

repl_injective :
    (f : Fields) (t : Token) (m n : ℕ) → is_seq (token t) ≡ true → repl f m t ≡ repl f n t → m ≡ n
unfolding repl
repl_injective f (seq none) m n hit h = zfill_injective 1 m n h
repl_injective f (seq (some w)) m n hit h = zfill_injective w m n h
repl_injective f prefix_token m n hit h = cc
repl_injective f branch_token m n hit h = cc
repl_injective f dept_token m n hit h = cc
repl_injective f yyyy m n hit h = cc
repl_injective f yy m n hit h = cc
repl_injective f mm m n hit h = cc

substitute_injective :
    (f : Fields) (xs : List Segment) (m n : ℕ)
    → seq_count xs ≡ 1
    → substitute f m xs ≡ substitute f n xs
    → m ≡ n
unfolding substitute
substitute_injective f [] m n one h = absurd (omega arith)
substitute_injective f (literal c ∷ xs) m n one h = substitute_injective f xs m n one (cc)
substitute_injective f (token t ∷ xs) m n one h = elim (Bool-cases (is_seq (token t))) [
  | inl hit ↦
      let rest = substitute_same f xs n m (omega (arith, rw hit at one)) in
      repl_injective f t m n hit
        (cancel_right (substitute f m xs) (repl f m t) (repl f n t) (rw rest at h))
  | inr other ↦
      substitute_injective f xs m n (rw other at one)
        (cancel_left (repl f n t) (rw (repl_same f t m n other) at h))
]

-- Under one pattern with one sequence token, and with the same fields, numbers of different sequences
-- are different.
pub format_number_injective :
    (pattern : Text) (f : Fields) (m n : ℕ)
    → seq_count (segments pattern) ≡ 1
    → format_number pattern f m ≡ format_number pattern f n
    → m ≡ n
unfolding format_number
format_number_injective pattern f m n one h = substitute_injective f (segments pattern) m n one h
