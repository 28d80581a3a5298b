-- ===== src/Formula/Lexer/Laws.antt =====
-- The fuel and the limit of `tokenize` (backend/mizan/platform/formula/lexer.py).
use Prim.Native.Char.{Char, code}
use mizan_labs_v.Prelude.{
  ℕ, zero, suc, ◌+◌, ◌≤◌, String, Bool, ◌||◌, Option, none, some, inl, inr, ltb, ◌==◌, length,
  Bool-cases, Option-cases, arith, ltb_false→le,
}
use mizan_labs_v.Text.{is_space, span, size, size-span}
use mizan_labs_v.Formula.Tokens.{Token}
use mizan_labs_v.Formula.Lexer.{
  max_tokens, white, token, Lexed, lexed, lost, sign, double_sign, match_sign, scan_string,
  is_letter, is_ident_part, fraction, exponent_digits, exponent, match_token, decoded, with_token,
  tokenize_from, tokenize,
}

-- What is left of a text is no longer than a bound, if there is a match.
abbrev Leaves {ℓ} : {A : Type ℓ} → ℕ → Option (A × String) → Type 0
Leaves n none = Unit
Leaves n (some (a, rest)) = size rest ≤ n

scan_string-Leaves : (quote : ℕ) (s : String) → Leaves (size s) (scan_string quote s)
unfolding scan_string size
scan_string-Leaves quote String.[] = tt
scan_string-Leaves quote (String.◌∷◌ c String.[]) = ground arith
scan_string-Leaves quote (String.◌∷◌ c (String.◌∷◌ d s)) =
    let next = scan_string-Leaves quote (String.◌∷◌ d s) in
    let after_escape = scan_string-Leaves quote s in ground arith

match_sign-Leaves : (c : Char) (s : String) → Leaves (size s) (match_sign c s)
unfolding size
match_sign-Leaves c String.[] = elim (Option-cases (sign (code c))) [
  | inl h ↦ rw (Leaves, match_sign, h) tt
  | inr (p, h) ↦ rw (Leaves, match_sign, h) (omega arith)
]
match_sign-Leaves c (String.◌∷◌ d s) = elim (Option-cases (double_sign (code c) (code d))) [
  | inr (p, h) ↦ rw (Leaves, match_sign, h) (omega arith)
  | inl h ↦ elim (Option-cases (sign (code c))) [
    | inl h' ↦ rw (Leaves, match_sign, h, h') tt
    | inr (p, h') ↦ rw (Leaves, match_sign, h, h') (omega arith)
  ]
]

-- The loop came to an end, within the limit if there is a list of tokens.
abbrev pub IsLexed : ℕ → Lexed → Type 0
IsLexed count (lexed ts) = count + length ts ≤ max_tokens
IsLexed count lost = ⊥
IsLexed count _ = Unit

with_token-IsLexed :
    (is_decimal : ℕ → Bool) (unescape : String → Option String) (count : ℕ) (t : Token) (r : Lexed)
    → IsLexed (suc count) r
    → IsLexed count (with_token is_decimal unescape t r)
with_token-IsLexed p u count t (lexed ts) h = omega arith
with_token-IsLexed p u count t lost h = h
with_token-IsLexed p u count t _ h = tt

module _ (is_decimal : ℕ → Bool) (unescape : String → Option String) where
  size-fraction : (s : String) → size (fraction is_decimal unescape s).1 ≤ size s
  unfolding fraction size
  size-fraction String.[] = omega arith
  size-fraction (String.◌∷◌ c s) = let shorter = size-span is_decimal s in ground arith

  exponent_digits-Leaves : (s : String) → Leaves (size s) (exponent_digits is_decimal unescape s)
  unfolding exponent_digits size
  exponent_digits-Leaves String.[] = tt
  exponent_digits-Leaves (String.◌∷◌ c s) =
      let signed = size-span is_decimal s in
      let bare = size-span is_decimal (String.◌∷◌ c s) in ground arith

  size-exponent : (s : String) → size (exponent is_decimal unescape s).1 ≤ size s
  unfolding exponent size
  size-exponent String.[] = omega arith
  size-exponent (String.◌∷◌ c s) = let shorter = exponent_digits-Leaves s in ground arith

  match_token-Leaves :
      (c : Char) (s : String) → Leaves (size s) (match_token is_decimal unescape c s)
  unfolding match_token
  match_token-Leaves c s = elim (Bool-cases (is_space (code c))) [
    | inl h ↦ rw h (size-span is_space s)
    | inr h ↦ elim (Bool-cases (is_decimal (code c))) [
      | inl h₁ ↦
          rw (h, h₁)
            (omega (
              arith,
              size-span is_decimal s,
              size-fraction (span is_decimal s).1,
              size-exponent (fraction is_decimal unescape (span is_decimal s).1).1,
            ))
      | inr h₁ ↦ elim (Bool-cases (code c == b'\'' || code c == b'"')) [
        | inl h₂ ↦
            rw (h, h₁, h₂)
              (elim (Option-cases (scan_string (code c) s)) [
                | inl none_of ↦ rw none_of tt
                | inr (found, some_of) ↦
                    (let left = scan_string-Leaves (code c) s in rw some_of (rw some_of at left))
              ])
        | inr h₂ ↦ elim (Bool-cases (is_letter (code c))) [
          | inl h₃ ↦ rw (h, h₁, h₂, h₃) (size-span is_ident_part s)
          | inr h₃ ↦ rw (h, h₁, h₂, h₃) (match_sign-Leaves c s)
        ]
      ]
    ]
  ]

  -- A step of the loop, by its match.
  step-IsLexed :
      (f count : ℕ) (c : Char) (s : String)
      → ((count : ℕ) (rest : String)
          → size rest ≤ f
          → count ≤ max_tokens
          → IsLexed count (tokenize_from is_decimal unescape f count rest))
      → size s ≤ f
      → count ≤ max_tokens
      → IsLexed count (tokenize_from is_decimal unescape (suc f) count (String.◌∷◌ c s))
  unfolding tokenize_from
  step-IsLexed f count c s next h few =
      let left = match_token-Leaves c s in
      elim (Option-cases (match_token is_decimal unescape c s)) [
        | inl e ↦ rw (tokenize_from, e) tt
        | inr ((white, rest), e) ↦
            rw (tokenize_from, e) (next count rest (omega (arith, rw e at left)) few)
        | inr ((token t, rest), e) ↦ elim (Option-cases (decoded is_decimal unescape t)) [
          | inl e' ↦ rw (tokenize_from, e, e') tt
          | inr (t', e') ↦ elim (Bool-cases (ltb max_tokens (suc count))) [
            | inl many ↦ rw (tokenize_from, e, e', many) tt
            | inr few' ↦
                rw (tokenize_from, e, e', few')
                  (with_token-IsLexed is_decimal unescape count t'
                    (tokenize_from is_decimal unescape f (suc count) rest)
                    (next (suc count) rest (omega (arith, rw e at left))
                      (ltb_false→le max_tokens (suc count) few')))
          ]
        ]
      ]

  tokenize_from-IsLexed :
      (f count : ℕ) (s : String)
      → size s ≤ f
      → count ≤ max_tokens
      → IsLexed count (tokenize_from is_decimal unescape f count s)
  unfolding tokenize_from size
  tokenize_from-IsLexed f count String.[] h few = omega arith
  tokenize_from-IsLexed zero count (String.◌∷◌ c s) h few = absurd (omega arith)
  tokenize_from-IsLexed (suc f) count (String.◌∷◌ c s) h few =
      step-IsLexed f count c s (λ n rest. tokenize_from-IsLexed f n rest) (omega arith) few

  pub tokenize-IsLexed : (text : String) → IsLexed 0 (tokenize is_decimal unescape text)
  unfolding tokenize
  tokenize-IsLexed text = tokenize_from-IsLexed (size text) 0 text (omega arith) (omega arith)
