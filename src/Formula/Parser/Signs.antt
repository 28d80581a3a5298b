-- ===== src/Formula/Parser/Signs.antt =====
-- What the tests for a sign and the calls that demand one leave of the tokens.
use mizan_labs_v.Prelude.{
  suc, ◌≤◌, ◌<◌, String, ◌≡◌, Option, some, inl, inr, [], ◌∷◌, length, arith, Option-cases,
}
use mizan_labs_v.Formula.Tokens.{number, string, ident, punct, Tokens, Read, Ensures, kept, refused}
use mizan_labs_v.Formula.Parser.{
  after_word, after_question, after_caret, after_minus, after_comma, after_lparen, after_rparen,
  after_rbrack, after_rbrace, after_colon, compare_op, additive_op, term_op, postfix_op,
  expect_punct, expect_ident,
}

-- A sign that is there is one token.
abbrev pub Consumes : (Tokens → Option Tokens) → Type 0
Consumes after = (ts rest : Tokens) → after ts ≡ some rest → length ts ≡ suc (length rest)

pub after_word-Consumes : (w : String) → Consumes (after_word w)
unfolding after_word
after_word-Consumes w ts rest h = ground arith

pub after_question-Consumes : Consumes after_question
unfolding after_question
after_question-Consumes ts rest h = ground arith

pub after_caret-Consumes : Consumes after_caret
unfolding after_caret
after_caret-Consumes ts rest h = ground arith

pub after_minus-Consumes : Consumes after_minus
unfolding after_minus
after_minus-Consumes ts rest h = ground arith

pub after_comma-Consumes : Consumes after_comma
unfolding after_comma
after_comma-Consumes ts rest h = ground arith

pub after_lparen-Consumes : Consumes after_lparen
unfolding after_lparen
after_lparen-Consumes ts rest h = ground arith

pub after_rparen-Consumes : Consumes after_rparen
unfolding after_rparen
after_rparen-Consumes ts rest h = ground arith

pub after_rbrack-Consumes : Consumes after_rbrack
unfolding after_rbrack
after_rbrack-Consumes ts rest h = ground arith

pub after_rbrace-Consumes : Consumes after_rbrace
unfolding after_rbrace
after_rbrace-Consumes ts rest h = ground arith

pub after_colon-Consumes : Consumes after_colon
unfolding after_colon
after_colon-Consumes ts rest h = ground arith

abbrev pub ConsumesOp {ℓ} : {A : Type ℓ} → (Tokens → Option (A × Tokens)) → Type ℓ
ConsumesOp {A = A} after =
    (ts rest : Tokens) (a : A) → after ts ≡ some (a, rest) → length ts ≡ suc (length rest)

pub compare_op-ConsumesOp : ConsumesOp compare_op
unfolding compare_op
compare_op-ConsumesOp ts rest a h = ground arith

pub additive_op-ConsumesOp : ConsumesOp additive_op
unfolding additive_op
additive_op-ConsumesOp ts rest a h = ground arith

pub term_op-ConsumesOp : ConsumesOp term_op
unfolding term_op
term_op-ConsumesOp ts rest a h = ground arith

pub postfix_op-ConsumesOp : ConsumesOp postfix_op
unfolding postfix_op
postfix_op-ConsumesOp ts rest a h = ground arith

abbrev pub Shrinks {ℓ} : {A : Type ℓ} → Tokens → Read (A × Tokens) → Type ℓ
Shrinks ts = Ensures (λ r. length r.1 < length ts)

abbrev pub Keeps {ℓ} : {A : Type ℓ} → Tokens → Read (A × Tokens) → Type ℓ
Keeps ts = Ensures (λ r. length r.1 ≤ length ts)

pub weaken {ℓ} :
    {A : Type ℓ} {P Q : A → Type 0} {r : Read A} → Ensures P r → ((a : A) → P a → Q a) → Ensures Q r
weaken (kept {a} p) k = kept (k a p)
weaken refused k = refused

pub expect_punct-Shrinks :
    (after : Tokens → Option Tokens)
    → Consumes after
    → (ts : Tokens) → Shrinks ts (expect_punct after ts)
unfolding expect_punct
expect_punct-Shrinks after c ts = elim (Option-cases (after ts)) [
  | inl h ↦ rw (expect_punct, h) refused
  | inr (rest, h) ↦ rw (expect_punct, h) (kept (omega (arith, c ts rest h)))
]

pub expect_ident-Shrinks : (ts : Tokens) → Shrinks ts (expect_ident ts)
unfolding expect_ident
expect_ident-Shrinks (ident s ∷ ts) = kept (omega arith)
expect_ident-Shrinks [] = refused
expect_ident-Shrinks (number s ∷ ts) = refused
expect_ident-Shrinks (string s ∷ ts) = refused
expect_ident-Shrinks (punct p ∷ ts) = refused
