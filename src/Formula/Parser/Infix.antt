-- ===== src/Formula/Parser/Infix.antt =====
-- An operator between two operands in parentheses, read at its level.
use mizan_labs_v.Prelude.{
  ℕ, suc, ◌+◌, ◌*◌, ◌≤◌, ◌<◌, String, ◌≡◌, refl, [], ◌∷◌, ◌++◌, append_assoc, length, length-append,
  arith,
}
use mizan_labs_v.Formula.{Numbers, add, sub, mul, div, rem, Node, binary, and_node, or_node}
use mizan_labs_v.Formula.Tokens.{
  plus, minus, star, slash, percent, lparen, rparen, Token, ident, punct, Tokens, got,
}
use mizan_labs_v.Formula.Parser.{
  after_word, after_caret, compare_op, additive_op, term_op, postfix_op, expr, or_expr, or_more,
  and_expr, and_more, additive, additive_more, term, term_more, max_depth,
}
use mizan_labs_v.Formula.Parser.Levels.{
  Closes, IsClosed, Closes-IsClosed, additive_more_stops, term_more_stops, and_more_stops,
  or_more_stops,
}
use mizan_labs_v.Formula.Parser.Rise.{
  Reads, expr-or, expr-and, expr-additive, expr-term, operand-power, operand-term, operand-not,
  operand-and,
}
use mizan_labs_v.Formula.Parser.Printer.{emit, IsPrintable, depth, in_parens}

pub length-tokens : (xs ys : Tokens) → length (xs ++ ys) ≡ length xs + length ys
length-tokens = length-append

pub append_assoc_lem : (ts us rest : Tokens) → (ts ++ us) ++ rest ≡ ts ++ (us ++ rest)
append_assoc_lem ts us rest = simp append_assoc

-- Tokens between parentheses, and what follows them.
abbrev pub parens : Tokens → Tokens → Tokens
parens ts rest = punct lparen ∷ (ts ++ (punct rparen ∷ rest))

pub parens_append : (ts us rest : Tokens) → (in_parens ts ++ us) ++ rest ≡ parens ts (us ++ rest)
parens_append ts us rest = simp append_assoc

pub in_parens_append : (ts rest : Tokens) → in_parens ts ++ rest ≡ parens ts rest
in_parens_append ts rest = simp append_assoc

pub length-parens : (ts us : Tokens) → length (in_parens ts ++ us) ≡ length ts + length us + 2
length-parens ts us =
    omega
      (arith, length-tokens (ts ++ (punct rparen ∷ [])) us, length-tokens ts (punct rparen ∷ []))

pub length-in_parens : (ts : Tokens) → length (in_parens ts) ≡ length ts + 2
length-in_parens ts = omega (arith, length-tokens ts (punct rparen ∷ []))

-- A sign between two operands.
pub length-infix :
    (ts us : Tokens) (t : Token)
    → length (in_parens ts ++ (t ∷ in_parens us)) ≡ length ts + length us + 5
length-infix ts us t = omega (arith, length-parens ts (t ∷ in_parens us), length-in_parens us)

pub infix_append :
    (ts us rest : Tokens) (t : Token)
    → (in_parens ts ++ (t ∷ in_parens us)) ++ rest ≡ parens ts (t ∷ parens us rest)
infix_append ts us rest t = simp append_assoc

abbrev pub suc4 : ℕ → ℕ
suc4 n = suc (suc (suc (suc n)))

module _ (N : Numbers) (read : String → N.Decimal) (show : N.Decimal → String) (d g : ℕ)
    (rest : Tokens) (closes : Closes rest) (small : d < max_depth) where
  closed : IsClosed rest
  closed = Closes-IsClosed closes

  module _ (a b : Node N) (ra : Reads N read show a) (rb : Reads N read show b) (pa : IsPrintable a)
      (pb : IsPrintable b) (da : depth a + suc d ≤ max_depth) (db : depth b + suc d ≤ max_depth)
      (fa : 14 * length (emit N show a) + 12 ≤ g) (fb : 14 * length (emit N show b) + 12 ≤ g) where
    pub mul_lem :
        expr N read
          (suc4 (suc4 (suc4 (suc g))))
          d
          (parens (emit N show a) (punct star ∷ parens (emit N show b) rest))
        ≡ got (binary mul a b, rest)
    unfolding term term_op postfix_op after_caret after_word
    mul_lem =
        expr-term N read (binary mul a b)
          (parens (emit N show a) (punct star ∷ parens (emit N show b) rest)) rest d closed small
          (suc4 (suc g))
          (rw
            (
              term,
              operand-power N read show a ra pa (suc d) (suc g)
                  (punct star ∷ parens (emit N show b) rest) da (omega arith) refl refl,
            )
            (rw
              (
                term_more,
                operand-power N read show b rb pb (suc d) g rest db (omega arith) closed.no_postfix
                    closed.no_caret,
              )
              (term_more_stops N read (suc (suc (suc g))) (suc d) (binary mul a b) rest
                closed.no_term)))
          refl

    pub div_lem :
        expr N read
          (suc4 (suc4 (suc4 (suc g))))
          d
          (parens (emit N show a) (punct slash ∷ parens (emit N show b) rest))
        ≡ got (binary div a b, rest)
    unfolding term term_op postfix_op after_caret after_word
    div_lem =
        expr-term N read (binary div a b)
          (parens (emit N show a) (punct slash ∷ parens (emit N show b) rest)) rest d closed small
          (suc4 (suc g))
          (rw
            (
              term,
              operand-power N read show a ra pa (suc d) (suc g)
                  (punct slash ∷ parens (emit N show b) rest) da (omega arith) refl refl,
            )
            (rw
              (
                term_more,
                operand-power N read show b rb pb (suc d) g rest db (omega arith) closed.no_postfix
                    closed.no_caret,
              )
              (term_more_stops N read (suc (suc (suc g))) (suc d) (binary div a b) rest
                closed.no_term)))
          refl

    pub rem_lem :
        expr N read
          (suc4 (suc4 (suc4 (suc g))))
          d
          (parens (emit N show a) (punct percent ∷ parens (emit N show b) rest))
        ≡ got (binary rem a b, rest)
    unfolding term term_op postfix_op after_caret after_word
    rem_lem =
        expr-term N read (binary rem a b)
          (parens (emit N show a) (punct percent ∷ parens (emit N show b) rest)) rest d closed small
          (suc4 (suc g))
          (rw
            (
              term,
              operand-power N read show a ra pa (suc d) (suc g)
                  (punct percent ∷ parens (emit N show b) rest) da (omega arith) refl refl,
            )
            (rw
              (
                term_more,
                operand-power N read show b rb pb (suc d) g rest db (omega arith) closed.no_postfix
                    closed.no_caret,
              )
              (term_more_stops N read (suc (suc (suc g))) (suc d) (binary rem a b) rest
                closed.no_term)))
          refl

    pub add_lem :
        expr N read
          (suc4 (suc4 (suc4 (suc g))))
          d
          (parens (emit N show a) (punct plus ∷ parens (emit N show b) rest))
        ≡ got (binary add a b, rest)
    unfolding additive additive_op term_op postfix_op after_caret after_word
    add_lem =
        expr-additive N read (binary add a b)
          (parens (emit N show a) (punct plus ∷ parens (emit N show b) rest)) rest d closed small
          (suc4 (suc (suc g)))
          (rw
            (
              additive,
              operand-term N read show a ra pa (suc d) (suc g)
                  (punct plus ∷ parens (emit N show b) rest) da (omega arith) refl refl refl,
            )
            (rw
              (
                additive_more,
                operand-term N read show b rb pb (suc d) g rest db (omega arith) closed.no_postfix
                    closed.no_caret closed.no_term,
              )
              (additive_more_stops N read (suc4 g) (suc d) (binary add a b) rest
                closed.no_additive)))
          refl

    pub sub_lem :
        expr N read
          (suc4 (suc4 (suc4 (suc g))))
          d
          (parens (emit N show a) (punct minus ∷ parens (emit N show b) rest))
        ≡ got (binary sub a b, rest)
    unfolding additive additive_op term_op postfix_op after_caret after_word
    sub_lem =
        expr-additive N read (binary sub a b)
          (parens (emit N show a) (punct minus ∷ parens (emit N show b) rest)) rest d closed small
          (suc4 (suc (suc g)))
          (rw
            (
              additive,
              operand-term N read show a ra pa (suc d) (suc g)
                  (punct minus ∷ parens (emit N show b) rest) da (omega arith) refl refl refl,
            )
            (rw
              (
                additive_more,
                operand-term N read show b rb pb (suc d) g rest db (omega arith) closed.no_postfix
                    closed.no_caret closed.no_term,
              )
              (additive_more_stops N read (suc4 g) (suc d) (binary sub a b) rest
                closed.no_additive)))
          refl

    pub and_lem :
        expr N read
          (suc4 (suc4 (suc4 (suc g))))
          d
          (parens (emit N show a) (ident "and" ∷ parens (emit N show b) rest))
        ≡ got (and_node a b, rest)
    unfolding and_expr additive_op term_op postfix_op after_caret compare_op after_word
    and_lem =
        expr-and N read (and_node a b)
          (parens (emit N show a) (ident "and" ∷ parens (emit N show b) rest)) rest d closed small
          (suc4 (suc4 (suc g)))
          (rw
            (
              and_expr,
              operand-not N read show a ra pa (suc d) (suc g)
                  (ident "and" ∷ parens (emit N show b) rest) da (omega arith) refl refl refl refl
                  refl,
            )
            (rw
              (
                and_more,
                operand-not N read show b rb pb (suc d) g rest db (omega arith) closed.no_postfix
                    closed.no_caret closed.no_term closed.no_additive closed.no_compare,
              )
              (and_more_stops N read (suc4 (suc (suc (suc g)))) (suc d) (and_node a b) rest
                closed.no_and)))

    pub or_lem :
        expr N read
          (suc4 (suc4 (suc4 (suc g))))
          d
          (parens (emit N show a) (ident "or" ∷ parens (emit N show b) rest))
        ≡ got (or_node a b, rest)
    unfolding or_expr additive_op term_op postfix_op after_caret compare_op after_word
    or_lem =
        expr-or N read (or_node a b)
          (parens (emit N show a) (ident "or" ∷ parens (emit N show b) rest)) rest d closed small
          (suc4 (suc4 (suc (suc g))))
          (rw
            (
              or_expr,
              operand-and N read show a ra pa (suc d) (suc g)
                  (ident "or" ∷ parens (emit N show b) rest) da (omega arith) refl refl refl refl
                  refl refl,
            )
            (rw
              (
                or_more,
                operand-and N read show b rb pb (suc d) g rest db (omega arith) closed.no_postfix
                    closed.no_caret closed.no_term closed.no_additive closed.no_compare
                    closed.no_and,
              )
              (or_more_stops N read (suc4 (suc4 g)) (suc d) (or_node a b) rest closed.no_or)))
