-- ===== src/Formula/Parser/Rise.antt =====
-- From the level at which a formula is read up to a whole expression, and a formula in parentheses at
-- each level.
use mizan_labs_v.Prelude.{
  ℕ, suc, ◌+◌, ◌*◌, ◌≤◌, ◌<◌, String, ◌≡◌, refl, ◌∙◌, none, ◌∷◌, ◌++◌, length,
}
use mizan_labs_v.Formula.{Numbers, Node}
use mizan_labs_v.Formula.Tokens.{lparen, rparen, punct, Tokens, got}
use mizan_labs_v.Formula.Parser.{
  after_word, after_caret, after_minus, compare_op, additive_op, term_op, after_rparen,
  expect_punct, postfix_op, expr, or_expr, and_expr, not_expr, comparison, additive, term, power,
  unary_expr, primary, postfix, max_depth,
}
use mizan_labs_v.Formula.Parser.Levels.{
  Closes, at_rparen, IsClosed, postfix_stops, unary-primary, power-unary, term-power, additive-term,
  comparison-additive, not-comparison, and-not, or-and, ternary-or, expr-ternary,
}
use mizan_labs_v.Formula.Parser.Printer.{emit, IsPrintable, depth}

module _ (N : Numbers) (read : String → N.Decimal) (n : Node N) (ts rest : Tokens) (d : ℕ)
    (closed : IsClosed rest) (small : d < max_depth) (f : ℕ) where
  pub expr-or :
      or_expr N read (suc f) (suc d) ts ≡ got (n, rest)
      → expr N read (suc (suc (suc f))) d ts ≡ got (n, rest)
  expr-or h =
      expr-ternary N read n ts rest (suc (suc f)) d
        (ternary-or N read n ts rest f (suc d) h closed.no_question) small

module _ (N : Numbers) (read : String → N.Decimal) (n : Node N) (ts rest : Tokens) (d : ℕ)
    (closed : IsClosed rest) (small : d < max_depth) where
  pub expr-and :
      (f : ℕ)
      → and_expr N read (suc f) (suc d) ts ≡ got (n, rest)
      → expr N read (suc (suc (suc (suc f)))) d ts ≡ got (n, rest)
  expr-and f h =
      expr-or N read n ts rest d closed small (suc f)
        (or-and N read n ts rest f (suc d) h closed.no_or)

  pub expr-not :
      (f : ℕ)
      → not_expr N read (suc f) (suc d) ts ≡ got (n, rest)
      → expr N read (suc (suc (suc (suc (suc f))))) d ts ≡ got (n, rest)
  expr-not f h = expr-and (suc f) (and-not N read n ts rest f (suc d) h closed.no_and)

  pub expr-comparison :
      (f : ℕ)
      → comparison N read f (suc d) ts ≡ got (n, rest)
      → after_word "not" ts ≡ none
      → expr N read (suc (suc (suc (suc (suc f))))) d ts ≡ got (n, rest)
  expr-comparison f h no_not = expr-not f (not-comparison N read n ts rest f (suc d) h no_not)

  pub expr-additive :
      (f : ℕ)
      → additive N read (suc f) (suc d) ts ≡ got (n, rest)
      → after_word "not" ts ≡ none
      → expr N read (suc (suc (suc (suc (suc (suc (suc f))))))) d ts ≡ got (n, rest)
  expr-additive f h no_not =
      expr-comparison (suc (suc f))
        (comparison-additive N read n ts rest f (suc d) h closed.no_compare) no_not

  pub expr-term :
      (f : ℕ)
      → term N read (suc f) (suc d) ts ≡ got (n, rest)
      → after_word "not" ts ≡ none
      → expr N read (suc (suc (suc (suc (suc (suc (suc (suc f)))))))) d ts ≡ got (n, rest)
  expr-term f h no_not =
      expr-additive (suc f) (additive-term N read n ts rest f (suc d) h closed.no_additive) no_not

  pub expr-power :
      (f : ℕ)
      → power N read (suc f) (suc d) ts ≡ got (n, rest)
      → after_word "not" ts ≡ none
      → expr N read (suc (suc (suc (suc (suc (suc (suc (suc (suc f))))))))) d ts ≡ got (n, rest)
  expr-power f h no_not =
      expr-term (suc f) (term-power N read n ts rest f (suc d) h closed.no_term) no_not

  pub expr-unary :
      (f : ℕ)
      → unary_expr N read (suc f) (suc d) ts ≡ got (n, rest)
      → after_word "not" ts ≡ none
      → expr N read (suc (suc (suc (suc (suc (suc (suc (suc (suc (suc f)))))))))) d ts
        ≡ got (n, rest)
  expr-unary f h no_not =
      expr-power (suc f) (power-unary N read n ts rest f (suc d) h closed.no_caret) no_not

  pub expr-primary :
      (f : ℕ)
      → primary N read f (suc d) ts ≡ got (n, rest)
      → after_minus ts ≡ none
      → after_word "not" ts ≡ none
      → expr N read (suc (suc (suc (suc (suc (suc (suc (suc (suc (suc f)))))))))) d ts
        ≡ got (n, rest)
  expr-primary f h no_minus no_not =
      expr-unary f (unary-primary N read n ts rest f (suc d) h no_minus) no_not

-- A printed formula is read off the front of tokens that go on as after a formula.
abbrev pub Reads : (N : Numbers) → (String → N.Decimal) → (N.Decimal → String) → Node N → Type 0
Reads N read show n =
    (d f : ℕ) (rest : Tokens)
    → Closes rest
    → IsPrintable n
    → depth n + d ≤ max_depth
    → 14 * length (emit N show n) + 12 ≤ f
    → expr N read f d (emit N show n ++ rest) ≡ got (n, rest)

module _ (N : Numbers) (read : String → N.Decimal) (show : N.Decimal → String) (n : Node N)
    (reads : Reads N read show n) (printable : IsPrintable n) (d f : ℕ) (rest : Tokens)
    (shallow : depth n + d ≤ max_depth) (fuel : 14 * length (emit N show n) + 12 ≤ suc f) where
  abbrev pub in_front : Tokens
  in_front = punct lparen ∷ (emit N show n ++ (punct rparen ∷ rest))

  pub operand_lem : primary N read (suc (suc f)) d in_front ≡ postfix N read (suc f) d n rest
  unfolding primary expect_punct after_rparen
  operand_lem =
      rw (primary, reads d (suc f) (punct rparen ∷ rest) (at_rparen rest) printable shallow fuel)
        refl

  pub operand-primary :
      postfix_op rest ≡ none → primary N read (suc (suc f)) d in_front ≡ got (n, rest)
  operand-primary stop = operand_lem ∙ postfix_stops N read f d n rest stop

  pub operand-unary :
      postfix_op rest ≡ none → unary_expr N read (suc (suc (suc f))) d in_front ≡ got (n, rest)
  unfolding after_minus
  operand-unary stop =
      unary-primary N read n in_front rest (suc (suc f)) d (operand-primary stop) refl

  pub operand-power :
      postfix_op rest ≡ none
      → after_caret rest ≡ none
      → power N read (suc (suc (suc (suc f)))) d in_front ≡ got (n, rest)
  operand-power stop no_caret =
      power-unary N read n in_front rest (suc (suc f)) d (operand-unary stop) no_caret

  pub operand-term :
      postfix_op rest ≡ none
      → after_caret rest ≡ none
      → term_op rest ≡ none
      → term N read (suc (suc (suc (suc (suc f))))) d in_front ≡ got (n, rest)
  operand-term stop no_caret no_term =
      term-power N read n in_front rest (suc (suc (suc f))) d (operand-power stop no_caret) no_term

  pub operand-additive :
      postfix_op rest ≡ none
      → after_caret rest ≡ none
      → term_op rest ≡ none
      → additive_op rest ≡ none
      → additive N read (suc (suc (suc (suc (suc (suc f)))))) d in_front ≡ got (n, rest)
  operand-additive stop no_caret no_term no_additive =
      additive-term N read n in_front rest (suc (suc (suc (suc f)))) d
        (operand-term stop no_caret no_term) no_additive

  pub operand-not :
      postfix_op rest ≡ none
      → after_caret rest ≡ none
      → term_op rest ≡ none
      → additive_op rest ≡ none
      → compare_op rest ≡ none
      → not_expr N read (suc (suc (suc (suc (suc (suc (suc (suc f)))))))) d in_front ≡ got (n, rest)
  unfolding after_word
  operand-not stop no_caret no_term no_additive no_compare =
      not-comparison N read n in_front rest (suc (suc (suc (suc (suc (suc (suc f))))))) d
        (comparison-additive N read n in_front rest (suc (suc (suc (suc (suc f))))) d
          (operand-additive stop no_caret no_term no_additive) no_compare)
        refl

  pub operand-and :
      postfix_op rest ≡ none
      → after_caret rest ≡ none
      → term_op rest ≡ none
      → additive_op rest ≡ none
      → compare_op rest ≡ none
      → after_word "and" rest ≡ none
      → and_expr N read (suc (suc (suc (suc (suc (suc (suc (suc (suc f))))))))) d in_front
        ≡ got (n, rest)
  operand-and stop no_caret no_term no_additive no_compare no_and =
      and-not N read n in_front rest (suc (suc (suc (suc (suc (suc (suc f))))))) d
        (operand-not stop no_caret no_term no_additive no_compare) no_and

  pub operand-or :
      postfix_op rest ≡ none
      → after_caret rest ≡ none
      → term_op rest ≡ none
      → additive_op rest ≡ none
      → compare_op rest ≡ none
      → after_word "and" rest ≡ none
      → after_word "or" rest ≡ none
      → or_expr N read (suc (suc (suc (suc (suc (suc (suc (suc (suc (suc f)))))))))) d in_front
        ≡ got (n, rest)
  operand-or stop no_caret no_term no_additive no_compare no_and no_or =
      or-and N read n in_front rest (suc (suc (suc (suc (suc (suc (suc (suc f)))))))) d
        (operand-and stop no_caret no_term no_additive no_compare no_and) no_or
