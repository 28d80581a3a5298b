-- ===== src/Formula/Parser/Levels.antt =====
-- What each level of the parser makes of tokens that a lower level reads, when no operator of its own
-- follows them.
use mizan_labs_v.Prelude.{ℕ, suc, ◌<◌, String, ◌≡◌, refl, none, [], ◌∷◌, lt→ltb}
use mizan_labs_v.Formula.{Numbers, Node, end}
use mizan_labs_v.Formula.Tokens.{rparen, rbrack, rbrace, comma, colon, punct, Tokens, got}
use mizan_labs_v.Formula.Parser.{
  after_word, after_question, after_caret, after_minus, after_lparen, compare_op, additive_op,
  term_op, postfix_op, expr, ternary_expr, or_expr, and_expr, not_expr, comparison, additive, term,
  power, unary_expr, primary, max_depth, power_more, term_more, additive_more, comparison_more,
  postfix, and_more, or_more, ternary_more,
}

-- The end of the formula, and the signs that end a formula within another.
pub data Closes : Tokens → Type 0 where
  at_end : Closes []
  at_rparen : (ts : Tokens) → Closes (punct rparen ∷ ts)
  at_rbrack : (ts : Tokens) → Closes (punct rbrack ∷ ts)
  at_rbrace : (ts : Tokens) → Closes (punct rbrace ∷ ts)
  at_comma : (ts : Tokens) → Closes (punct comma ∷ ts)
  at_colon : (ts : Tokens) → Closes (punct colon ∷ ts)

-- No sign that a level looks for.
pub record IsClosed (ts : Tokens) : Type 0 where
  pub no_question : after_question ts ≡ none
  pub no_or : after_word "or" ts ≡ none
  pub no_and : after_word "and" ts ≡ none
  pub no_compare : compare_op ts ≡ none
  pub no_additive : additive_op ts ≡ none
  pub no_term : term_op ts ≡ none
  pub no_caret : after_caret ts ≡ none
  pub no_postfix : postfix_op ts ≡ none
  pub no_lparen : after_lparen ts ≡ none

pub Closes-IsClosed : {ts : Tokens} → Closes ts → IsClosed ts
unfolding after_question after_word compare_op additive_op term_op after_caret postfix_op
    after_lparen
Closes-IsClosed at_end = record {
  no_question = refl;
  no_or = refl;
  no_and = refl;
  no_compare = refl;
  no_additive = refl;
  no_term = refl;
  no_caret = refl;
  no_postfix = refl;
  no_lparen = refl;
}
Closes-IsClosed _ = record {
  no_question = refl;
  no_or = refl;
  no_and = refl;
  no_compare = refl;
  no_additive = refl;
  no_term = refl;
  no_caret = refl;
  no_postfix = refl;
  no_lparen = refl;
}

module _ (N : Numbers) (read : String → N.Decimal) (f d : ℕ) where
  pub postfix_stops :
      (n : Node N) (rest : Tokens)
      → postfix_op rest ≡ none
      → postfix N read (suc f) d n rest ≡ got (n, rest)
  unfolding postfix
  postfix_stops n rest stop = rw (postfix, stop) refl

  pub power_more_stops :
      (n : Node N) (rest : Tokens)
      → after_caret rest ≡ none
      → power_more N read (suc f) d n rest ≡ got (n, rest)
  unfolding power_more
  power_more_stops n rest stop = rw (power_more, stop) refl

  pub term_more_stops :
      (n : Node N) (rest : Tokens)
      → term_op rest ≡ none
      → term_more N read (suc f) d n rest ≡ got (n, rest)
  unfolding term_more
  term_more_stops n rest stop = rw (term_more, stop) refl

  pub additive_more_stops :
      (n : Node N) (rest : Tokens)
      → additive_op rest ≡ none
      → additive_more N read (suc f) d n rest ≡ got (n, rest)
  unfolding additive_more
  additive_more_stops n rest stop = rw (additive_more, stop) refl

  pub and_more_stops :
      (n : Node N) (rest : Tokens)
      → after_word "and" rest ≡ none
      → and_more N read (suc f) d n rest ≡ got (n, rest)
  unfolding and_more
  and_more_stops n rest stop = rw (and_more, stop) refl

  pub or_more_stops :
      (n : Node N) (rest : Tokens)
      → after_word "or" rest ≡ none
      → or_more N read (suc f) d n rest ≡ got (n, rest)
  unfolding or_more
  or_more_stops n rest stop = rw (or_more, stop) refl

  pub ternary_more_stops :
      (n : Node N) (rest : Tokens)
      → after_question rest ≡ none
      → ternary_more N read (suc f) d n rest ≡ got (n, rest)
  unfolding ternary_more
  ternary_more_stops n rest stop = rw (ternary_more, stop) refl

  pub comparison_more_stops :
      (rest : Tokens)
      → compare_op rest ≡ none
      → comparison_more N read (suc f) d rest ≡ got (end, rest)
  unfolding comparison_more
  comparison_more_stops rest stop = rw (comparison_more, stop) refl

module _ (N : Numbers) (read : String → N.Decimal) (n : Node N) (ts rest : Tokens) (f d : ℕ) where
  pub unary-primary :
      primary N read f d ts ≡ got (n, rest)
      → after_minus ts ≡ none
      → unary_expr N read (suc f) d ts ≡ got (n, rest)
  unfolding unary_expr
  unary-primary h no_minus = rw (unary_expr, no_minus) h

  pub power-unary :
      unary_expr N read (suc f) d ts ≡ got (n, rest)
      → after_caret rest ≡ none
      → power N read (suc (suc f)) d ts ≡ got (n, rest)
  unfolding power
  power-unary h stop = rw (power, h) (power_more_stops N read f d n rest stop)

  pub term-power :
      power N read (suc f) d ts ≡ got (n, rest)
      → term_op rest ≡ none
      → term N read (suc (suc f)) d ts ≡ got (n, rest)
  unfolding term
  term-power h stop = rw (term, h) (term_more_stops N read f d n rest stop)

  pub additive-term :
      term N read (suc f) d ts ≡ got (n, rest)
      → additive_op rest ≡ none
      → additive N read (suc (suc f)) d ts ≡ got (n, rest)
  unfolding additive
  additive-term h stop = rw (additive, h) (additive_more_stops N read f d n rest stop)

  pub comparison-additive :
      additive N read (suc f) d ts ≡ got (n, rest)
      → compare_op rest ≡ none
      → comparison N read (suc (suc f)) d ts ≡ got (n, rest)
  unfolding comparison
  comparison-additive h stop =
      rw (comparison, h) (rw (comparison_more_stops N read f d rest stop) refl)

  pub not-comparison :
      comparison N read f d ts ≡ got (n, rest)
      → after_word "not" ts ≡ none
      → not_expr N read (suc f) d ts ≡ got (n, rest)
  unfolding not_expr
  not-comparison h no_not = rw (not_expr, no_not) h

  pub and-not :
      not_expr N read (suc f) d ts ≡ got (n, rest)
      → after_word "and" rest ≡ none
      → and_expr N read (suc (suc f)) d ts ≡ got (n, rest)
  unfolding and_expr
  and-not h stop = rw (and_expr, h) (and_more_stops N read f d n rest stop)

  pub or-and :
      and_expr N read (suc f) d ts ≡ got (n, rest)
      → after_word "or" rest ≡ none
      → or_expr N read (suc (suc f)) d ts ≡ got (n, rest)
  unfolding or_expr
  or-and h stop = rw (or_expr, h) (or_more_stops N read f d n rest stop)

  pub ternary-or :
      or_expr N read (suc f) d ts ≡ got (n, rest)
      → after_question rest ≡ none
      → ternary_expr N read (suc (suc f)) d ts ≡ got (n, rest)
  unfolding ternary_expr
  ternary-or h stop = rw (ternary_expr, h) (ternary_more_stops N read f d n rest stop)

  pub expr-ternary :
      ternary_expr N read f (suc d) ts ≡ got (n, rest)
      → d < max_depth
      → expr N read (suc f) d ts ≡ got (n, rest)
  unfolding expr
  expr-ternary h small = rw (expr, lt→ltb d max_depth small) h
