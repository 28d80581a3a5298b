-- ===== src/Formula/Parser/Fuel.antt =====
-- The fuel of the parser is enough for every list of tokens: each call leaves fewer of them.
use mizan_labs_v.Prelude.{
  ℕ, zero, suc, ◌+◌, ◌*◌, ◌≤◌, String, Bool, true, false, ◌≢◌, refl, Option, none, some, inl, inr,
  [], ◌∷◌, length, ltb, arith, Option-cases, Bool-cases,
}
use mizan_labs_v.Formula.{
  Numbers, Node, name, dot, index, call, no_nodes, node, and_node, or_node, binary,
}
use mizan_labs_v.Formula.Tokens.{
  Punct, lparen, lbrace, number, string, ident, punct, Tokens, Read, got, syntax_error, out_of_fuel,
  Ensures, kept, refused, Ensures-then, Ensures-in_fuel,
}
use mizan_labs_v.Formula.Parser.{
  after_word, after_question, after_caret, after_minus, after_comma, after_lparen, after_rparen,
  after_rbrack, after_rbrace, after_colon, compare_op, additive_op, term_op, postfix_op, expr,
  ternary_expr, ternary_more, or_expr, or_more, and_expr, and_more, not_expr, comparison,
  comparison_more, additive, additive_more, term, term_more, power, power_more, unary_expr, primary,
  postfix, call_args, more_args, finish, parse_tokens, dotted, max_depth,
}
use mizan_labs_v.Formula.Parser.Signs.{
  after_word-Consumes, after_question-Consumes, after_caret-Consumes, after_minus-Consumes,
  after_comma-Consumes, after_lparen-Consumes, after_rparen-Consumes, after_rbrack-Consumes,
  after_rbrace-Consumes, after_colon-Consumes, compare_op-ConsumesOp, additive_op-ConsumesOp,
  term_op-ConsumesOp, postfix_op-ConsumesOp, Shrinks, Keeps, weaken, expect_punct-Shrinks,
  expect_ident-Shrinks,
}
use mizan_labs_v.Formula.Lexer.{Lexed, lexed, lost, tokenize}
use mizan_labs_v.Formula.Lexer.Laws.{IsLexed, tokenize-IsLexed}
use mizan_labs_v.Formula.Parser.{unfinished, answer, parse_lexed, parse}

module _ (N : Numbers) (read : String → N.Decimal) where
  mutual
    unfolding expr

    expr-Shrinks :
        (f d : ℕ) (ts : Tokens) → 14 * length ts + 12 ≤ f → Shrinks ts (expr N read f d ts)
    expr-Shrinks zero d ts h = absurd (omega arith)
    expr-Shrinks (suc f) d ts h = elim (Bool-cases (ltb d max_depth)) [
      | inl small ↦ rw small (ternary_expr-Shrinks f (suc d) ts (omega arith))
      | inr deep ↦ rw deep refused
    ]

    ternary_expr-Shrinks :
        (f d : ℕ) (ts : Tokens) → 14 * length ts + 11 ≤ f → Shrinks ts (ternary_expr N read f d ts)
    ternary_expr-Shrinks zero d ts h = absurd (omega arith)
    ternary_expr-Shrinks (suc f) d ts h =
        Ensures-then (or_expr-Shrinks f d ts (omega arith))
          λ (a, rest) p. weaken (ternary_more-Keeps f d a rest (omega arith)) λ _ le. omega arith

    ternary_more-Keeps :
        (f d : ℕ) (c : Node N) (ts : Tokens)
        → 14 * length ts + 1 ≤ f
        → Keeps ts (ternary_more N read f d c ts)
    ternary_more-Keeps zero d c ts h = absurd (omega arith)
    ternary_more-Keeps (suc f) d c ts bound = elim (Option-cases (after_question ts)) [
      | inl h ↦ rw (ternary_more, h) (kept (omega arith))
      | inr (rest, h) ↦
          let fewer = after_question-Consumes ts rest h in
          rw (ternary_more, h)
            (Ensures-then (expr-Shrinks f d rest (omega arith)) λ (x, rest₁) p.
              Ensures-then (expect_punct-Shrinks after_colon after_colon-Consumes rest₁)
                λ (u, rest₂) q.
                  Ensures-then (expr-Shrinks f d rest₂ (omega arith))
                    λ (y, rest₃) r. kept (omega arith))
    ]

    or_expr-Shrinks :
        (f d : ℕ) (ts : Tokens) → 14 * length ts + 10 ≤ f → Shrinks ts (or_expr N read f d ts)
    or_expr-Shrinks zero d ts h = absurd (omega arith)
    or_expr-Shrinks (suc f) d ts h =
        Ensures-then (and_expr-Shrinks f d ts (omega arith))
          λ (a, rest) p. weaken (or_more-Keeps f d a rest (omega arith)) λ _ le. omega arith

    or_more-Keeps :
        (f d : ℕ) (a : Node N) (ts : Tokens)
        → 14 * length ts + 1 ≤ f
        → Keeps ts (or_more N read f d a ts)
    or_more-Keeps zero d a ts h = absurd (omega arith)
    or_more-Keeps (suc f) d a ts bound = elim (Option-cases (after_word "or" ts)) [
      | inl h ↦ rw (or_more, h) (kept (omega arith))
      | inr (rest, h) ↦
          let fewer = after_word-Consumes "or" ts rest h in
          rw (or_more, h)
            (Ensures-then (and_expr-Shrinks f d rest (omega arith)) λ (b, rest') p.
              weaken (or_more-Keeps f d (or_node a b) rest' (omega arith)) λ _ le. omega arith)
    ]

    and_expr-Shrinks :
        (f d : ℕ) (ts : Tokens) → 14 * length ts + 9 ≤ f → Shrinks ts (and_expr N read f d ts)
    and_expr-Shrinks zero d ts h = absurd (omega arith)
    and_expr-Shrinks (suc f) d ts h =
        Ensures-then (not_expr-Shrinks f d ts (omega arith))
          λ (a, rest) p. weaken (and_more-Keeps f d a rest (omega arith)) λ _ le. omega arith

    and_more-Keeps :
        (f d : ℕ) (a : Node N) (ts : Tokens)
        → 14 * length ts + 1 ≤ f
        → Keeps ts (and_more N read f d a ts)
    and_more-Keeps zero d a ts h = absurd (omega arith)
    and_more-Keeps (suc f) d a ts bound = elim (Option-cases (after_word "and" ts)) [
      | inl h ↦ rw (and_more, h) (kept (omega arith))
      | inr (rest, h) ↦
          let fewer = after_word-Consumes "and" ts rest h in
          rw (and_more, h)
            (Ensures-then (not_expr-Shrinks f d rest (omega arith)) λ (b, rest') p.
              weaken (and_more-Keeps f d (and_node a b) rest' (omega arith)) λ _ le. omega arith)
    ]

    not_expr-Shrinks :
        (f d : ℕ) (ts : Tokens) → 14 * length ts + 8 ≤ f → Shrinks ts (not_expr N read f d ts)
    not_expr-Shrinks zero d ts h = absurd (omega arith)
    not_expr-Shrinks (suc f) d ts bound = elim (Option-cases (after_word "not" ts)) [
      | inl h ↦ rw (not_expr, h) (comparison-Shrinks f d ts (omega arith))
      | inr (rest, h) ↦
          let fewer = after_word-Consumes "not" ts rest h in
          rw (not_expr, h)
            (Ensures-then (not_expr-Shrinks f d rest (omega arith))
              λ (a, rest') p. kept (omega arith))
    ]

    comparison-Shrinks :
        (f d : ℕ) (ts : Tokens) → 14 * length ts + 7 ≤ f → Shrinks ts (comparison N read f d ts)
    comparison-Shrinks zero d ts h = absurd (omega arith)
    comparison-Shrinks (suc f) d ts h =
        Ensures-then (additive-Shrinks f d ts (omega arith)) λ (a, rest) p.
          Ensures-then (comparison_more-Keeps f d rest (omega arith))
            λ (chain, rest') q. kept (omega arith)

    comparison_more-Keeps :
        (f d : ℕ) (ts : Tokens) → 14 * length ts + 1 ≤ f → Keeps ts (comparison_more N read f d ts)
    comparison_more-Keeps zero d ts h = absurd (omega arith)
    comparison_more-Keeps (suc f) d ts bound = elim (Option-cases (compare_op ts)) [
      | inl h ↦ rw (comparison_more, h) (kept (omega arith))
      | inr ((op, rest), h) ↦
          let fewer = compare_op-ConsumesOp ts rest op h in
          rw (comparison_more, h)
            (Ensures-then (additive-Shrinks f d rest (omega arith)) λ (b, rest') p.
              Ensures-then (comparison_more-Keeps f d rest' (omega arith))
                λ (chain, rest'') q. kept (omega arith))
    ]

    additive-Shrinks :
        (f d : ℕ) (ts : Tokens) → 14 * length ts + 6 ≤ f → Shrinks ts (additive N read f d ts)
    additive-Shrinks zero d ts h = absurd (omega arith)
    additive-Shrinks (suc f) d ts h =
        Ensures-then (term-Shrinks f d ts (omega arith))
          λ (a, rest) p. weaken (additive_more-Keeps f d a rest (omega arith)) λ _ le. omega arith

    additive_more-Keeps :
        (f d : ℕ) (a : Node N) (ts : Tokens)
        → 14 * length ts + 1 ≤ f
        → Keeps ts (additive_more N read f d a ts)
    additive_more-Keeps zero d a ts h = absurd (omega arith)
    additive_more-Keeps (suc f) d a ts bound = elim (Option-cases (additive_op ts)) [
      | inl h ↦ rw (additive_more, h) (kept (omega arith))
      | inr ((op, rest), h) ↦
          let fewer = additive_op-ConsumesOp ts rest op h in
          rw (additive_more, h)
            (Ensures-then (term-Shrinks f d rest (omega arith)) λ (b, rest') p.
              weaken (additive_more-Keeps f d (binary op a b) rest' (omega arith))
                λ _ le. omega arith)
    ]

    term-Shrinks :
        (f d : ℕ) (ts : Tokens) → 14 * length ts + 5 ≤ f → Shrinks ts (term N read f d ts)
    term-Shrinks zero d ts h = absurd (omega arith)
    term-Shrinks (suc f) d ts h =
        Ensures-then (power-Shrinks f d ts (omega arith))
          λ (a, rest) p. weaken (term_more-Keeps f d a rest (omega arith)) λ _ le. omega arith

    term_more-Keeps :
        (f d : ℕ) (a : Node N) (ts : Tokens)
        → 14 * length ts + 1 ≤ f
        → Keeps ts (term_more N read f d a ts)
    term_more-Keeps zero d a ts h = absurd (omega arith)
    term_more-Keeps (suc f) d a ts bound = elim (Option-cases (term_op ts)) [
      | inl h ↦ rw (term_more, h) (kept (omega arith))
      | inr ((op, rest), h) ↦
          let fewer = term_op-ConsumesOp ts rest op h in
          rw (term_more, h)
            (Ensures-then (power-Shrinks f d rest (omega arith)) λ (b, rest') p.
              weaken (term_more-Keeps f d (binary op a b) rest' (omega arith)) λ _ le. omega arith)
    ]

    power-Shrinks :
        (f d : ℕ) (ts : Tokens) → 14 * length ts + 4 ≤ f → Shrinks ts (power N read f d ts)
    power-Shrinks zero d ts h = absurd (omega arith)
    power-Shrinks (suc f) d ts h =
        Ensures-then (unary_expr-Shrinks f d ts (omega arith))
          λ (a, rest) p. weaken (power_more-Keeps f d a rest (omega arith)) λ _ le. omega arith

    power_more-Keeps :
        (f d : ℕ) (a : Node N) (ts : Tokens)
        → 14 * length ts + 1 ≤ f
        → Keeps ts (power_more N read f d a ts)
    power_more-Keeps zero d a ts h = absurd (omega arith)
    power_more-Keeps (suc f) d a ts bound = elim (Option-cases (after_caret ts)) [
      | inl h ↦ rw (power_more, h) (kept (omega arith))
      | inr (rest, h) ↦
          let fewer = after_caret-Consumes ts rest h in
          elim (Bool-cases (ltb d max_depth)) [
            | inl small ↦
                rw (power_more, h, small)
                  (Ensures-then (power-Shrinks f (suc d) rest (omega arith))
                    λ (b, rest') p. kept (omega arith))
            | inr deep ↦ rw (power_more, h, deep) refused
          ]
    ]

    unary_expr-Shrinks :
        (f d : ℕ) (ts : Tokens) → 14 * length ts + 3 ≤ f → Shrinks ts (unary_expr N read f d ts)
    unary_expr-Shrinks zero d ts h = absurd (omega arith)
    unary_expr-Shrinks (suc f) d ts bound = elim (Option-cases (after_minus ts)) [
      | inl h ↦ rw (unary_expr, h) (primary-Shrinks f d ts (omega arith))
      | inr (rest, h) ↦
          let fewer = after_minus-Consumes ts rest h in
          rw (unary_expr, h)
            (Ensures-then (unary_expr-Shrinks f d rest (omega arith))
              λ (a, rest') p. kept (omega arith))
    ]

    primary-Shrinks :
        (f d : ℕ) (ts : Tokens) → 14 * length ts + 2 ≤ f → Shrinks ts (primary N read f d ts)
    primary-Shrinks zero d ts h = absurd (omega arith)
    primary-Shrinks (suc f) d (number s ∷ ts) h = kept (omega arith)
    primary-Shrinks (suc f) d (string s ∷ ts) h = kept (omega arith)
    primary-Shrinks (suc f) d (ident s ∷ ts) bound = elim (Option-cases (after_lparen ts)) [
      | inl h ↦
          rw (primary, h)
            (weaken (postfix-Keeps f d (name s []) ts (omega arith)) λ _ le. omega arith)
      | inr (rest, h) ↦
          let fewer = after_lparen-Consumes ts rest h in
          rw (primary, h) (weaken (call_args-Keeps f d s rest (omega arith)) λ _ le. omega arith)
    ]
    primary-Shrinks (suc f) d (punct lparen ∷ ts) h =
        Ensures-then (expr-Shrinks f d ts (omega arith)) λ (n, rest₁) p.
          Ensures-then (expect_punct-Shrinks after_rparen after_rparen-Consumes rest₁)
            λ (u, rest₂) q. weaken (postfix-Keeps f d n rest₂ (omega arith)) λ _ le. omega arith
    primary-Shrinks (suc f) d (punct lbrace ∷ ts) h =
        Ensures-then (expr-Shrinks f d ts (omega arith)) λ (n, rest₁) p.
          Ensures-then (expect_punct-Shrinks after_rbrace after_rbrace-Consumes rest₁)
            λ (u, rest₂) q. kept (omega arith)
    primary-Shrinks (suc f) d (punct Punct.dot ∷ ident s ∷ ts) h =
        weaken (postfix-Keeps f d (dot (some s)) ts (omega arith)) λ _ le. omega arith
    primary-Shrinks (suc f) d (punct Punct.dot ∷ ts) h =
        weaken (postfix-Keeps f d (dot none) ts (omega arith)) λ _ le. omega arith
    primary-Shrinks (suc f) d _ h = refused

    postfix-Keeps :
        (f d : ℕ) (n : Node N) (ts : Tokens)
        → 14 * length ts + 1 ≤ f
        → Keeps ts (postfix N read f d n ts)
    postfix-Keeps zero d n ts h = absurd (omega arith)
    postfix-Keeps (suc f) d n ts bound = elim (Option-cases (postfix_op ts)) [
      | inl h ↦ rw (postfix, h) (kept (omega arith))
      | inr ((true, rest), h) ↦
          let fewer = postfix_op-ConsumesOp ts rest true h in
          rw (postfix, h)
            (Ensures-then (expect_ident-Shrinks rest) λ (part, rest') p.
              weaken (postfix-Keeps f d (dotted N read n part) rest' (omega arith))
                λ _ le. omega arith)
      | inr ((false, rest), h) ↦
          let fewer = postfix_op-ConsumesOp ts rest false h in
          rw (postfix, h)
            (Ensures-then (expr-Shrinks f d rest (omega arith)) λ (i, rest₁) p.
              Ensures-then (expect_punct-Shrinks after_rbrack after_rbrack-Consumes rest₁)
                λ (u, rest₂) q.
                  weaken (postfix-Keeps f d (index n i) rest₂ (omega arith)) λ _ le. omega arith)
    ]

    call_args-Keeps :
        (f d : ℕ) (s : String) (ts : Tokens)
        → 14 * length ts + 14 ≤ f
        → Keeps ts (call_args N read f d s ts)
    call_args-Keeps zero d s ts h = absurd (omega arith)
    call_args-Keeps (suc f) d s ts bound = elim (Option-cases (after_rparen ts)) [
      | inr (rest, h) ↦
          let fewer = after_rparen-Consumes ts rest h in
          rw (call_args, h)
            (weaken (postfix-Keeps f d (call s no_nodes) rest (omega arith)) λ _ le. omega arith)
      | inl h ↦
          rw (call_args, h)
            (Ensures-then (expr-Shrinks f d ts (omega arith)) λ (first, rest₁) p.
              Ensures-then (more_args-Keeps f d rest₁ (omega arith)) λ (others, rest₂) q.
                Ensures-then (expect_punct-Shrinks after_rparen after_rparen-Consumes rest₂)
                  λ (u, rest₃) r.
                    weaken (postfix-Keeps f d (call s (node first others)) rest₃ (omega arith))
                      λ _ le. omega arith)
    ]

    more_args-Keeps :
        (f d : ℕ) (ts : Tokens) → 14 * length ts + 1 ≤ f → Keeps ts (more_args N read f d ts)
    more_args-Keeps zero d ts h = absurd (omega arith)
    more_args-Keeps (suc f) d ts bound = elim (Option-cases (after_comma ts)) [
      | inl h ↦ rw (more_args, h) (kept (omega arith))
      | inr (rest, h) ↦
          let fewer = after_comma-Consumes ts rest h in
          rw (more_args, h)
            (Ensures-then (expr-Shrinks f d rest (omega arith)) λ (n, rest₁) p.
              Ensures-then (more_args-Keeps f d rest₁ (omega arith))
                λ (others, rest₂) q. kept (omega arith))
    ]

  finish-Ensures : (n : Node N) (ts : Tokens) → Ensures (λ m. Unit {0}) (finish N read n ts)
  unfolding finish
  finish-Ensures n [] = kept tt
  finish-Ensures n (t ∷ ts) = refused

  pub parse_tokens-in_fuel : (ts : Tokens) → parse_tokens N read ts ≢ out_of_fuel
  unfolding parse_tokens
  parse_tokens-in_fuel ts = Ensures-in_fuel (
      Ensures-then (expr-Shrinks (14 * length ts + 12) 0 ts (omega arith))
        λ (n, rest) p. finish-Ensures n rest)

module _ (N : Numbers) (read : String → N.Decimal) (is_decimal : ℕ → Bool)
    (unescape : String → Option String) where
  answer-finished : (r : Read (Node N)) → r ≢ out_of_fuel → answer r ≢ unfinished
  answer-finished (got n) h e = cc
  answer-finished syntax_error h e = cc
  answer-finished out_of_fuel h e = h refl

  parse_lexed-finished :
      (r : Lexed) → IsLexed 0 r → parse_lexed N read is_decimal unescape r ≢ unfinished
  parse_lexed-finished (lexed ts) h e =
      answer-finished (parse_tokens N read ts) (parse_tokens-in_fuel N read ts) e
  parse_lexed-finished lost h e = h
  parse_lexed-finished _ h e = cc

  -- Every text is parsed, or refused: the loop of the lexer and the recursion of the parser end.
  pub parse_total : (text : String) → parse N read is_decimal unescape text ≢ unfinished
  unfolding parse
  parse_total text =
      parse_lexed-finished (tokenize is_decimal unescape text)
        (tokenize-IsLexed is_decimal unescape text)
