-- ===== src/Formula/Parser/Forms.antt =====
-- The other forms of a formula, read as a whole expression.
use mizan_labs_v.Prelude.{
  ℕ, suc, ◌+◌, ◌*◌, ◌≤◌, ◌<◌, String, ◌≡◌, refl, ◌∙◌, none, some, ◌∷◌, ◌++◌, length, arith, lt→ltb,
}
use mizan_labs_v.Formula.{
  Numbers, pow, Node, num, str, name, attr, index, dot, unary, binary, not_node, ternary, lambda,
}
use mizan_labs_v.Formula.Tokens.{
  Punct, minus, caret, question, colon, lbrack, rbrack, lbrace, rbrace, number, string, ident,
  punct, Tokens, got,
}
use mizan_labs_v.Formula.Parser.{
  after_word, after_question, after_caret, after_minus, compare_op, additive_op, term_op,
  expect_punct, postfix_op, expr, ternary_expr, ternary_more, not_expr, power, power_more,
  unary_expr, primary, postfix, max_depth,
}
use mizan_labs_v.Formula.Parser.Levels.{
  Closes, at_end, at_rbrack, at_rbrace, at_colon, expr-ternary, IsClosed, Closes-IsClosed,
  postfix_stops,
}
use mizan_labs_v.Formula.Parser.Rise.{
  Reads, expr-not, expr-power, expr-unary, expr-primary, operand_lem, operand-unary, operand-power,
  operand-not, operand-or,
}
use mizan_labs_v.Formula.Parser.Printer.{emit, IsPrintable, depth}
use mizan_labs_v.Formula.Parser.Infix.{suc4, parens}
use mizan_labs_v.Formula.Parser.Printer.{IsNoName}
use mizan_labs_v.Formula.Parser.{expect_ident, after_rbrack, after_rbrace, after_colon}

postfix-attr :
    (N : Numbers) (read : String → N.Decimal) (f d : ℕ) (n : Node N) (part : String) (rest : Tokens)
    → IsNoName n
    → postfix N read (suc f) d n (punct Punct.dot ∷ ident part ∷ rest)
      ≡ postfix N read f d (attr n part) rest
unfolding postfix postfix_op expect_ident
postfix-attr N read f d (name s parts) part rest h = elim h [ ]
postfix-attr N read f d _ part rest h = refl

module _ (N : Numbers) (read : String → N.Decimal) (show : N.Decimal → String) (d g : ℕ)
    (rest : Tokens) (closes : Closes rest) (small : d < max_depth) where
  closed : IsClosed rest
  closed = Closes-IsClosed closes

  pub number_lem :
      (s : String)
      → expr N read (suc4 (suc4 (suc4 (suc g)))) d (number s ∷ rest) ≡ got (num (read s), rest)
  unfolding primary after_minus after_word
  number_lem s =
      expr-primary N read (num (read s)) (number s ∷ rest) rest d closed small (suc (suc (suc g)))
        refl refl refl

  pub string_lem :
      (s : String)
      → expr N read (suc4 (suc4 (suc4 (suc g)))) d (string s ∷ rest) ≡ got (str s, rest)
  unfolding primary after_minus after_word
  string_lem s =
      expr-primary N read (str s) (string s ∷ rest) rest d closed small (suc (suc (suc g))) refl
        refl refl

  pub dot_part_lem :
      (part : String)
      → expr N read (suc4 (suc4 (suc4 (suc g)))) d (punct Punct.dot ∷ ident part ∷ rest)
        ≡ got (dot (some part), rest)
  unfolding primary after_minus after_word
  dot_part_lem part =
      expr-primary N read (dot (some part)) (punct Punct.dot ∷ ident part ∷ rest) rest d closed
        small (suc (suc (suc g)))
        (postfix_stops N read (suc g) (suc d) (dot (some part)) rest closed.no_postfix) refl refl

  dot_alone :
      {ts : Tokens}
      → Closes ts
      → primary N read (suc (suc (suc g))) (suc d) (punct Punct.dot ∷ ts) ≡ got (dot none, ts)
  unfolding primary postfix postfix_op
  dot_alone at_end = refl
  dot_alone _ = refl

  pub dot_lem :
      expr N read (suc4 (suc4 (suc4 (suc g)))) d (punct Punct.dot ∷ rest) ≡ got (dot none, rest)
  unfolding after_minus after_word
  dot_lem =
      expr-primary N read (dot none) (punct Punct.dot ∷ rest) rest d closed small
        (suc (suc (suc g))) (dot_alone closes) refl refl

  module _ (a : Node N) (ra : Reads N read show a) (pa : IsPrintable a)
      (da : depth a + suc d ≤ max_depth) (fa : 14 * length (emit N show a) + 12 ≤ g) where
    pub unary_lem :
        expr N read (suc4 (suc4 (suc4 (suc g)))) d (punct minus ∷ parens (emit N show a) rest)
        ≡ got (unary a, rest)
    unfolding unary_expr after_minus after_word
    unary_lem =
        expr-unary N read (unary a) (punct minus ∷ parens (emit N show a) rest) rest d closed small
          (suc (suc (suc g)))
          (rw
            (
              unary_expr,
              operand-unary N read show a ra pa (suc d) g rest da (omega arith) closed.no_postfix,
            )
            refl)
          refl

    pub not_lem :
        expr N read (suc4 (suc4 (suc4 (suc g)))) d (ident "not" ∷ parens (emit N show a) rest)
        ≡ got (not_node a, rest)
    unfolding not_expr after_word
    not_lem =
        expr-not N read (not_node a) (ident "not" ∷ parens (emit N show a) rest) rest d closed small
          (suc4 (suc4 g))
          (rw
            (
              not_expr,
              operand-not N read show a ra pa (suc d) g rest da (omega arith) closed.no_postfix
                  closed.no_caret closed.no_term closed.no_additive closed.no_compare,
            )
            refl)

    pub attr_lem :
        (part : String)
        → IsNoName a
        → expr N read
            (suc4 (suc4 (suc4 (suc g))))
            d
            (parens (emit N show a) (punct Punct.dot ∷ ident part ∷ rest))
          ≡ got (attr a part, rest)
    unfolding postfix postfix_op expect_ident after_minus after_word
    attr_lem part no_name =
        expr-primary N read (attr a part)
          (parens (emit N show a) (punct Punct.dot ∷ ident part ∷ rest)) rest d closed small
          (suc (suc (suc g)))
          (operand_lem N read show a ra pa (suc d) (suc g) (punct Punct.dot ∷ ident part ∷ rest) da
              (omega arith)
            ∙ postfix-attr N read (suc g) (suc d) a part rest no_name
            ∙ (postfix_stops N read g (suc d) (attr a part) rest closed.no_postfix))
          refl refl

    pub lambda_lem :
        expr N read
          (suc4 (suc4 (suc4 (suc g))))
          d
          (punct lbrace ∷ ((emit N show a) ++ (punct rbrace ∷ rest)))
        ≡ got (lambda a, rest)
    unfolding primary expect_punct after_rbrace after_minus after_word
    lambda_lem =
        expr-primary N read (lambda a) (punct lbrace ∷ ((emit N show a) ++ (punct rbrace ∷ rest)))
          rest d closed small (suc (suc (suc g)))
          (rw
            (
              primary,
              ra (suc d) (suc (suc g)) (punct rbrace ∷ rest) (at_rbrace rest) pa da (omega arith),
            )
            refl)
          refl refl

  module _ (a b : Node N) (ra : Reads N read show a) (rb : Reads N read show b) (pa : IsPrintable a)
      (pb : IsPrintable b) (da : depth a + suc d ≤ max_depth)
      (fa : 14 * length (emit N show a) + 12 ≤ g) (db : depth b + suc d ≤ max_depth)
      (fb : 14 * length (emit N show b) + 12 ≤ g) where
    pub index_lem :
        expr N read
          (suc4 (suc4 (suc4 (suc g))))
          d
          (parens (emit N show a) (punct lbrack ∷ ((emit N show b) ++ (punct rbrack ∷ rest))))
        ≡ got (index a b, rest)
    unfolding postfix postfix_op expect_punct after_rbrack after_minus after_word
    index_lem =
        expr-primary N read (index a b)
          (parens (emit N show a) (punct lbrack ∷ ((emit N show b) ++ (punct rbrack ∷ rest)))) rest
          d closed small (suc (suc (suc g)))
          (operand_lem N read show a ra pa (suc d) (suc g)
              (punct lbrack ∷ ((emit N show b) ++ (punct rbrack ∷ rest))) da (omega arith)
            ∙ rw
                (
                  postfix,
                  rb (suc d) (suc g) (punct rbrack ∷ rest) (at_rbrack rest) pb db (omega arith),
                )
                (postfix_stops N read g (suc d) (index a b) rest closed.no_postfix))
          refl refl

    pub pow_lem :
        suc d < max_depth
        → depth b + suc (suc d) ≤ max_depth
        → expr N read
            (suc4 (suc4 (suc4 (suc (suc g)))))
            d
            (parens (emit N show a) (punct caret ∷ parens (emit N show b) rest))
          ≡ got (binary pow a b, rest)
    unfolding power after_caret postfix_op after_word
    pow_lem smaller deeper =
        expr-power N read (binary pow a b)
          (parens (emit N show a) (punct caret ∷ parens (emit N show b) rest)) rest d closed small
          (suc4 (suc g))
          (rw
            (
              power,
              operand-unary N read show a ra pa (suc d) (suc (suc g))
                  (punct caret ∷ parens (emit N show b) rest) da (omega arith) refl,
            )
            (rw
              (
                power_more,
                lt→ltb (suc d) max_depth smaller,
                operand-power N read show b rb pb (suc (suc d)) g rest deeper (omega arith)
                    closed.no_postfix closed.no_caret,
              )
              refl))
          refl

    pub ternary_lem :
        (c : Node N)
        → Reads N read show c
        → IsPrintable c
        → depth c + suc d ≤ max_depth
        → 14 * length (emit N show c) + 12 ≤ g
        → expr N read (suc4 (suc4 (suc4 (suc g)))) d (
            parens
              (emit N show c)
              (punct question ∷ ((emit N show a) ++ (punct colon ∷ ((emit N show b) ++ rest)))))
          ≡ got (ternary c a b, rest)
    unfolding ternary_expr after_question expect_punct after_colon postfix_op after_caret term_op
        additive_op compare_op after_word
    ternary_lem c rc pc dc fc =
        expr-ternary N read (ternary c a b)
          (parens (emit N show c)
            (punct question ∷ ((emit N show a) ++ (punct colon ∷ ((emit N show b) ++ rest)))))
          rest (suc4 (suc4 (suc4 g))) d
          (rw
            (
              ternary_expr,
              operand-or N read show c rc pc (suc d) (suc g)
                  (punct question ∷ ((emit N show a) ++ (punct colon ∷ ((emit N show b) ++ rest))))
                  dc (omega arith) refl refl refl refl refl refl refl,
            )
            (rw
              (
                ternary_more,
                ra (suc d) (suc4 (suc4 (suc (suc g)))) (punct colon ∷ ((emit N show b) ++ rest))
                    (at_colon ((emit N show b) ++ rest)) pa da (omega arith),
                rb (suc d) (suc4 (suc4 (suc (suc g)))) rest closes pb db (omega arith),
              )
              refl))
          small
