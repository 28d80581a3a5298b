-- ===== src/Formula/Parser/Examples.antt =====
-- Runs of the lexer and the parser of formulas (backend/mizan/platform/formula).
use mizan_labs_v.Prelude.{
  ℕ, zero, suc, ◌≡◌, ◌≢◌, refl, ap, String, none, some, Option, [], ◌∷◌, leb, ◌&&◌, arith, Bool,
  false, str_eq, eq_iff,
}
use mizan_labs_v.Text.{size, concat, span}
use mizan_labs_v.Formula.{
  Node, num, name, call, binary, compare, dot, attr, ternary, lambda, and_node, lt, add, pow, end,
  link, no_nodes, node,
}
use mizan_labs_v.Formula.Naturals.{naturals}
use mizan_labs_v.Formula.Tokens.{got}
use mizan_labs_v.Formula.Lexer.{tokenize, scan_string, fraction, exponent}
use mizan_labs_v.Formula.Parser.{
  parsed, formula_syntax_error, unfinished, parse_tokens, parse, expr, after_word, after_minus,
  after_caret, term_op, additive_op, compare_op, postfix_op, after_lparen, after_rparen,
  expect_punct, expect_ident, finish, after_question, after_comma,
}
use mizan_labs_v.Formula.Parser.Fuel.{parse_total}
use mizan_labs_v.Formula.Parser.Printer.{emit, IsPrintable, depth}
use mizan_labs_v.Formula.Parser.RoundTrip.{parse_tokens-emit}

-- Numbers in unary, and a codec that refuses every backslash.
abbrev tally : ℕ → String
unfolding concat
tally zero = ""
tally (suc n) = concat "1" (tally n)

size-tally : (n : ℕ) → size (tally n) ≡ n
unfolding size concat
size-tally zero = refl
size-tally (suc n) = ap suc (size-tally n)

abbrev ascii_digit : ℕ → Bool
ascii_digit c = leb b'0' c && leb c b'9'

abbrev verbatim : String → Option String
verbatim s = some s

-- sum(over(x.value, {. ^ 2})) + 3 < limit and (x ? 1 : 2).unit < 4
abbrev sample : Node naturals
sample =
    and_node
      (compare (binary add (call "sum" (node squares no_nodes)) (num 3))
        (link lt (name "limit" []) end))
      (compare (attr (ternary (name "x" []) (num 1) (num 2)) "unit") (link lt (num 4) end))
  where
    squares : Node naturals
    squares =
        call "over"
          (node (name "x" ("value" ∷ [])) (node (lambda (binary pow (dot none) (num 2))) no_nodes))

other : (s : String) → str_eq s "not" ≡ false → s ≢ "not"
other s h e = ground (arith, (eq_iff s "not").1 e)

sample-IsPrintable : IsPrintable sample
unfolding IsPrintable
sample-IsPrintable =
    ground (arith, other "sum" refl, other "over" refl, other "x" refl, other "limit" refl)

parse_tokens-emit_example : parse_tokens naturals size (emit naturals tally sample) ≡ got sample
parse_tokens-emit_example =
    parse_tokens-emit naturals size tally size-tally sample sample-IsPrintable
      (unfold depth in omega arith)

parse_total_example : parse naturals size ascii_digit verbatim "1 + (2 *" ≢ unfinished
parse_total_example = parse_total naturals size ascii_digit verbatim "1 + (2 *"

parse_incomplete : parse naturals size ascii_digit verbatim "1 + (2 *" ≡ formula_syntax_error
unfolding parse tokenize size span parse_tokens expr after_word after_minus after_caret term_op
    additive_op compare_op postfix_op after_lparen after_rparen expect_punct expect_ident finish
    after_question after_comma scan_string fraction exponent concat
parse_incomplete = refl

parse_power :
    parse naturals size ascii_digit verbatim "1 + 111 ^ 11"
    ≡ parsed (binary add (num 1) (binary pow (num 3) (num 2)))
unfolding parse tokenize size span parse_tokens expr after_word after_minus after_caret term_op
    additive_op compare_op postfix_op after_lparen after_rparen expect_punct expect_ident finish
    after_question after_comma scan_string fraction exponent concat
parse_power = refl

parse_precedence :
    parse naturals size ascii_digit verbatim "f(x.y) < 1 and '\\'' == z"
    ≡ parse naturals size ascii_digit verbatim "(f ( (x).y )) < (1)and(('\\''==z))"
unfolding parse tokenize size span parse_tokens expr after_word after_minus after_caret term_op
    additive_op compare_op postfix_op after_lparen after_rparen expect_punct expect_ident finish
    after_question after_comma scan_string fraction exponent concat
parse_precedence = refl
