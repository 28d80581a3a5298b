-- ===== src/Formula/Parser.antt =====
-- The recursive-descent parser of formulas (backend/mizan/platform/formula/parser.py). `self.depth` is
-- an argument, since every call leaves it as it was; `self.i` is the rest of the tokens, and each call
-- spends a unit of fuel. Reading a number's text as a Decimal (`read`) is an argument.
mod Signs
mod Levels
mod Rise
mod Infix
mod Forms
mod Links
pub mod Fuel
pub mod Printer
pub mod RoundTrip
mod Examples
use mizan_labs_v.Prelude.{
  ℕ, zero, suc, ◌+◌, ◌*◌, String, Bool, true, false, ◌≡◌, Option, none, some, List, [], ◌∷◌, ◌++◌,
  length, ltb, str_eq, if◌then◌else◌,
}
use mizan_labs_v.Formula.{
  Numbers, BinaryOp, add, sub, mul, div, rem, pow, CompareOp, eq, ne, lt, le, gt, ge, Node, num,
  str, name, attr, index, dot, unary, binary, compare, not_node, and_node, or_node, ternary, call,
  lambda, Chain, end, link, Nodes, no_nodes, node,
}
use mizan_labs_v.Formula.Tokens.{
  Punct, eq_eq, not_eq, less_eq, greater_eq, minus, plus, star, slash, percent, caret, less,
  greater, lparen, rparen, lbrack, rbrack, lbrace, rbrace, comma, question, colon, Token, number,
  string, ident, punct, Tokens, Read, got, syntax_error, out_of_fuel, Parser, then_read,
}
use mizan_labs_v.Formula.Lexer.{
  Lexed, lexed, unexpected_character, too_long, bad_escape, lost, tokenize,
}

abbrev pub max_depth : ℕ
max_depth = 64

abbrev pub pure {ℓ} : {A : Type ℓ} → A → Parser A
pure a ts = got (a, ts)

module _ {ℓ κ} {A : Type ℓ} {B : Type κ} where
  infixl 1 ◌>>=◌ ◌>>◌
  abbrev pub ◌>>=◌ : Parser A → (A → Parser B) → Parser B
  p >>= f = λ ts. then_read (p ts) λ (a, rest). f a rest

  abbrev pub ◌>>◌ : Parser A → Parser B → Parser B
  p >> q = p >>= λ _. q

abbrev pub run {ℓ} : {A : Type ℓ} → Tokens → Parser A → Read (A × Tokens)
run ts p = p ts

-- What follows an expected token: `at` and `advance` of one word or of one kind of sign.
unfoldable pub after_word : String → Tokens → Option Tokens
after_word w (ident s ∷ ts) = if str_eq s w then some ts else none
after_word w ts = none

unfoldable pub after_question : Tokens → Option Tokens
after_question (punct question ∷ ts) = some ts
after_question ts = none

unfoldable pub after_caret : Tokens → Option Tokens
after_caret (punct caret ∷ ts) = some ts
after_caret ts = none

unfoldable pub after_minus : Tokens → Option Tokens
after_minus (punct minus ∷ ts) = some ts
after_minus ts = none

unfoldable pub after_comma : Tokens → Option Tokens
after_comma (punct comma ∷ ts) = some ts
after_comma ts = none

unfoldable pub after_lparen : Tokens → Option Tokens
after_lparen (punct lparen ∷ ts) = some ts
after_lparen ts = none

unfoldable pub after_rparen : Tokens → Option Tokens
after_rparen (punct rparen ∷ ts) = some ts
after_rparen ts = none

unfoldable pub compare_op : Tokens → Option (CompareOp × Tokens)
compare_op (punct eq_eq ∷ ts) = some (eq, ts)
compare_op (punct not_eq ∷ ts) = some (ne, ts)
compare_op (punct less ∷ ts) = some (lt, ts)
compare_op (punct less_eq ∷ ts) = some (le, ts)
compare_op (punct greater ∷ ts) = some (gt, ts)
compare_op (punct greater_eq ∷ ts) = some (ge, ts)
compare_op ts = none

unfoldable pub additive_op : Tokens → Option (BinaryOp × Tokens)
additive_op (punct plus ∷ ts) = some (add, ts)
additive_op (punct minus ∷ ts) = some (sub, ts)
additive_op ts = none

unfoldable pub term_op : Tokens → Option (BinaryOp × Tokens)
term_op (punct star ∷ ts) = some (mul, ts)
term_op (punct slash ∷ ts) = some (div, ts)
term_op (punct percent ∷ ts) = some (rem, ts)
term_op ts = none

unfoldable pub expect_punct : (Tokens → Option Tokens) → Parser (Unit {0})
expect_punct after ts = elim (after ts) [ none ↦ syntax_error | some rest ↦ got (tt, rest) ]

unfoldable pub after_rbrack : Tokens → Option Tokens
after_rbrack (punct rbrack ∷ ts) = some ts
after_rbrack ts = none

unfoldable pub after_rbrace : Tokens → Option Tokens
after_rbrace (punct rbrace ∷ ts) = some ts
after_rbrace ts = none

unfoldable pub after_colon : Tokens → Option Tokens
after_colon (punct colon ∷ ts) = some ts
after_colon ts = none

unfoldable pub expect_ident : Parser String
expect_ident (ident s ∷ ts) = got (s, ts)
expect_ident ts = syntax_error

-- The sign before a further part of a postfix expression.
unfoldable pub postfix_op : Tokens → Option (Bool × Tokens)
postfix_op (punct Punct.dot ∷ ts) = some (true, ts)
postfix_op (punct lbrack ∷ ts) = some (false, ts)
postfix_op ts = none

module _ (N : Numbers) (read : String → N.Decimal) where
  -- A dotted name grows; any other node gets an attribute.
  abbrev pub dotted : Node N → String → Node N
  dotted (name s parts) part = name s (parts ++ (part ∷ []))
  dotted n part = attr n part

  abbrev pub compared : Node N → Chain N → Node N
  compared first end = first
  compared first (link op n chain) = compare first (link op n chain)

  unfoldable mutual
    pub expr : ℕ → ℕ → Parser (Node N)
    expr zero d ts = out_of_fuel
    expr (suc f) d ts =
        let inner = ternary_expr f (suc d) ts in if ltb d max_depth then inner else syntax_error

    pub ternary_expr : ℕ → ℕ → Parser (Node N)
    ternary_expr zero d ts = out_of_fuel
    ternary_expr (suc f) d ts = run ts do c ← or_expr f d; ternary_more f d c

    pub ternary_more : ℕ → ℕ → Node N → Parser (Node N)
    ternary_more zero d c ts = out_of_fuel
    ternary_more (suc f) d c ts = elim (after_question ts) [
      | none ↦ got (c, ts)
      | some rest ↦
          run rest do x ← expr f d; expect_punct after_colon; y ← expr f d; pure (ternary c x y)
    ]

    pub or_expr : ℕ → ℕ → Parser (Node N)
    or_expr zero d ts = out_of_fuel
    or_expr (suc f) d ts = run ts do a ← and_expr f d; or_more f d a

    pub or_more : ℕ → ℕ → Node N → Parser (Node N)
    or_more zero d a ts = out_of_fuel
    or_more (suc f) d a ts = elim (after_word "or" ts) [
      | none ↦ got (a, ts)
      | some rest ↦ run rest do b ← and_expr f d; or_more f d (or_node a b)
    ]

    pub and_expr : ℕ → ℕ → Parser (Node N)
    and_expr zero d ts = out_of_fuel
    and_expr (suc f) d ts = run ts do a ← not_expr f d; and_more f d a

    pub and_more : ℕ → ℕ → Node N → Parser (Node N)
    and_more zero d a ts = out_of_fuel
    and_more (suc f) d a ts = elim (after_word "and" ts) [
      | none ↦ got (a, ts)
      | some rest ↦ run rest do b ← not_expr f d; and_more f d (and_node a b)
    ]

    pub not_expr : ℕ → ℕ → Parser (Node N)
    not_expr zero d ts = out_of_fuel
    not_expr (suc f) d ts = elim (after_word "not" ts) [
      | none ↦ comparison f d ts
      | some rest ↦ run rest do pure (not_node (← not_expr f d))
    ]

    pub comparison : ℕ → ℕ → Parser (Node N)
    comparison zero d ts = out_of_fuel
    comparison (suc f) d ts =
        run ts do first ← additive f d; chain ← comparison_more f d; pure (compared first chain)

    pub comparison_more : ℕ → ℕ → Parser (Chain N)
    comparison_more zero d ts = out_of_fuel
    comparison_more (suc f) d ts = elim (compare_op ts) [
      | none ↦ got (end, ts)
      | some (op, rest) ↦
          run rest do n ← additive f d; chain ← comparison_more f d; pure (link op n chain)
    ]

    pub additive : ℕ → ℕ → Parser (Node N)
    additive zero d ts = out_of_fuel
    additive (suc f) d ts = run ts do a ← term f d; additive_more f d a

    pub additive_more : ℕ → ℕ → Node N → Parser (Node N)
    additive_more zero d a ts = out_of_fuel
    additive_more (suc f) d a ts = elim (additive_op ts) [
      | none ↦ got (a, ts)
      | some (op, rest) ↦ run rest do b ← term f d; additive_more f d (binary op a b)
    ]

    pub term : ℕ → ℕ → Parser (Node N)
    term zero d ts = out_of_fuel
    term (suc f) d ts = run ts do a ← power f d; term_more f d a

    pub term_more : ℕ → ℕ → Node N → Parser (Node N)
    term_more zero d a ts = out_of_fuel
    term_more (suc f) d a ts = elim (term_op ts) [
      | none ↦ got (a, ts)
      | some (op, rest) ↦ run rest do b ← power f d; term_more f d (binary op a b)
    ]

    pub power : ℕ → ℕ → Parser (Node N)
    power zero d ts = out_of_fuel
    power (suc f) d ts = run ts do a ← unary_expr f d; power_more f d a

    pub power_more : ℕ → ℕ → Node N → Parser (Node N)
    power_more zero d a ts = out_of_fuel
    power_more (suc f) d a ts = elim (after_caret ts) [
      | none ↦ got (a, ts)
      | some rest ↦
          let exponent = power f (suc d) rest in
          if ltb d max_depth
          then then_read exponent (λ (b, rest'). got (binary pow a b, rest'))
          else syntax_error
    ]

    pub unary_expr : ℕ → ℕ → Parser (Node N)
    unary_expr zero d ts = out_of_fuel
    unary_expr (suc f) d ts = elim (after_minus ts) [
      | none ↦ primary f d ts
      | some rest ↦ run rest do pure (unary (← unary_expr f d))
    ]

    pub primary : ℕ → ℕ → Parser (Node N)
    primary zero d ts = out_of_fuel
    primary (suc f) d (number s ∷ ts) = got (num (read s), ts)
    primary (suc f) d (string s ∷ ts) = got (str s, ts)
    primary (suc f) d (ident s ∷ ts) = elim (after_lparen ts) [
      | none ↦ postfix f d (name s []) ts
      | some rest ↦ call_args f d s rest
    ]
    primary (suc f) d (punct lparen ∷ ts) =
        run ts do n ← expr f d; expect_punct after_rparen; postfix f d n
    primary (suc f) d (punct lbrace ∷ ts) =
        run ts do body ← expr f d; expect_punct after_rbrace; pure (lambda body)
    primary (suc f) d (punct Punct.dot ∷ ident s ∷ ts) = postfix f d (dot (some s)) ts
    primary (suc f) d (punct Punct.dot ∷ ts) = postfix f d (dot none) ts
    primary (suc f) d ts = syntax_error

    pub postfix : ℕ → ℕ → Node N → Parser (Node N)
    postfix zero d n ts = out_of_fuel
    postfix (suc f) d n ts = elim (postfix_op ts) [
      | none ↦ got (n, ts)
      | some (true, rest) ↦ run rest do part ← expect_ident; postfix f d (dotted n part)
      | some (false, rest) ↦
          run rest do i ← expr f d; expect_punct after_rbrack; postfix f d (index n i)
    ]

    pub call_args : ℕ → ℕ → String → Parser (Node N)
    call_args zero d s ts = out_of_fuel
    call_args (suc f) d s ts = elim (after_rparen ts) [
      | some rest ↦ postfix f d (call s no_nodes) rest
      | none ↦ run ts do
        first ← expr f d
        others ← more_args f d
        expect_punct after_rparen
        postfix f d (call s (node first others))
    ]

    pub more_args : ℕ → ℕ → Parser (Nodes N)
    more_args zero d ts = out_of_fuel
    more_args (suc f) d ts = elim (after_comma ts) [
      | none ↦ got (no_nodes, ts)
      | some rest ↦ run rest do pure (node (← expr f d) (← more_args f d))
    ]

  unfoldable pub finish : Node N → Tokens → Read (Node N)
  finish n [] = got n
  finish n (t ∷ ts) = syntax_error

  unfoldable pub parse_tokens : Tokens → Read (Node N)
  unfolding finish
  parse_tokens ts = then_read (expr (14 * length ts + 12) 0 ts) λ (n, rest). finish n rest

-- `parse`: a FormulaSyntaxError, or the UnicodeDecodeError of a string that the codec does not accept.
-- `unfinished` has no counterpart in the program.
pub data Parsed (N : Numbers) : Type 0 where
  parsed : Node N → Parsed N
  formula_syntax_error decode_error unfinished : Parsed N

abbrev pub answer : {N : Numbers} → Read (Node N) → Parsed N
answer (got n) = parsed n
answer syntax_error = formula_syntax_error
answer out_of_fuel = unfinished

module _ (N : Numbers) (read : String → N.Decimal) (is_decimal : ℕ → Bool)
    (unescape : String → Option String) where
  abbrev pub parse_lexed : Lexed → Parsed N
  parse_lexed (lexed ts) = answer (parse_tokens N read ts)
  parse_lexed unexpected_character = formula_syntax_error
  parse_lexed too_long = formula_syntax_error
  parse_lexed bad_escape = decode_error
  parse_lexed lost = unfinished

  unfoldable pub parse : String → Parsed N
  parse text = parse_lexed (tokenize is_decimal unescape text)
