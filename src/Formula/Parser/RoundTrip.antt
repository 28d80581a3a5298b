-- ===== src/Formula/Parser/RoundTrip.antt =====
-- Printing a formula as tokens and parsing the tokens.
use mathlib.Core.Path.{subst}
use mizan_labs_v.Prelude.{
  ℕ, zero, suc, ◌+◌, ◌-◌, ◌*◌, ◌≤◌, String, ◌≡◌, refl, none, some, [], ◌∷◌, ◌++◌, append-nil,
  length, arith,
}
use mizan_labs_v.Formula.{
  Numbers, add, sub, mul, div, rem, pow, Node, num, str, name, attr, index, dot, unary, binary,
  compare, not_node, and_node, or_node, ternary, call, lambda, Chain, end, link, Nodes, no_nodes,
  node,
}
use mizan_labs_v.Formula.Tokens.{
  Punct, plus, minus, star, slash, percent, caret, question, colon, lbrack, rbrack, lbrace, rbrace,
  number, string, lparen, rparen, ident, punct, Tokens, got,
}
use mizan_labs_v.Formula.Parser.{expr, comparison_more, more_args, max_depth, parse_tokens, finish}
use mizan_labs_v.Formula.Parser.Levels.{Closes, at_end, Closes-IsClosed, comparison_more_stops}
use mizan_labs_v.Formula.Parser.Rise.{Reads}
use mizan_labs_v.Formula.Parser.Printer.{emit, emit_parts, IsPrintable, depth}
use mizan_labs_v.Formula.Parser.Infix.{
  suc4, parens, parens_append, infix_append, in_parens_append, length-parens, length-in_parens,
  length-infix, length-tokens, append_assoc_lem, mul_lem, div_lem, rem_lem, add_lem, sub_lem,
  and_lem, or_lem,
}
use mizan_labs_v.Formula.Parser.Forms.{
  number_lem, string_lem, dot_part_lem, dot_lem, unary_lem, not_lem, attr_lem, lambda_lem,
  index_lem, pow_lem, ternary_lem,
}
use mizan_labs_v.Formula.Parser.Links.{
  name_lem, call_lem, call_no_args, link_lem, compare_lem, length-parts, more-Closes, no_more,
  next_arg, chain-Stops,
}
use mizan_labs_v.Formula.Parser.Printer.{
  emit_chain, emit_more, ArePrintable, AllPrintable, chain_depth, args_depth, compare_sign,
}

-- Fuel from 14 on, by what is left of it.
spend {ℓ} :
    (P : ℕ → Type ℓ) (m : ℕ)
    → ((g : ℕ) → m ≤ g → P (suc4 (suc4 (suc4 (suc (suc g))))))
    → (f : ℕ) → m + 14 ≤ f
    → P f
spend P m k f h = subst P (omega arith) (k (f - 14) (omega arith))

module _ (N : Numbers) (read : String → N.Decimal) (show : N.Decimal → String)
    (back : (x : N.Decimal) → read (show x) ≡ x) where
  mutual
    unfolding emit depth IsPrintable

    reads : (n : Node N) → Reads N read show n
    reads (num x) d f rest closes p h fuel =
        spend (λ f. expr N read f d (number (show x) ∷ rest) ≡ got (num x, rest)) 12
          (λ g least.
            subst
              (λ y.
                expr N read (suc4 (suc4 (suc4 (suc (suc g))))) d (number (show x) ∷ rest)
                ≡ got (num y, rest))
              (back x) (number_lem N read show d (suc g) rest closes (omega arith) (show x)))
          f (omega arith)
    reads (str s) d f rest closes p h fuel =
        (spend (λ f. expr N read f d (string s ∷ rest) ≡ got (str s, rest)) (12)
          (λ g least. string_lem N read show d (suc g) rest closes (omega arith) s) f
          (omega (arith)))
    reads (name s parts) d f rest closes p h fuel =
        (spend
          (λ f. expr N read f d (ident s ∷ (emit_parts parts ++ rest)) ≡ got (name s parts, rest))
          (14 * length (emit_parts parts) + 12)
          (λ g least.
            name_lem N read show d (suc g) rest closes (omega arith) s parts p
              (omega (arith, length-parts N read show parts)))
          f (omega (arith)))
    reads (attr a part) d f rest closes p h fuel =
        rw (parens_append (emit N show a) (punct Punct.dot ∷ ident part ∷ []) rest) (
          spend
            (λ f.
              expr N read f d (parens (emit N show a) (punct Punct.dot ∷ ident part ∷ rest))
              ≡ got (attr a part, rest))
            (14 * length (emit N show a) + 20)
            (λ g least.
              attr_lem N read show d (suc g) rest closes (omega arith) a (reads a) p.1 (omega arith)
                (omega arith) part p.0)
            f (omega (arith, length-parens (emit N show a) (punct Punct.dot ∷ ident part ∷ []))))
    reads (index a b) d f rest closes p h fuel =
        rw
          (
            parens_append (emit N show a) (punct lbrack ∷ ((emit N show b) ++ (punct rbrack ∷ [])))
                rest,
            append_assoc_lem (emit N show b) (punct rbrack ∷ []) rest,
          )
          (spend
            (λ f.
              expr N read f d
                (parens (emit N show a) (punct lbrack ∷ ((emit N show b) ++ (punct rbrack ∷ rest))))
              ≡ got (index a b, rest))
            (14 * (length (emit N show a) + length (emit N show b)) + 20)
            (λ g least.
              index_lem N read show d (suc g) rest closes (omega arith) a b (reads a) (reads b) p.0
                p.1 (omega arith) (omega arith) (omega arith) (omega arith))
            f
            (omega (
              arith,
              length-parens (emit N show a)
                  (punct lbrack ∷ ((emit N show b) ++ (punct rbrack ∷ []))),
              length-tokens (emit N show b) (punct rbrack ∷ []),
            )))
    reads (dot none) d f rest closes p h fuel =
        (spend (λ f. expr N read f d (punct Punct.dot ∷ rest) ≡ got (dot none, rest)) (12)
          (λ g least. dot_lem N read show d (suc g) rest closes (omega arith)) f (omega (arith)))
    reads (dot (some part)) d f rest closes p h fuel =
        (spend
          (λ f. expr N read f d (punct Punct.dot ∷ ident part ∷ rest) ≡ got (dot (some part), rest))
          (12) (λ g least. dot_part_lem N read show d (suc g) rest closes (omega arith) part) f
          (omega (arith)))
    reads (unary a) d f rest closes p h fuel = rw (in_parens_append (emit N show a) rest) (
        spend
          (λ f. expr N read f d (punct minus ∷ parens (emit N show a) rest) ≡ got (unary a, rest))
          (14 * length (emit N show a) + 20)
          (λ g least.
            unary_lem N read show d (suc g) rest closes (omega arith) a (reads a) p (omega arith)
              (omega arith))
          f (omega (arith, length-in_parens (emit N show a))))
    reads (binary add a b) d f rest closes p h fuel =
        rw (infix_append (emit N show a) (emit N show b) rest (punct plus)) (
          spend
            (λ f.
              expr N read f d (parens (emit N show a) (punct plus ∷ parens (emit N show b) rest))
              ≡ got (binary add a b, rest))
            (14 * (length (emit N show a) + length (emit N show b)) + 20)
            (λ g least.
              add_lem N read show d (suc g) rest closes (omega arith) a b (reads a) (reads b) p.0
                p.1 (omega arith) (omega arith) (omega arith) (omega arith))
            f (omega (arith, length-infix (emit N show a) (emit N show b) (punct plus))))
    reads (binary sub a b) d f rest closes p h fuel =
        rw (infix_append (emit N show a) (emit N show b) rest (punct minus)) (
          spend
            (λ f.
              expr N read f d (parens (emit N show a) (punct minus ∷ parens (emit N show b) rest))
              ≡ got (binary sub a b, rest))
            (14 * (length (emit N show a) + length (emit N show b)) + 20)
            (λ g least.
              sub_lem N read show d (suc g) rest closes (omega arith) a b (reads a) (reads b) p.0
                p.1 (omega arith) (omega arith) (omega arith) (omega arith))
            f (omega (arith, length-infix (emit N show a) (emit N show b) (punct minus))))
    reads (binary mul a b) d f rest closes p h fuel =
        rw (infix_append (emit N show a) (emit N show b) rest (punct star)) (
          spend
            (λ f.
              expr N read f d (parens (emit N show a) (punct star ∷ parens (emit N show b) rest))
              ≡ got (binary mul a b, rest))
            (14 * (length (emit N show a) + length (emit N show b)) + 20)
            (λ g least.
              mul_lem N read show d (suc g) rest closes (omega arith) a b (reads a) (reads b) p.0
                p.1 (omega arith) (omega arith) (omega arith) (omega arith))
            f (omega (arith, length-infix (emit N show a) (emit N show b) (punct star))))
    reads (binary div a b) d f rest closes p h fuel =
        rw (infix_append (emit N show a) (emit N show b) rest (punct slash)) (
          spend
            (λ f.
              expr N read f d (parens (emit N show a) (punct slash ∷ parens (emit N show b) rest))
              ≡ got (binary div a b, rest))
            (14 * (length (emit N show a) + length (emit N show b)) + 20)
            (λ g least.
              div_lem N read show d (suc g) rest closes (omega arith) a b (reads a) (reads b) p.0
                p.1 (omega arith) (omega arith) (omega arith) (omega arith))
            f (omega (arith, length-infix (emit N show a) (emit N show b) (punct slash))))
    reads (binary rem a b) d f rest closes p h fuel =
        rw (infix_append (emit N show a) (emit N show b) rest (punct percent)) (
          spend
            (λ f.
              expr N read f d (parens (emit N show a) (punct percent ∷ parens (emit N show b) rest))
              ≡ got (binary rem a b, rest))
            (14 * (length (emit N show a) + length (emit N show b)) + 20)
            (λ g least.
              rem_lem N read show d (suc g) rest closes (omega arith) a b (reads a) (reads b) p.0
                p.1 (omega arith) (omega arith) (omega arith) (omega arith))
            f (omega (arith, length-infix (emit N show a) (emit N show b) (punct percent))))
    reads (binary pow a b) d f rest closes p h fuel =
        rw (infix_append (emit N show a) (emit N show b) rest (punct caret)) (
          spend
            (λ f.
              expr N read f d (parens (emit N show a) (punct caret ∷ parens (emit N show b) rest))
              ≡ got (binary pow a b, rest))
            (14 * (length (emit N show a) + length (emit N show b)) + 20)
            (λ g least.
              pow_lem N read show d g rest closes (omega arith) a b (reads a) (reads b) p.0 p.1
                (omega arith) (omega arith) (omega arith) (omega arith) (omega arith) (omega arith))
            f (omega (arith, length-infix (emit N show a) (emit N show b) (punct caret))))
    reads (compare a end) d f rest closes p h fuel = elim p [ ]
    reads (compare a (link op m chain)) d f rest closes p h fuel =
        rw (parens_append (emit N show a) (emit_chain N show (link op m chain)) rest) (
          spend
            (λ f.
              expr N read f d
                (parens (emit N show a) ((emit_chain N show (link op m chain)) ++ rest))
              ≡ got (compare a (link op m chain), rest))
            (14 * (length (emit N show a) + length (emit_chain N show (link op m chain))) + 20)
            (λ g least.
              compare_lem N read show op a m chain d (suc g)
                ((emit_chain N show (link op m chain)) ++ rest) rest (Closes-IsClosed closes)
                (omega arith) (reads a) p.0 (omega arith) (omega arith)
                (chain-Stops N read show (link op m chain) rest (Closes-IsClosed closes))
                (reads_chain (link op m chain) (suc d) (suc4 (suc4 g)) rest closes (p.1, p.2)
                  (omega arith) (omega arith)))
            f (omega (arith, length-parens (emit N show a) (emit_chain N show (link op m chain)))))
    reads (not_node a) d f rest closes p h fuel = rw (in_parens_append (emit N show a) rest) (
        spend
          (λ f.
            expr N read f d (ident "not" ∷ parens (emit N show a) rest) ≡ got (not_node a, rest))
          (14 * length (emit N show a) + 20)
          (λ g least.
            not_lem N read show d (suc g) rest closes (omega arith) a (reads a) p (omega arith)
              (omega arith))
          f (omega (arith, length-in_parens (emit N show a))))
    reads (and_node a b) d f rest closes p h fuel =
        rw (infix_append (emit N show a) (emit N show b) rest (ident "and")) (
          spend
            (λ f.
              expr N read f d (parens (emit N show a) (ident "and" ∷ parens (emit N show b) rest))
              ≡ got (and_node a b, rest))
            (14 * (length (emit N show a) + length (emit N show b)) + 20)
            (λ g least.
              and_lem N read show d (suc g) rest closes (omega arith) a b (reads a) (reads b) p.0
                p.1 (omega arith) (omega arith) (omega arith) (omega arith))
            f (omega (arith, length-infix (emit N show a) (emit N show b) (ident "and"))))
    reads (or_node a b) d f rest closes p h fuel =
        rw (infix_append (emit N show a) (emit N show b) rest (ident "or")) (
          spend
            (λ f.
              expr N read f d (parens (emit N show a) (ident "or" ∷ parens (emit N show b) rest))
              ≡ got (or_node a b, rest))
            (14 * (length (emit N show a) + length (emit N show b)) + 20)
            (λ g least.
              or_lem N read show d (suc g) rest closes (omega arith) a b (reads a) (reads b) p.0 p.1
                (omega arith) (omega arith) (omega arith) (omega arith))
            f (omega (arith, length-infix (emit N show a) (emit N show b) (ident "or"))))
    reads (ternary c a b) d f rest closes p h fuel =
        rw
          (
            parens_append (emit N show c)
                (punct question ∷ ((emit N show a) ++ (punct colon ∷ (emit N show b)))) rest,
            append_assoc_lem (emit N show a) (punct colon ∷ (emit N show b)) rest,
          )
          (spend
            (λ f.
              expr N read f d (
                parens (emit N show c)
                  (punct question ∷ ((emit N show a) ++ (punct colon ∷ ((emit N show b) ++ rest)))))
              ≡ got (ternary c a b, rest))
            (14 * (length (emit N show c) + length (emit N show a) + length (emit N show b)) + 20)
            (λ g least.
              ternary_lem N read show d (suc g) rest closes (omega arith) a b (reads a) (reads b)
                p.1 p.2 (omega arith) (omega arith) (omega arith) (omega arith) c (reads c) p.0
                (omega arith) (omega arith))
            f
            (omega (
              arith,
              length-parens (emit N show c)
                  (punct question ∷ ((emit N show a) ++ (punct colon ∷ (emit N show b)))),
              length-tokens (emit N show a) (punct colon ∷ (emit N show b)),
            )))
    reads (call s no_nodes) d f rest closes p h fuel =
        (spend
          (λ f.
            expr N read f d (ident s ∷ punct lparen ∷ punct rparen ∷ rest)
            ≡ got (call s no_nodes, rest))
          (20) (λ g least. call_no_args N read show d (suc g) rest closes (omega arith) s p.0) f
          (omega (arith)))
    reads (call s (node a args)) d f rest closes p h fuel =
        rw (append_assoc_lem (emit N show a) (emit_more N show args) rest) (
          spend
            (λ f.
              expr N read f d
                (ident s ∷ punct lparen ∷ ((emit N show a) ++ ((emit_more N show args) ++ rest)))
              ≡ got (call s (node a args), rest))
            (14 * (length (emit N show a) + length (emit_more N show args)) + 20)
            (λ g least.
              call_lem N read show d (suc g) rest closes (omega arith) s a args
                ((emit_more N show args) ++ rest) p.0 (reads a) p.1.0 (omega arith) (omega arith)
                (more-Closes N read show args rest)
                (reads_more args (suc d) (suc (suc g)) rest p.1.1 (omega arith) (omega arith)))
            f (omega (arith, length-tokens (emit N show a) (emit_more N show args))))
    reads (lambda a) d f rest closes p h fuel =
        rw (append_assoc_lem (emit N show a) (punct rbrace ∷ []) rest) (
          spend
            (λ f.
              expr N read f d (punct lbrace ∷ ((emit N show a) ++ (punct rbrace ∷ rest)))
              ≡ got (lambda a, rest))
            (14 * length (emit N show a) + 20)
            (λ g least.
              lambda_lem N read show d (suc g) rest closes (omega arith) a (reads a) p (omega arith)
                (omega arith))
            f (omega (arith, length-tokens (emit N show a) (punct rbrace ∷ []))))

    reads_chain :
        (chain : Chain N) (d f : ℕ) (rest : Tokens)
        → Closes rest
        → ArePrintable chain
        → chain_depth chain + d ≤ max_depth
        → 14 * length (emit_chain N show chain) + 1 ≤ f
        → comparison_more N read f d (emit_chain N show chain ++ rest) ≡ got (chain, rest)
    reads_chain end d zero rest closes p h fuel = absurd (omega arith)
    reads_chain end d (suc f) rest closes p h fuel =
        comparison_more_stops N read f d rest (Closes-IsClosed closes).no_compare
    reads_chain (link op n chain) d f rest closes p h fuel =
        rw (parens_append (emit N show n) (emit_chain N show chain) rest) (
          spend
            (λ f.
              comparison_more N read f d
                (punct (compare_sign op) ∷ parens (emit N show n) (emit_chain N show chain ++ rest))
              ≡ got (link op n chain, rest))
            (14 * (length (emit N show n) + length (emit_chain N show chain)) + 20)
            (λ g least.
              link_lem N read show op n chain d (suc4 (suc (suc (suc g))))
                (emit_chain N show chain ++ rest) rest (reads n) p.0 (omega arith) (omega arith)
                (chain-Stops N read show chain rest (Closes-IsClosed closes))
                (reads_chain chain d (suc4 (suc4 (suc4 (suc g)))) rest closes p.1 (omega arith)
                  (omega arith)))
            f (omega (arith, length-parens (emit N show n) (emit_chain N show chain))))

    reads_more :
        (args : Nodes N) (d f : ℕ) (rest : Tokens)
        → AllPrintable args
        → args_depth args + d ≤ max_depth
        → 14 * length (emit_more N show args) + 1 ≤ f
        → more_args N read f d (emit_more N show args ++ rest) ≡ got (args, punct rparen ∷ rest)
    reads_more no_nodes d zero rest p h fuel = absurd (omega arith)
    reads_more no_nodes d (suc f) rest p h fuel = no_more N read show d f rest
    reads_more (node n args) d zero rest p h fuel = absurd (omega arith)
    reads_more (node n args) d (suc f) rest p h fuel =
        let size = length-tokens (emit N show n) (emit_more N show args) in
        rw (append_assoc_lem (emit N show n) (emit_more N show args) rest) (
          next_arg N read show n args d f ((emit_more N show args) ++ rest) (punct rparen ∷ rest)
            (reads n d f ((emit_more N show args) ++ rest) (more-Closes N read show args rest) p.0
              (omega arith) (omega arith))
            (reads_more args d f rest p.1 (omega arith) (omega arith)))

  -- A formula in which no name or function is spelled `not`, no attribute is of a name, and each
  -- comparison has an operator, and that does not nest deeper than the parser allows, is what its
  -- printed tokens parse to, where a number's text reads back as the number.
  pub parse_tokens-emit :
      (n : Node N)
      → IsPrintable n
      → depth n ≤ max_depth
      → parse_tokens N read (emit N show n) ≡ got n
  unfolding parse_tokens finish
  parse_tokens-emit n printable shallow =
      let whole =
        reads n 0 (14 * length (emit N show n) + 12) [] at_end printable (omega arith)
          (omega arith) in
      rw (rw append-nil at whole) refl
