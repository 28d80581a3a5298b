-- ===== src/Formula/Parser/Links.antt =====
-- Dotted names, calls and comparison chains.
use mizan_labs_v.Prelude.{
  ℕ, zero, suc, ◌+◌, ◌*◌, ◌≤◌, ◌<◌, String, ◌≡◌, ◌≢◌, refl, ◌∙◌, none, some, List, [], ◌∷◌, ◌++◌,
  append_assoc, eq_iff, append-nil, length, arith,
}
use mizan_labs_v.Formula.{
  Numbers, CompareOp, eq, ne, lt, le, gt, ge, Node, name, dot, compare, call, Chain, end, link,
  Nodes, no_nodes, node,
}
use mizan_labs_v.Formula.Tokens.{comma, lparen, rparen, ident, punct, Tokens, got}
use mizan_labs_v.Formula.Parser.{
  after_word, after_caret, after_minus, compare_op, additive_op, term_op, after_rparen,
  expect_punct, postfix_op, expr, comparison, comparison_more, primary, postfix, call_args,
  more_args, max_depth,
}
use mizan_labs_v.Formula.Parser.Levels.{
  Closes, at_rparen, at_comma, IsClosed, Closes-IsClosed, postfix_stops,
}
use mizan_labs_v.Formula.Parser.Rise.{Reads, expr-comparison, expr-primary, operand-additive}
use mizan_labs_v.Formula.Parser.Printer.{emit, emit_parts, IsPrintable, depth}
use mizan_labs_v.Formula.Parser.Infix.{suc4, parens}
use mizan_labs_v.Formula.Parser.Printer.{emit_chain, emit_more, compare_sign}
use mizan_labs_v.Formula.Parser.{after_lparen, expect_ident, after_comma}

parts_after :
    (parts : List String) (rest : Tokens)
    → after_lparen rest ≡ none
    → after_lparen (emit_parts parts ++ rest) ≡ none
unfolding after_lparen
parts_after [] rest h = h
parts_after (part ∷ parts) rest h = refl

module _ (N : Numbers) (read : String → N.Decimal) (show : N.Decimal → String) where
  postfix-parts :
      (s : String) (pre parts : List String) (f d : ℕ) (rest : Tokens)
      → postfix_op rest ≡ none
      → length parts ≤ f
      → postfix N read (suc f) d (name s pre) (emit_parts parts ++ rest)
        ≡ got (name s (pre ++ parts), rest)
  unfolding postfix postfix_op expect_ident
  postfix-parts s pre [] f d rest h bound =
      rw append-nil (postfix_stops N read f d (name s pre) rest h)
  postfix-parts s pre (part ∷ parts) zero d rest h bound = absurd (omega arith)
  postfix-parts s pre (part ∷ parts) (suc f) d rest h bound =
      postfix-parts s (pre ++ (part ∷ [])) parts f d rest h (omega arith) ∙ rw append_assoc refl

  pub length-parts : (parts : List String) → length (emit_parts parts) ≡ 2 * length parts
  length-parts [] = refl
  length-parts (part ∷ parts) = omega (arith, length-parts parts)

  -- No formula starts with a closing parenthesis.
  emit-no_rparen : (n : Node N) (ts : Tokens) → after_rparen (emit N show n ++ ts) ≡ none
  unfolding emit after_rparen
  emit-no_rparen (dot none) ts = refl
  emit-no_rparen (dot (some part)) ts = refl
  emit-no_rparen _ ts = refl

  not_word : (s : String) (ts : Tokens) → s ≢ "not" → after_word "not" (ident s ∷ ts) ≡ none
  unfolding after_word
  not_word s ts h = ground (arith, eq_iff s "not")

  module _ (d g : ℕ) (rest : Tokens) (closes : Closes rest) (small : d < max_depth) where
    closed : IsClosed rest
    closed = Closes-IsClosed closes

    pub name_lem :
        (s : String) (parts : List String)
        → s ≢ "not"
        → length parts ≤ g
        → expr N read (suc4 (suc4 (suc4 (suc g)))) d (ident s ∷ (emit_parts parts ++ rest))
          ≡ got (name s parts, rest)
    unfolding after_minus primary
    name_lem s parts h bound =
        expr-primary N read (name s parts) (ident s ∷ (emit_parts parts ++ rest)) rest d closed
          small (suc (suc (suc g)))
          (rw (primary, parts_after parts rest closed.no_lparen)
            (postfix-parts s [] parts (suc g) (suc d) rest closed.no_postfix (omega arith)))
          refl (not_word s (emit_parts parts ++ rest) h)

    pub call_no_args :
        (s : String)
        → s ≢ "not"
        → expr N read (suc4 (suc4 (suc4 (suc g)))) d (ident s ∷ punct lparen ∷ punct rparen ∷ rest)
          ≡ got (call s no_nodes, rest)
    unfolding primary call_args after_minus after_lparen after_rparen
    call_no_args s h =
        expr-primary N read (call s no_nodes) (ident s ∷ punct lparen ∷ punct rparen ∷ rest) rest d
          closed small (suc (suc (suc g)))
          (postfix_stops N read g (suc d) (call s no_nodes) rest closed.no_postfix) refl
          (not_word s (punct lparen ∷ punct rparen ∷ rest) h)

    -- A first argument and what reads the others.
    pub call_lem :
        (s : String) (n : Node N) (args : Nodes N) (more : Tokens)
        → s ≢ "not"
        → Reads N read show n
        → IsPrintable n
        → depth n + suc d ≤ max_depth
        → 14 * length (emit N show n) + 12 ≤ suc g
        → Closes more
        → more_args N read (suc g) (suc d) more ≡ got (args, punct rparen ∷ rest)
        → expr N read
            (suc4 (suc4 (suc4 (suc g))))
            d
            (ident s ∷ punct lparen ∷ (emit N show n ++ more))
          ≡ got (call s (node n args), rest)
    unfolding after_minus after_lparen after_rparen expect_punct primary
    call_lem s n args more h rn pn dn fn at_more others =
        expr-primary N read (call s (node n args))
          (ident s ∷ punct lparen ∷ (emit N show n ++ more)) rest d closed small (suc (suc (suc g)))
          (rw (primary, call_args, emit-no_rparen n more)
            (rw (rn (suc d) (suc g) more at_more pn dn fn) (
              rw others
                (postfix_stops N read g (suc d) (call s (node n args)) rest closed.no_postfix))))
          refl (not_word s (punct lparen ∷ (emit N show n ++ more)) h)

  -- What an operand of a comparison is followed by.
  pub record Stops (ts : Tokens) : Type 0 where
    pub postfix_stop : postfix_op ts ≡ none
    pub caret_stop : after_caret ts ≡ none
    pub term_stop : term_op ts ≡ none
    pub additive_stop : additive_op ts ≡ none

  pub chain-Stops :
      (chain : Chain N) (rest : Tokens) → IsClosed rest → Stops (emit_chain N show chain ++ rest)
  unfolding postfix_op after_caret term_op additive_op emit_chain
  chain-Stops end rest none_of = record {
    postfix_stop = none_of.no_postfix;
    caret_stop = none_of.no_caret;
    term_stop = none_of.no_term;
    additive_stop = none_of.no_additive;
  }
  chain-Stops (link eq n chain) rest none_of = record {
    postfix_stop = refl;
    caret_stop = refl;
    term_stop = refl;
    additive_stop = refl;
  }
  chain-Stops (link ne n chain) rest none_of = record {
    postfix_stop = refl;
    caret_stop = refl;
    term_stop = refl;
    additive_stop = refl;
  }
  chain-Stops (link lt n chain) rest none_of = record {
    postfix_stop = refl;
    caret_stop = refl;
    term_stop = refl;
    additive_stop = refl;
  }
  chain-Stops (link le n chain) rest none_of = record {
    postfix_stop = refl;
    caret_stop = refl;
    term_stop = refl;
    additive_stop = refl;
  }
  chain-Stops (link gt n chain) rest none_of = record {
    postfix_stop = refl;
    caret_stop = refl;
    term_stop = refl;
    additive_stop = refl;
  }
  chain-Stops (link ge n chain) rest none_of = record {
    postfix_stop = refl;
    caret_stop = refl;
    term_stop = refl;
    additive_stop = refl;
  }

  compare_op-sign :
      (op : CompareOp) (ts : Tokens) → compare_op (punct (compare_sign op) ∷ ts) ≡ some (op, ts)
  unfolding compare_op
  compare_op-sign eq ts = refl
  compare_op-sign ne ts = refl
  compare_op-sign lt ts = refl
  compare_op-sign le ts = refl
  compare_op-sign gt ts = refl
  compare_op-sign ge ts = refl

  -- One link of a chain, and what reads the others.
  pub link_lem :
      (op : CompareOp) (n : Node N) (chain : Chain N) (d g : ℕ) (more rest : Tokens)
      → Reads N read show n
      → IsPrintable n
      → depth n + d ≤ max_depth
      → 14 * length (emit N show n) + 12 ≤ g
      → Stops more
      → comparison_more N read (suc4 (suc (suc g))) d more ≡ got (chain, rest)
      → comparison_more N read
          (suc4 (suc (suc (suc g))))
          d
          (punct (compare_sign op) ∷ parens (emit N show n) more)
        ≡ got (link op n chain, rest)
  unfolding comparison_more
  link_lem op n chain d g more rest rn pn dn fn stops others =
      rw (comparison_more, compare_op-sign op (parens (emit N show n) more))
        (rw
          (operand-additive N read show n rn pn d g more dn (omega arith) stops.postfix_stop
            stops.caret_stop stops.term_stop stops.additive_stop)
          (rw others refl))

  pub compare_lem :
      (op : CompareOp) (n m : Node N) (chain : Chain N) (d g : ℕ) (more rest : Tokens)
      → IsClosed rest
      → d < max_depth
      → Reads N read show n
      → IsPrintable n
      → depth n + suc d ≤ max_depth
      → 14 * length (emit N show n) + 12 ≤ g
      → Stops more
      → comparison_more N read (suc4 (suc (suc (suc g)))) (suc d) more ≡ got (link op m chain, rest)
      → expr N read (suc4 (suc4 (suc4 (suc g)))) d (parens (emit N show n) more)
        ≡ got (compare n (link op m chain), rest)
  unfolding after_word comparison
  compare_lem op n m chain d g more rest stop small rn pn dn fn stops others =
      expr-comparison N read (compare n (link op m chain)) (parens (emit N show n) more) rest d stop
        small (suc4 (suc4 g))
        (rw
          (
            comparison,
            operand-additive N read show n rn pn (suc d) (suc g) more dn (omega arith)
                stops.postfix_stop stops.caret_stop stops.term_stop stops.additive_stop,
          )
          (rw others refl))
        refl

  -- Arguments go on with a comma or end with a parenthesis.
  pub more-Closes : (args : Nodes N) (rest : Tokens) → Closes (emit_more N show args ++ rest)
  unfolding emit_more
  more-Closes no_nodes rest = at_rparen rest
  more-Closes (node n args) rest = at_comma _

  pub no_more :
      (d f : ℕ) (rest : Tokens)
      → more_args N read (suc f) d (punct rparen ∷ rest) ≡ got (no_nodes, punct rparen ∷ rest)
  unfolding more_args after_comma
  no_more d f rest = refl

  pub next_arg :
      (n : Node N) (args : Nodes N) (d f : ℕ) (more rest : Tokens)
      → expr N read f d (emit N show n ++ more) ≡ got (n, more)
      → more_args N read f d more ≡ got (args, rest)
      → more_args N read (suc f) d (punct comma ∷ (emit N show n ++ more)) ≡ got (node n args, rest)
  unfolding more_args after_comma
  next_arg n args d f more rest first others = rw (more_args, first) (rw others refl)
