-- ===== src/Formula/Parser/Printer.antt =====
-- Formulas written as tokens, every operand of an operator in parentheses. `show` writes a number.
use mizan_labs_v.Prelude.{ℕ, suc, String, ◌≢◌, none, some, List, [], ◌∷◌, ◌++◌}
use Prim.Native.Nat.{max}
use mizan_labs_v.Formula.{
  Numbers, BinaryOp, add, sub, mul, div, rem, pow, CompareOp, eq, ne, lt, le, gt, ge, Node, num,
  str, name, attr, index, dot, unary, binary, compare, not_node, and_node, or_node, ternary, call,
  lambda, Chain, end, link, Nodes, no_nodes, node,
}
use mizan_labs_v.Formula.Tokens.{
  Punct, eq_eq, not_eq, less_eq, greater_eq, minus, plus, star, slash, percent, caret, less,
  greater, lparen, rparen, lbrack, rbrack, lbrace, rbrace, comma, question, colon, number, string,
  ident, punct, Tokens,
}

abbrev pub binary_sign : BinaryOp → Punct
binary_sign add = plus
binary_sign sub = minus
binary_sign mul = star
binary_sign div = slash
binary_sign rem = percent
binary_sign pow = caret

abbrev pub compare_sign : CompareOp → Punct
compare_sign eq = eq_eq
compare_sign ne = not_eq
compare_sign lt = less
compare_sign le = less_eq
compare_sign gt = greater
compare_sign ge = greater_eq

abbrev pub emit_parts : List String → Tokens
emit_parts [] = []
emit_parts (part ∷ parts) = punct Punct.dot ∷ ident part ∷ emit_parts parts

-- A token list between parentheses.
abbrev pub in_parens : Tokens → Tokens
in_parens ts = punct lparen ∷ (ts ++ (punct rparen ∷ []))

module _ (N : Numbers) (show : N.Decimal → String) where
  unfoldable mutual
    pub emit : Node N → Tokens
    emit (num d) = number (show d) ∷ []
    emit (str s) = string s ∷ []
    emit (name s parts) = ident s ∷ emit_parts parts
    emit (attr n part) = in_parens (emit n) ++ (punct Punct.dot ∷ ident part ∷ [])
    emit (index n i) = in_parens (emit n) ++ (punct lbrack ∷ (emit i ++ (punct rbrack ∷ [])))
    emit (dot none) = punct Punct.dot ∷ []
    emit (dot (some part)) = punct Punct.dot ∷ ident part ∷ []
    emit (unary n) = punct minus ∷ in_parens (emit n)
    emit (binary op a b) = in_parens (emit a) ++ (punct (binary_sign op) ∷ in_parens (emit b))
    emit (compare n chain) = in_parens (emit n) ++ emit_chain chain
    emit (not_node n) = ident "not" ∷ in_parens (emit n)
    emit (and_node a b) = in_parens (emit a) ++ (ident "and" ∷ in_parens (emit b))
    emit (or_node a b) = in_parens (emit a) ++ (ident "or" ∷ in_parens (emit b))
    emit (ternary c x y) =
        in_parens (emit c) ++ (punct question ∷ (emit x ++ (punct colon ∷ emit y)))
    emit (call s args) = ident s ∷ punct lparen ∷ emit_args args
    emit (lambda body) = punct lbrace ∷ (emit body ++ (punct rbrace ∷ []))

    pub emit_chain : Chain N → Tokens
    emit_chain end = []
    emit_chain (link op n chain) =
        punct (compare_sign op) ∷ (in_parens (emit n) ++ emit_chain chain)

    pub emit_args : Nodes N → Tokens
    emit_args no_nodes = punct rparen ∷ []
    emit_args (node n args) = emit n ++ emit_more args

    pub emit_more : Nodes N → Tokens
    emit_more no_nodes = punct rparen ∷ []
    emit_more (node n args) = punct comma ∷ (emit n ++ emit_more args)

module _ {N : Numbers} where
  -- No name or function is spelled `not`, which would read back as the operator (the parser gives such
  -- a name for a `not` where it wants an operand); an attribute is not of a name, which would grow
  -- instead; and a comparison has an operator.
  abbrev pub IsNoName : Node N → Type 0
  IsNoName (name s parts) = ⊥
  IsNoName _ = Unit

  unfoldable mutual
    pub IsPrintable : Node N → Type 0
    IsPrintable (num d) = Unit
    IsPrintable (str s) = Unit
    IsPrintable (name s parts) = s ≢ "not"
    IsPrintable (attr n part) = IsNoName n × IsPrintable n
    IsPrintable (index n i) = IsPrintable n × IsPrintable i
    IsPrintable (dot part) = Unit
    IsPrintable (unary n) = IsPrintable n
    IsPrintable (binary op a b) = IsPrintable a × IsPrintable b
    IsPrintable (compare n end) = ⊥
    IsPrintable (compare n (link op m chain)) = IsPrintable n × IsPrintable m × ArePrintable chain
    IsPrintable (not_node n) = IsPrintable n
    IsPrintable (and_node a b) = IsPrintable a × IsPrintable b
    IsPrintable (or_node a b) = IsPrintable a × IsPrintable b
    IsPrintable (ternary c x y) = IsPrintable c × IsPrintable x × IsPrintable y
    IsPrintable (call s args) = (s ≢ "not") × AllPrintable args
    IsPrintable (lambda body) = IsPrintable body

    pub ArePrintable : Chain N → Type 0
    ArePrintable end = Unit
    ArePrintable (link op n chain) = IsPrintable n × ArePrintable chain

    pub AllPrintable : Nodes N → Type 0
    AllPrintable no_nodes = Unit
    AllPrintable (node n args) = IsPrintable n × AllPrintable args

  -- How deep the parser nests in the tokens of a formula.
  unfoldable mutual
    pub depth : Node N → ℕ
    depth (attr n part) = suc (depth n)
    depth (index n i) = suc (max (depth n) (depth i))
    depth (unary n) = suc (depth n)
    depth (binary pow a b) = suc (max (depth a) (suc (depth b)))
    depth (binary op a b) = suc (max (depth a) (depth b))
    depth (compare n chain) = suc (max (depth n) (chain_depth chain))
    depth (not_node n) = suc (depth n)
    depth (and_node a b) = suc (max (depth a) (depth b))
    depth (or_node a b) = suc (max (depth a) (depth b))
    depth (ternary c x y) = suc (max (depth c) (max (depth x) (depth y)))
    depth (call s args) = suc (args_depth args)
    depth (lambda body) = suc (depth body)
    depth _ = 1

    pub chain_depth : Chain N → ℕ
    chain_depth end = 0
    chain_depth (link op n chain) = max (depth n) (chain_depth chain)

    pub args_depth : Nodes N → ℕ
    args_depth no_nodes = 0
    args_depth (node n args) = max (depth n) (args_depth args)
