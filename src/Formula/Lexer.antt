-- ===== src/Formula/Lexer.antt =====
-- The lexer of formulas (backend/mizan/platform/formula/lexer.py): `_TOKEN_RE`, by the alternative that
-- the first character selects, and the loop of `tokenize`, on fuel. The decimal digits of Unicode
-- (`\d`) and the decoding of the escapes of a string (`unicode_escape`), which may fail, are arguments.
pub mod Laws
use Prim.Native.Char.{Char, code}
use mizan_labs_v.Prelude.{
  ℕ, zero, suc, ◌+◌, String, Bool, true, false, ◌&&◌, ◌||◌, not, Option, none, some, List, [], ◌∷◌,
  ltb, leb, ◌==◌, if◌then◌else◌,
}
use mizan_labs_v.Text.{is_space, is_nil, span, concat, size}
use mizan_labs_v.Formula.Tokens.{
  Punct, eq_eq, not_eq, less_eq, greater_eq, minus, plus, star, slash, percent, caret, less,
  greater, lparen, rparen, lbrack, rbrack, lbrace, rbrace, comma, dot, question, colon, Token,
  number, string, ident, punct, Tokens,
}

abbrev pub max_tokens : ℕ
max_tokens = 2000

-- A match: of white space, or of a token by its text (of a string, what is between the quotes).
pub data Match : Type 0 where
  white : Match
  token : Token → Match

-- `bad_escape` is the UnicodeDecodeError of the codec, `lost` has no counterpart in the program.
pub data Lexed : Type 0 where
  lexed : Tokens → Lexed
  unexpected_character too_long bad_escape lost : Lexed

abbrev pub is_letter : ℕ → Bool
is_letter c = (leb b'a' c && leb c b'z') || (leb b'A' c && leb c b'Z') || c == b'_'

abbrev pub is_ident_part : ℕ → Bool
is_ident_part c = is_letter c || (leb b'0' c && leb c b'9')

-- The signs of one character, and of two.
abbrev pub sign : ℕ → Option Punct
sign c =
    if c == b'-'
    then some minus
    else if c == b'+'
    then some plus
    else if c == b'*'
    then some star
    else if c == b'/'
    then some slash
    else if c == b'%'
    then some percent
    else if c == b'^'
    then some caret
    else if c == b'<'
    then some less
    else if c == b'>'
    then some greater
    else if c == b'('
    then some lparen
    else if c == b')'
    then some rparen
    else if c == b'['
    then some lbrack
    else if c == b']'
    then some rbrack
    else if c == b'{'
    then some lbrace
    else if c == b'}'
    then some rbrace
    else if c == b','
    then some comma
    else if c == b'.'
    then some dot
    else if c == b'?'
    then some question
    else if c == b':'
    then some colon
    else none

abbrev pub double_sign : ℕ → ℕ → Option Punct
double_sign c d =
    if not (d == b'=')
    then none
    else if c == b'='
    then some eq_eq
    else if c == b'!'
    then some not_eq
    else if c == b'<'
    then some less_eq
    else if c == b'>'
    then some greater_eq
    else none

abbrev pub match_sign : Char → String → Option (Match × String)
match_sign c String.[] = elim (sign (code c)) [
  | none ↦ none
  | some p ↦ some (token (punct p), String.[])
]
match_sign c (String.◌∷◌ d s) = elim (double_sign (code c) (code d)) [
  | some p ↦ some (token (punct p), s)
  | none ↦ elim (sign (code c)) [ none ↦ none | some p ↦ some (token (punct p), String.◌∷◌ d s) ]
]

-- The rest of a string from after its opening quote: what stands before the closing one, and what
-- follows. A backslash takes any character with it but a newline.
unfoldable pub scan_string : ℕ → String → Option (String × String)
scan_string quote String.[] = none
scan_string quote (String.◌∷◌ c String.[]) =
    if code c == quote then some (String.[], String.[]) else none
scan_string quote (String.◌∷◌ c (String.◌∷◌ d s)) =
    let next = scan_string quote (String.◌∷◌ d s) in
    let after_escape = scan_string quote s in
    if code c == quote
    then some (String.[], String.◌∷◌ d s)
    else if code c == b'\\'
    then (if code d == b'\n' then none else elim after_escape [
      | none ↦ none
      | some (body, rest) ↦ some (String.◌∷◌ c (String.◌∷◌ d body), rest)
    ])
    else elim next [ none ↦ none | some (body, rest) ↦ some (String.◌∷◌ c body, rest) ]

module _ (is_decimal : ℕ → Bool) (unescape : String → Option String) where
  -- (?:\.\d+)?
  unfoldable pub fraction : String → String × String
  fraction String.[] = (String.[], String.[])
  fraction (String.◌∷◌ c s) =
      let (digits, rest) = span is_decimal s in
      if code c == b'.' && not (is_nil digits)
      then (String.◌∷◌ c digits, rest)
      else (String.[], String.◌∷◌ c s)

  -- [+-]?\d+
  unfoldable pub exponent_digits : String → Option (String × String)
  exponent_digits String.[] = none
  exponent_digits (String.◌∷◌ c s) =
      let signed = span is_decimal s in
      let bare = span is_decimal (String.◌∷◌ c s) in
      if code c == b'+' || code c == b'-'
      then (if is_nil signed.0 then none else some (String.◌∷◌ c signed.0, signed.1))
      else if is_nil bare.0
      then none
      else some bare

  -- (?:[eE][+-]?\d+)?
  unfoldable pub exponent : String → String × String
  unfolding exponent_digits
  exponent String.[] = (String.[], String.[])
  exponent (String.◌∷◌ c s) =
      if code c == b'e' || code c == b'E'
      then elim (exponent_digits s) [
        | none ↦ (String.[], String.◌∷◌ c s)
        | some (digits, rest) ↦ (String.◌∷◌ c digits, rest)
      ]
      else (String.[], String.◌∷◌ c s)

  -- The alternatives of the expression at a text that has a first character.
  unfoldable pub match_token : Char → String → Option (Match × String)
  unfolding fraction exponent scan_string
  match_token c s =
      let whole = String.◌∷◌ c s in
      if is_space (code c)
      then some (white, (span is_space s).1)
      else if is_decimal (code c)
      then (let (digits, after_digits) = span is_decimal s in
          let (part, after_part) = fraction after_digits in
          let (power, rest) = exponent after_part in
          some (token (number (String.◌∷◌ c (concat digits (concat part power)))), rest))
      else if code c == b'\'' || code c == b'"'
      then elim (scan_string (code c) s) [
        | none ↦ none
        | some (body, rest) ↦ some (token (string body), rest)
      ]
      else if is_letter (code c)
      then (let (letters, rest) = span is_ident_part s in
          some (token (ident (String.◌∷◌ c letters)), rest))
      else match_sign c s

  -- The token that a match gives: a string is decoded.
  abbrev pub decoded : Token → Option Token
  decoded (string s) = elim (unescape s) [ none ↦ none | some t ↦ some (string t) ]
  decoded t = some t

  abbrev pub with_token : Token → Lexed → Lexed
  with_token t (lexed ts) = lexed (t ∷ ts)
  with_token t e = e

  -- The loop, with the number of tokens that there are.
  unfoldable pub tokenize_from : ℕ → ℕ → String → Lexed
  unfolding match_token
  tokenize_from f count String.[] = lexed []
  tokenize_from zero count (String.◌∷◌ c s) = lost
  tokenize_from (suc f) count (String.◌∷◌ c s) = elim (match_token c s) [
    | none ↦ unexpected_character
    | some (white, rest) ↦ tokenize_from f count rest
    | some (token t, rest) ↦ elim (decoded t) [
      | none ↦ bad_escape
      | some t' ↦
          let others = tokenize_from f (suc count) rest in
          if ltb max_tokens (suc count) then too_long else with_token t' others
    ]
  ]

  unfoldable pub tokenize : String → Lexed
  unfolding tokenize_from
  tokenize text = tokenize_from (size text) 0 text
