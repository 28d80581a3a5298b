-- ===== src/Formula/Tokens.antt =====
-- The tokens of a formula (`Token` of backend/mizan/platform/formula/lexer.py), without their
-- positions, which only the messages name. The `eof` token is the end of the list. What reads a
-- formula answers a value or a `FormulaSyntaxError`; running out of fuel has no counterpart there.
use mizan_labs_v.Prelude.{String, ◌≢◌, List}

pub data Punct : Type 0 where
  eq_eq not_eq less_eq greater_eq minus plus star slash percent caret less greater : Punct
  lparen rparen lbrack rbrack lbrace rbrace comma dot question colon : Punct

pub data Token : Type 0 where
  number string ident : String → Token
  punct : Punct → Token

abbrev pub Tokens : Type 0
Tokens = List Token

pub data Read {ℓ} (A : Type ℓ) : Type ℓ where
  got : A → Read A
  syntax_error out_of_fuel : Read A

abbrev pub Parser {ℓ} : Type ℓ → Type ℓ
Parser A = Tokens → Read (A × Tokens)

abbrev pub then_read {ℓ κ} : {A : Type ℓ} {B : Type κ} → Read A → (A → Read B) → Read B
then_read (got a) f = f a
then_read syntax_error f = syntax_error
then_read out_of_fuel f = out_of_fuel

-- The run kept within its fuel, and P holds of its value if it has one.
pub data Ensures {ℓ κ} {A : Type ℓ} (P : A → Type κ) : Read A → Type (ℓ ⊔ κ) where
  kept : {a : A} → P a → Ensures P (got a)
  refused : Ensures P syntax_error

pub Ensures-then {ℓ κ ℓ' κ'} :
    {A : Type ℓ} {B : Type ℓ'} {P : A → Type κ} {Q : B → Type κ'} {r : Read A} {f : A → Read B}
    → Ensures P r
    → ((a : A) → P a → Ensures Q (f a))
    → Ensures Q (then_read r f)
Ensures-then (kept {a} h) k = k a h
Ensures-then refused k = refused

pub Ensures-in_fuel {ℓ κ} :
    {A : Type ℓ} {P : A → Type κ} {r : Read A} → Ensures P r → r ≢ out_of_fuel
Ensures-in_fuel (kept h) = cc
Ensures-in_fuel refused = cc
