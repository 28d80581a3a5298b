-- ===== src/Formula.antt =====
-- The formula language (backend/mizan/platform/formula): its nodes, its values and its errors. A
-- number is a Decimal, or an int or float (`Plain`); the arithmetic of Decimal is an argument. An error keeps its class, not its message. A comparison chain is its
-- first operand and the list of the others, each with its operator.
pub mod Operations
pub mod Eval
pub mod Engine
pub mod Tokens
pub mod Lexer
pub mod Parser
mod Naturals
mod Examples
use mizan_labs_v.Prelude.{ℕ, String, Bool, Option, List}

pub record Numbers : Type 1 where
  pub Decimal : Type 0
  pub Plain : Type 0
  -- Decimal(value) of an int, or of a float if it is finite
  pub convert : Plain → Option Decimal
  pub is_nan : Decimal → Bool
  pub of_bool : Bool → Plain
  -- Python's `==` and `bool` on numbers of either kind
  pub equal_decimals : Decimal → Decimal → Bool
  pub equal_plains : Plain → Plain → Bool
  pub equal_mixed : Decimal → Plain → Bool
  pub zero_decimal : Decimal
  pub is_zero_plain : Plain → Bool
  pub less : Decimal → Decimal → Bool
  -- int(d), if it is not negative
  pub position : Decimal → Option ℕ
  pub negate : Decimal → Decimal
  -- `none` is InvalidOperation or Overflow
  pub plus : Decimal → Decimal → Option Decimal
  pub minus : Decimal → Decimal → Option Decimal
  pub times : Decimal → Decimal → Option Decimal
  pub divide : Decimal → Decimal → Option Decimal
  pub modulo : Decimal → Decimal → Option Decimal
  pub power : Decimal → Decimal → Option Decimal

pub data BinaryOp : Type 0 where
  add sub mul div rem pow : BinaryOp

pub data CompareOp : Type 0 where
  eq ne lt le gt ge : CompareOp

pub data FormulaError : Type 0 where
  formula_error missing_value division_by_zero limit_exceeded type_error : FormulaError

pub data Result (A : Type 0) : Type 0 where
  ok : A → Result A
  err : FormulaError → Result A

module _ (N : Numbers) where
  mutual
    pub data Node : Type 0 where
      num : N.Decimal → Node
      str : String → Node
      name : String → List String → Node
      attr : Node → String → Node
      index : Node → Node → Node
      dot : Option String → Node
      unary : Node → Node
      binary : BinaryOp → Node → Node → Node
      compare : Node → Chain → Node
      not_node : Node → Node
      and_node : Node → Node → Node
      or_node : Node → Node → Node
      ternary : Node → Node → Node → Node
      call : String → Nodes → Node
      lambda : Node → Node

    pub data Chain : Type 0 where
      end : Chain
      link : CompareOp → Node → Chain → Chain

    pub data Nodes : Type 0 where
      no_nodes : Nodes
      node : Node → Nodes → Nodes

  mutual
    pub data Value : Type 0 where
      decimal : N.Decimal → Value
      plain : N.Plain → Value
      boolean : Bool → Value
      text : String → Value
      vector : Values → Value
      mapping : Items → Value
      nothing : Value

    pub data Values : Type 0 where
      no_values : Values
      value : Value → Values → Values

    pub data Items : Type 0 where
      no_items : Items
      item : String → Value → Items → Items
