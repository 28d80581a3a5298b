-- ===== src/Formula/Operations.antt =====
-- The operations of the evaluator on values (`_number`, `_attr`, `_index`, `_binary`, `_compare` and
-- `_truthy` of backend/mizan/platform/formula/evaluator.py, `to_decimal` of functions.py).
use mizan_labs_v.Prelude.{
  ℕ, zero, suc, String, Bool, true, false, ◌&&◌, ◌||◌, not, Option, none, some, List, [], ◌∷◌,
  str_eq, if◌then◌else◌,
}
use mizan_labs_v.Text.{is_nil}
use mizan_labs_v.Formula.{
  Numbers, BinaryOp, add, sub, mul, div, rem, pow, CompareOp, eq, ne, lt, le, gt, ge, formula_error,
  missing_value, division_by_zero, type_error, Result, ok, err, Value, decimal, plain, boolean,
  text, vector, mapping, nothing, Values, no_values, value, Items, no_items, item,
}

abbrev pub then_with : {A B : Type 0} → Result A → (A → Result B) → Result B
then_with (ok a) f = f a
then_with (err e) f = err e

module _ (N : Numbers) where
  open N use {Decimal}

  abbrev pub decimal_of : N.Plain → Result Decimal
  decimal_of p = elim (N.convert p) [ none ↦ err type_error | some d ↦ ok d ]

  -- _number, with to_decimal: a Boolean counts as 1 or 0, and a text is no number.
  unfoldable pub number : Value N → Result Decimal
  number (decimal d) = if N.is_nan d then err type_error else ok d
  number (plain p) = decimal_of p
  number (boolean b) = decimal_of (N.of_bool b)
  number (text s) = err type_error
  number (vector vs) = err type_error
  number (mapping items) = err type_error
  number nothing = err type_error

  -- base.get(name)
  abbrev pub find_item : String → Items N → Option (Value N)
  find_item key no_items = none
  find_item key (item k v rest) = if str_eq k key then some v else find_item key rest

  -- A missing key and a null are both missing values.
  abbrev pub present : Option (Value N) → Result (Value N)
  present none = err missing_value
  present (some nothing) = err missing_value
  present (some v) = ok v

  unfoldable mutual
    pub get_attr : String → Value N → Result (Value N)
    get_attr key (mapping items) = present (find_item key items)
    get_attr key (vector vs) = then_with (get_attrs key vs) (λ rs. ok (vector rs))
    get_attr key (decimal d) = err type_error
    get_attr key (plain p) = err type_error
    get_attr key (boolean b) = err type_error
    get_attr key (text s) = err type_error
    get_attr key nothing = err type_error

    pub get_attrs : String → Values N → Result (Values N)
    get_attrs key no_values = ok no_values
    get_attrs key (value v vs) =
        then_with (get_attr key v) (λ r. then_with (get_attrs key vs) (λ rs. ok (value r rs)))

  -- The rest of `_resolve`, after the head.
  unfoldable pub follow : List String → Value N → Result (Value N)
  unfolding get_attr
  follow [] v = ok v
  follow (key ∷ keys) v = then_with (get_attr key v) (follow keys)

  abbrev pub value_at : Values N → ℕ → Result (Value N)
  value_at no_values i = err missing_value
  value_at (value v vs) zero = ok v
  value_at (value v vs) (suc i) = value_at vs i

  abbrev pub at_position : Values N → Option ℕ → Result (Value N)
  at_position vs none = err missing_value
  at_position vs (some i) = value_at vs i

  -- The function argument is Python's `str`, which turns an index into a key.
  unfoldable pub get_index : (Value N → String) → Value N → Value N → Result (Value N)
  unfolding number get_attr
  get_index show (vector vs) i = then_with (number i) (λ d. at_position vs (N.position d))
  get_index show (mapping items) i = get_attr (show i) (mapping items)
  get_index show (decimal d) i = err type_error
  get_index show (plain p) i = err type_error
  get_index show (boolean b) i = err type_error
  get_index show (text s) i = err type_error
  get_index show nothing i = err type_error

  abbrev pub computed : Option Decimal → Result (Value N)
  computed none = err formula_error
  computed (some d) = ok (decimal d)

  unfoldable pub arithmetic : BinaryOp → Decimal → Decimal → Result (Value N)
  arithmetic add a b = computed (N.plus a b)
  arithmetic sub a b = computed (N.minus a b)
  arithmetic mul a b = computed (N.times a b)
  arithmetic div a b =
      if N.equal_decimals b N.zero_decimal then err division_by_zero else computed (N.divide a b)
  arithmetic rem a b =
      if N.equal_decimals b N.zero_decimal then err division_by_zero else computed (N.modulo a b)
  arithmetic pow a b = computed (N.power a b)

  unfoldable pub binary_op : BinaryOp → Value N → Value N → Result (Value N)
  unfolding number arithmetic
  binary_op op left right =
      then_with (number left) (λ a. then_with (number right) (λ b. arithmetic op a b))

  -- Python's `==`: numbers and Booleans by value, vectors in order, mappings key by key.
  unfoldable mutual
    pub equal : Value N → Value N → Bool
    equal (decimal a) (decimal b) = N.equal_decimals a b
    equal (decimal a) (plain q) = N.equal_mixed a q
    equal (decimal a) (boolean c) = N.equal_mixed a (N.of_bool c)
    equal (plain p) (decimal b) = N.equal_mixed b p
    equal (plain p) (plain q) = N.equal_plains p q
    equal (plain p) (boolean c) = N.equal_plains p (N.of_bool c)
    equal (boolean c) (decimal b) = N.equal_mixed b (N.of_bool c)
    equal (boolean c) (plain q) = N.equal_plains (N.of_bool c) q
    equal (boolean c) (boolean d) = N.equal_plains (N.of_bool c) (N.of_bool d)
    equal (text s) (text t) = str_eq s t
    equal (vector vs) (vector ws) = equal_all vs ws
    equal (mapping xs) (mapping ys) = same_size xs ys && equal_items xs ys
    equal nothing nothing = true
    equal _ _ = false

    pub equal_all : Values N → Values N → Bool
    equal_all no_values no_values = true
    equal_all (value v vs) (value w ws) = equal v w && equal_all vs ws
    equal_all _ _ = false

    pub same_size : Items N → Items N → Bool
    same_size no_items no_items = true
    same_size (item j v xs) (item k w ys) = same_size xs ys
    same_size _ _ = false

    pub equal_items : Items N → Items N → Bool
    equal_items no_items ys = true
    equal_items (item k v xs) ys =
        elim (find_item k ys) [ none ↦ false | some w ↦ equal v w ] && equal_items xs ys

  abbrev pub is_text : Value N → Bool
  is_text (text s) = true
  is_text _ = false

  abbrev pub ordered : CompareOp → Decimal → Decimal → Bool
  ordered lt a b = N.less a b
  ordered le a b = N.less a b || N.equal_decimals a b
  ordered gt a b = N.less b a
  ordered ge a b = N.less b a || N.equal_decimals a b
  ordered eq a b = false
  ordered ne a b = false

  abbrev pub in_order : CompareOp → Value N → Value N → Result Bool
  in_order op left right =
      if is_text left || is_text right
      then err type_error
      else then_with (number left) (λ a. then_with (number right) (λ b. ok (ordered op a b)))

  unfoldable pub compare_op : CompareOp → Value N → Value N → Result Bool
  unfolding equal number
  compare_op eq left right = ok (equal left right)
  compare_op ne left right = ok (not (equal left right))
  compare_op op left right = in_order op left right

  unfoldable pub truthy : Value N → Bool
  truthy (decimal d) = not (N.equal_decimals d N.zero_decimal)
  truthy (plain p) = not (N.is_zero_plain p)
  truthy (boolean b) = b
  truthy (text s) = not (is_nil s)
  truthy (vector no_values) = false
  truthy (vector (value v vs)) = true
  truthy (mapping no_items) = false
  truthy (mapping (item k v rest)) = true
  truthy nothing = false
