-- ===== src/Text.antt =====
-- Python's `str` methods that the backend uses, on the native texts: `isspace`, `strip`,
-- `startswith`, `removeprefix`, `partition`. A text is its list of characters.
use Prim.Native.Char.{code}
use mizan_labs_v.Prelude.{
  ℕ, suc, ◌≤◌, String, Bool, true, false, ◌&&◌, ◌||◌, Option, none, some, inl, inr, leb, ◌==◌,
  if◌then◌else◌, Bool-cases, arith,
}

-- The code points that `str.isspace` accepts.
abbrev pub is_space : ℕ → Bool
is_space c =
    (leb 9 c && leb c 13)
    || (leb 28 c && leb c 32)
    || c == 133
    || c == 160
    || c == 5760
    || (leb 8192 c && leb c 8202)
    || c == 8232
    || c == 8233
    || c == 8239
    || c == 8287
    || c == 12288

abbrev pub is_digit : ℕ → Bool
is_digit c = leb b'0' c && leb c b'9'

abbrev pub is_nil : String → Bool
is_nil String.[] = true
is_nil (String.◌∷◌ c s) = false

-- Without the leading characters that pass the test.
unfoldable pub strip_left : (ℕ → Bool) → String → String
strip_left p String.[] = String.[]
strip_left p (String.◌∷◌ c s) =
    let rest = strip_left p s in if p (code c) then rest else String.◌∷◌ c s

unfoldable pub strip_right : (ℕ → Bool) → String → String
strip_right p String.[] = String.[]
strip_right p (String.◌∷◌ c s) =
    let rest = strip_right p s in if p (code c) && is_nil rest then String.[] else String.◌∷◌ c rest

-- s.strip(), and s.strip(characters) by their test
unfoldable pub strip_by : (ℕ → Bool) → String → String
unfolding strip_left strip_right
strip_by p s = strip_right p (strip_left p s)

unfoldable pub strip : String → String
unfolding strip_by
strip = strip_by is_space

-- The longest prefix of characters that pass the test, and the rest.
unfoldable pub span : (ℕ → Bool) → String → String × String
span p String.[] = (String.[], String.[])
span p (String.◌∷◌ c s) =
    let rest = span p s in
    if p (code c) then (String.◌∷◌ c rest.0, rest.1) else (String.[], String.◌∷◌ c s)

-- What follows a prefix, if the text starts with it.
unfoldable pub after : String → String → Option String
after String.[] s = some s
after (String.◌∷◌ p ps) String.[] = none
after (String.◌∷◌ p ps) (String.◌∷◌ c s) = if code p == code c then after ps s else none

unfoldable pub starts_with : String → String → Bool
unfolding after
starts_with prefix s = elim (after prefix s) [ none ↦ false | some r ↦ true ]

unfoldable pub remove_prefix : String → String → String
unfolding after
remove_prefix prefix s = elim (after prefix s) [ none ↦ s | some r ↦ r ]

-- s.partition(sep) for one character: before, and after; both texts where it is missing.
unfoldable pub partition : ℕ → String → String × String
partition sep String.[] = (String.[], String.[])
partition sep (String.◌∷◌ c s) =
    let rest = partition sep s in
    if code c == sep then (String.[], s) else (String.◌∷◌ c rest.0, rest.1)

unfoldable pub concat : String → String → String
concat String.[] t = t
concat (String.◌∷◌ c s) t = String.◌∷◌ c (concat s t)

-- len(s)
unfoldable pub size : String → ℕ
size String.[] = 0
size (String.◌∷◌ c s) = suc (size s)

pub size-span : (p : ℕ → Bool) (s : String) → size (span p s).1 ≤ size s
unfolding span size
size-span p String.[] = omega arith
size-span p (String.◌∷◌ c s) = elim (Bool-cases (p (code c))) [
  | inl h ↦ rw h (omega (arith, size-span p s))
  | inr h ↦ rw h (omega arith)
]
