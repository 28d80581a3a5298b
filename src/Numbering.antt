-- ===== src/Numbering.antt =====
-- Numbering schemes (backend/mizan/apps/config/numbering.py): the tokens of a pattern, validation,
-- the period of a counter and the text of a number. Texts are lists of code points; `\d` is a digit
-- 0 to 9; a year is written without padding. Identifiers are numbers.
pub mod Digits
pub mod Format
pub mod Allocate
pub mod Schemes
pub mod Defaults
mod Examples
use Prim.Native.Char.{code}
use mizan_labs_v.Prelude.{
  ℕ, zero, suc, ◌+◌, ◌-◌, ◌%◌, String, Bool, true, false, ◌&&◌, ◌||◌, not, Option, none, some, List,
  [], ◌∷◌, ◌++◌, ltb, leb, ◌==◌, if◌then◌else◌, length, any,
}
use mizan_labs_v.Workflow.{ConfigStatus, active}
use mizan_labs_v.Numbering.Digits.{Text, str, zfill, int}

pub data NumberingReset : Type 0 where
  never yearly monthly : NumberingReset

pub data GapPolicy : Type 0 where
  gap_free tolerant : GapPolicy

pub data Allocation : Type 0 where
  on_create on_issue : Allocation

pub record Date : Type 0 where
  pub year : ℕ
  pub month : ℕ
  pub day : ℕ

pub data Token : Type 0 where
  prefix_token branch_token dept_token yyyy yy mm : Token
  seq : Option ℕ → Token

-- What the pattern is made of, in order: single characters, and tokens.
pub data Segment : Type 0 where
  literal : ℕ → Segment
  token : Token → Segment

abbrev pub codes : String → Text
codes String.[] = []
codes (String.◌∷◌ c s) = code c ∷ codes s

-- What follows a prefix, if the text starts with it.
unfoldable pub rest_after : Text → Text → Option Text
rest_after [] s = some s
rest_after (p ∷ ps) [] = none
rest_after (p ∷ ps) (c ∷ s) = if p == c then rest_after ps s else none

-- The leading digits of a text, and the rest.
unfoldable pub split_digits : Text → Text × Text
split_digits [] = ([], [])
split_digits (c ∷ s) =
    let (ds, rest) = split_digits s in if leb 48 c && leb c 57 then (c ∷ ds, rest) else ([], c ∷ s)

abbrev plain_tokens : List (Text × Token)
plain_tokens =
    (codes "{PREFIX}", prefix_token)
    ∷ (codes "{BRANCH}", branch_token)
    ∷ (codes "{DEPT}", dept_token)
    ∷ (codes "{YYYY}", yyyy)
    ∷ (codes "{YY}", yy)
    ∷ (codes "{MM}", mm)
    ∷ (codes "{SEQ}", seq none)
    ∷ []

-- The token whose text starts the given one, with its length.
unfoldable pub match_plain : List (Text × Token) → Text → Option (Token × ℕ)
unfolding rest_after
match_plain [] s = none
match_plain ((name, t) ∷ names) s = elim (rest_after name s) [
  | some rest ↦ some (t, length name)
  | none ↦ match_plain names s
]

abbrev width_of : Text × Text → Option (Token × ℕ)
width_of ([], rest) = none
width_of (d ∷ ds, []) = none
width_of (d ∷ ds, c ∷ rest) =
    if c == b'}'
    then some (seq (some (int 0 (d ∷ ds))), length (codes "{SEQ:}") + length (d ∷ ds))
    else none

-- {SEQ:n}
unfoldable pub match_seq : Text → Option (Token × ℕ)
unfolding rest_after split_digits
match_seq s = elim (rest_after (codes "{SEQ:") s) [
  | none ↦ none
  | some r ↦ width_of (split_digits r)
]

unfoldable pub match_token : Text → Option (Token × ℕ)
unfolding match_plain match_seq
match_token s = elim (match_plain plain_tokens s) [ some m ↦ some m | none ↦ match_seq s ]

-- The matches of TOKEN_RE and what is between them; the number says how many characters belong to
-- the match before.
unfoldable pub segments_from : ℕ → Text → List Segment
unfolding match_token
segments_from skip [] = []
segments_from (suc skip) (c ∷ s) = segments_from skip s
segments_from zero (c ∷ s) = elim (match_token (c ∷ s)) [
  | some (t, size) ↦ token t ∷ segments_from (size - 1) s
  | none ↦ literal c ∷ segments_from zero s
]

unfoldable pub segments : Text → List Segment
unfolding segments_from
segments pattern = segments_from zero pattern

abbrev pub is_seq : Segment → Bool
is_seq (token (seq width)) = true
is_seq _ = false

abbrev pub seq_count : List Segment → ℕ
seq_count [] = 0
seq_count (x ∷ xs) = if is_seq x then suc (seq_count xs) else seq_count xs

-- TOKEN_RE.sub("", pattern)
abbrev pub literals : List Segment → Text
literals [] = []
literals (literal c ∷ xs) = c ∷ literals xs
literals (token t ∷ xs) = literals xs

-- re.search(r"\{[^}]*\}", text)
abbrev pub has_braces : Text → Bool
has_braces [] = false
has_braces (c ∷ s) = (c == b'{' && any (λ d. d == b'}') s) || has_braces s

pub data NumberingError : Type 0 where
  pattern_needs_seq pattern_one_seq unknown_token gap_free_requires_on_issue : NumberingError

abbrev pub is_gap_free : GapPolicy → Bool
is_gap_free gap_free = true
is_gap_free tolerant = false

abbrev pub is_on_issue : Allocation → Bool
is_on_issue on_issue = true
is_on_issue on_create = false

-- `none` is a scheme in order.
unfoldable pub validate_scheme : Text → GapPolicy → Allocation → Option NumberingError
unfolding segments
validate_scheme pattern gap_policy allocation =
    let tokens = segments pattern in
    if seq_count tokens == 0
    then some pattern_needs_seq
    else if ltb 1 (seq_count tokens)
    then some pattern_one_seq
    else if has_braces (literals tokens)
    then some unknown_token
    else if is_gap_free gap_policy && not (is_on_issue allocation)
    then some gap_free_requires_on_issue
    else none

abbrev pub two_digits : ℕ → Text
two_digits n = zfill 2 (str n)

unfoldable pub period_key : NumberingReset → Date → Text
period_key never on = []
period_key yearly on = str on.year
period_key monthly on = str on.year ++ (45 ∷ two_digits on.month)

-- The keyword arguments of `format_number` but the sequence.
pub record Fields : Type 0 where
  pub prefix_text : Text
  pub branch_code : Text
  pub department_code : Text
  pub on : Date

abbrev width_or_one : Option ℕ → ℕ
width_or_one none = 1
width_or_one (some n) = n

-- The local function `repl`.
unfoldable pub repl : Fields → ℕ → Token → Text
repl f sequence prefix_token = f.prefix_text
repl f sequence branch_token = f.branch_code
repl f sequence dept_token = f.department_code
repl f sequence yyyy = str f.on.year
repl f sequence yy = two_digits (f.on.year % 100)
repl f sequence mm = two_digits f.on.month
repl f sequence (seq width) = zfill (width_or_one width) (str sequence)

unfoldable pub substitute : Fields → ℕ → List Segment → Text
unfolding repl
substitute f sequence [] = []
substitute f sequence (literal c ∷ xs) = c ∷ substitute f sequence xs
substitute f sequence (token t ∷ xs) = repl f sequence t ++ substitute f sequence xs

unfoldable pub format_number : Text → Fields → ℕ → Text
unfolding segments substitute
format_number pattern f sequence = substitute f sequence (segments pattern)
