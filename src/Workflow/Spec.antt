-- ===== src/Workflow/Spec.antt =====
-- `parse_spec`: `"notify(approvers)"` is the code `notify` with the argument `approvers`.
use Prim.Native.Char.{code}
use mizan_labs_v.Prelude.{
  ℕ, String, Bool, ◌&&◌, ◌||◌, Option, none, some, [], ◌∷◌, leb, ◌==◌, if◌then◌else◌,
}
use mizan_labs_v.Text.{is_nil, strip_by, strip, span}
use mizan_labs_v.Workflow.{Params, Entry, text, dict}

-- [a-z_]
abbrev is_name : ℕ → Bool
is_name c = (leb b'a' c && leb c b'z') || c == b'_'

-- The rest of `(…)` after its first character, up to a closing parenthesis at the very end; `.`
-- matches no line feed.
unfoldable pub unparen : String → Option String
unparen String.[] = none
unparen (String.◌∷◌ c String.[]) = if code c == b')' then some "" else none
unparen (String.◌∷◌ c (String.◌∷◌ d s)) =
    let rest = unparen (String.◌∷◌ d s) in
    if code c == 10 then none else elim rest [ none ↦ none | some r ↦ some (String.◌∷◌ c r) ]

-- What may follow the name: nothing, or an argument in parentheses.
unfoldable pub argument : String → Option (Option String)
unfolding unparen
argument String.[] = some none
argument (String.◌∷◌ c s) =
    if code c == b'(' then elim (unparen s) [ none ↦ none | some r ↦ some (some r) ] else none

-- EFFECT_RE.match: the name and the argument. No shorter name can match, since a name's character is
-- no parenthesis.
unfoldable pub match_effect : String → Option (String × Option String)
unfolding span argument
match_effect s =
    let (name, rest) = span is_name s in
    if is_nil name then none else elim (argument rest) [ none ↦ none | some arg ↦ some (name, arg) ]

abbrev is_quote : ℕ → Bool
is_quote c = c == 39 || c == 34

abbrev arg_params : Option String → Params
arg_params none = []
arg_params (some arg) = if is_nil arg then [] else ("arg", strip_by is_quote (strip arg)) ∷ []

unfoldable pub parse_spec : Entry → String × Params
unfolding strip strip_by match_effect
parse_spec (dict key params) = (key, params)
parse_spec (text s) = elim (match_effect (strip s)) [
  | none ↦ (s, [])
  | some (name, arg) ↦ (name, arg_params arg)
]
