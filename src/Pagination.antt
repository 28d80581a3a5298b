-- ===== src/Pagination.antt =====
-- Cursor pagination (backend/mizan/platform/api/pagination.py): pages over the rows of a query, by
-- the time of creation and the id, both descending. The rows come in that order, as the database
-- gives them; the text of a cursor, which is JSON in base64, is an argument with its two directions.
pub mod Laws
mod Examples
use mizan_labs_v.Prelude.{
  ℕ, zero, suc, ◌+◌, Bool, true, false, ◌&&◌, ◌||◌, Option, none, some, List, [], ◌∷◌, ◌++◌, ltb,
  ◌==◌, if◌then◌else◌, length, take,
}
use mizan_labs_v.Workflow.{filter}

abbrev pub Key : Type 0
Key = ℕ × ℕ

-- encode_cursor and decode_cursor; `none` is the invalid cursor.
pub record Codec : Type 1 where
  pub Cursor : Type 0
  pub encode_cursor : Key → Cursor
  pub decode_cursor : Cursor → Option Key

-- The filter after a cursor: an earlier time, or the same time and a smaller id.
abbrev pub is_after : Key → Key → Bool
is_after (stamp, id) (t, i) = ltb t stamp || (t == stamp && ltb i id)

module _ (C : Codec) {Row : Type 0} (key : Row → Key) where
  open C use {Cursor, encode_cursor, decode_cursor}

  pub record Page : Type 0 where
    pub items : List Row
    pub next : Option Cursor

  abbrev pub last_key : List Row → Option Key
  last_key [] = none
  last_key (r ∷ []) = some (key r)
  last_key (r ∷ (s ∷ rs)) = last_key (s ∷ rs)

  abbrev pub cursor_of : Bool → Option Key → Option Cursor
  cursor_of true (some k) = some (encode_cursor k)
  cursor_of _ _ = none

  -- One row more than the limit says whether there are more.
  unfoldable pub make_page : List Row → ℕ → Page
  make_page rows limit =
      let seen = take (suc limit) rows in
      record {
        items = take limit seen;
        next = cursor_of (ltb limit (length seen)) (last_key (take limit seen));
      }

  -- `none` is the error of an invalid cursor.
  unfoldable pub paginate : List Row → Option Cursor → ℕ → Option Page
  unfolding make_page
  paginate rows none limit = some (make_page rows limit)
  paginate rows (some cursor) limit = elim (decode_cursor cursor) [
    | none ↦ none
    | some k ↦ some (make_page (filter (λ r. is_after k (key r)) rows) limit)
  ]
