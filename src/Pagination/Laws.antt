-- ===== src/Pagination/Laws.antt =====
-- Following the cursors of `paginate` (backend/mizan/platform/api/pagination.py).
use mathlib.Core.Path.{subst}
use mizan_labs_v.Prelude.{
  ℕ, zero, suc, ◌≤◌, ◌<◌, ◌≡◌, refl, sym, ap, ◌∙◌, inl, inr, true, false, Option, none, some, List,
  [], ◌∷◌, ◌++◌, arith, ltb, Bool-cases, length, take, drop, All, append_assoc, length-take,
  length-drop, take_all, lt→ltb, ltb→lt, ltb_false→le,
}
use mizan_labs_v.Workflow.{filter}
use mizan_labs_v.Pagination.{Key, Codec, is_after, last_key, make_page, paginate}

is_after_asym : (k l : Key) → is_after k l ≡ true → is_after l k ≡ false
is_after_asym (s, i) (t, j) h = ground arith

is_after_irrefl : (k : Key) → is_after k k ≡ false
is_after_irrefl (s, i) = ground arith

take-take {ℓ} : {A : Type ℓ} (n : ℕ) (xs : List A) → take n (take (suc n) xs) ≡ take n xs
take-take zero xs = refl
take-take (suc n) [] = refl
take-take (suc n) (x ∷ xs) = ap (λ ys. x ∷ ys) (take-take n xs)

take-drop {ℓ} : {A : Type ℓ} (n : ℕ) (xs : List A) → take n xs ++ drop n xs ≡ xs
take-drop zero xs = refl
take-drop (suc n) [] = refl
take-drop (suc n) (x ∷ xs) = ap (λ ys. x ∷ ys) (take-drop n xs)

module _ (C : Codec) {Row : Type 0} (key : Row → Key) where
  -- Strictly descending by the key.
  abbrev pub IsOrdered : List Row → Type 0
  IsOrdered [] = Unit
  IsOrdered (r ∷ rs) = All (λ s. is_after (key r) (key s) ≡ true) rs × IsOrdered rs

  filter-All :
      (k : Key) (rs : List Row)
      → All (λ s. is_after k (key s) ≡ true) rs
      → filter (λ r. is_after k (key r)) rs ≡ rs
  filter-All k [] h = refl
  filter-All k (r ∷ rs) h = rw (h.0, filter-All k rs h.1)

  All-split : (P : Row → Type 0) (xs ys : List Row) → All P (xs ++ ys) → All P ys
  All-split P [] ys h = h
  All-split P (x ∷ xs) ys h = All-split P xs ys h.1

  -- After the last row of a beginning come exactly the rows behind it.
  filter_rest :
      (x : Row) (done rest : List Row)
      → IsOrdered (done ++ (x ∷ rest))
      → filter (λ r. is_after (key x) (key r)) (done ++ (x ∷ rest)) ≡ rest
  filter_rest x [] rest h = rw (is_after_irrefl (key x), filter-All (key x) rest h.0)
  filter_rest x (d ∷ done) rest h =
      let later = All-split (λ s. is_after (key d) (key s) ≡ true) done (x ∷ rest) h.0 in
      rw (is_after_asym (key d) (key x) later.0, filter_rest x done rest h.1)

  last_split :
      (y : Row) (ys : List Row)
      → (done : List Row) × (x : Row) × (y ∷ ys ≡ done ++ (x ∷ []))
        × (last_key C key (y ∷ ys) ≡ some (key x))
  last_split y [] = ([], y, refl, refl)
  last_split y (z ∷ ys) =
      let (done, x, split, last) = last_split z ys in (y ∷ done, x, ap (λ rs. y ∷ rs) split, last)

  last_of :
      (rs : List Row)
      → 0 < length rs
      → (done : List Row) × (x : Row) × (rs ≡ done ++ (x ∷ [])) × (last_key C key rs ≡ some (key x))
  last_of [] h = absurd (omega arith)
  last_of (r ∷ rs) h = last_split r rs

  -- The last page shows the rows that are left.
  make_page-last :
      (rest : List Row) (limit : ℕ)
      → length rest ≤ limit
      → make_page C key rest limit ≡ record { items = rest; next = none }
  unfolding make_page
  make_page-last rest limit few =
      let seen = take_all (suc limit) rest (omega arith) in
      let shown = take_all limit rest few in
      let no_more : ltb limit (length rest) ≡ false = ground (arith, few) in
      rw (seen, shown, no_more) refl

  -- Any other shows as many as the limit, and a cursor behind them.
  make_page-more :
      (rest : List Row) (limit : ℕ)
      → 0 < limit
      → limit < length rest
      → (done : List Row) × (x : Row) × (take limit rest ≡ done ++ (x ∷ []))
        × (make_page C key rest limit
            ≡ record { items = take limit rest; next = some (C.encode_cursor (key x)) })
  unfolding make_page
  make_page-more rest limit some_rows many =
      let (done, x, split, last) =
        last_of (take limit rest) (omega (arith, length-take limit rest)) in
      let full : ltb limit (length (take (suc limit) rest)) ≡ true =
        lt→ltb _ _ (omega (arith, length-take (suc limit) rest)) in
      (done, x, split, rw (take-take limit rest, full, last) refl)

  -- The rows that a client gets who follows the cursors, in at most so many requests.
  abbrev pub follow : ℕ → List Row → Option C.Cursor → ℕ → Option (List Row)
  follow zero rows cursor limit = none
  follow (suc requests) rows cursor limit = elim (paginate C key rows cursor limit) [
    | none ↦ none
    | some page ↦ elim page.next [
      | none ↦ some page.items
      | some c ↦ elim (follow requests rows (some c) limit) [
        | none ↦ none
        | some more ↦ some (page.items ++ more)
      ]
    ]
  ]

  module _ (law : (k : Key) → C.decode_cursor (C.encode_cursor k) ≡ some k) (limit : ℕ)
      (positive : 0 < limit) where
    next_page :
        (before : List Row) (x : Row) (behind : List Row)
        → IsOrdered (before ++ (x ∷ behind))
        → paginate C key (before ++ (x ∷ behind)) (some (C.encode_cursor (key x))) limit
          ≡ some (make_page C key behind limit)
    unfolding paginate
    next_page before x behind ordered =
        rw (law (key x), filter_rest x before behind ordered, paginate) refl

    follow_rest :
        (requests : ℕ) (done rest : List Row) (cursor : Option C.Cursor)
        → IsOrdered (done ++ rest)
        → paginate C key (done ++ rest) cursor limit ≡ some (make_page C key rest limit)
        → length rest < requests
        → follow requests (done ++ rest) cursor limit ≡ some rest
    follow_rest zero done rest cursor ordered page enough = absurd (omega arith)
    follow_rest (suc requests) done rest cursor ordered page enough =
        elim (Bool-cases (ltb limit (length rest))) [
          | inl many ↦
              let (d, x, split, shown) = make_page-more rest limit positive (ltb→lt _ _ many) in
              let behind = drop limit rest in
              let cut : done ++ rest ≡ (done ++ take limit rest) ++ behind =
                ap (λ ys. done ++ ys) (sym (take-drop limit rest))
                ∙ sym (append_assoc done (take limit rest) behind) in
              let same : (done ++ take limit rest) ++ behind ≡ (done ++ d) ++ (x ∷ behind) =
                ap (λ ys. (done ++ ys) ++ behind) split
                ∙ ap (λ ys. ys ++ behind) (sym (append_assoc done d (x ∷ [])))
                ∙ append_assoc (done ++ d) (x ∷ []) behind in
              let next =
                follow_rest requests (done ++ take limit rest) behind
                  (some (C.encode_cursor (key x))) (subst IsOrdered cut ordered)
                  (subst
                    (λ t.
                      paginate C key t (some (C.encode_cursor (key x))) limit
                      ≡ some (make_page C key behind limit))
                    (sym same)
                    (next_page (done ++ d) x behind (subst IsOrdered (cut ∙ same) ordered)))
                  (omega (arith, length-drop limit rest, ltb→lt _ _ many)) in
              let more =
                subst (λ t. follow requests t (some (C.encode_cursor (key x))) limit ≡ some behind)
                  (sym cut) next in
              rw (page ∙ ap some shown, more, follow) (ap some (take-drop limit rest))
          | inr few ↦
              let shown = make_page-last rest limit (ltb_false→le _ _ few) in
              rw (page ∙ ap some shown, follow) refl
        ]

    -- Over rows in strictly descending order, with cursors that are read back as they were written
    -- and a limit of at least one, a client who follows the cursors from the first page on gets every
    -- row once and in order, in at most one request more than there are rows.
    pub follow_lem :
        (rows : List Row) → IsOrdered rows → follow (suc (length rows)) rows none limit ≡ some rows
    follow_lem rows ordered =
        follow_rest (suc (length rows)) [] rows none ordered (unfold paginate in refl) (omega arith)
