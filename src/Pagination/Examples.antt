-- ===== src/Pagination/Examples.antt =====
-- Five rows, two of one time, in pages of two.
use mizan_labs_v.Prelude.{◌≡◌, refl, none, some, List, [], ◌∷◌, arith}
use mizan_labs_v.Pagination.{Key, Codec, make_page, paginate}
use mizan_labs_v.Pagination.Laws.{follow, follow_lem}

-- A cursor that is the key itself.
abbrev plain : Codec
plain = record { Cursor = Key; encode_cursor = λ k. k; decode_cursor = λ k. some k }

abbrev rows : List Key
rows = (9, 4) ∷ (7, 8) ∷ (7, 2) ∷ (5, 6) ∷ (1, 1) ∷ []

second_page :
    paginate plain (λ r. r) rows (some (7, 8)) 2
    ≡ some (record { items = (7, 2) ∷ (5, 6) ∷ []; next = some (5, 6) })
unfolding paginate make_page
second_page = refl

follow_lem_example : follow plain (λ r. r) 6 rows none 2 ≡ some rows
follow_lem_example =
    follow_lem plain (λ r. r) (λ k. refl) 2 (omega arith) rows
      (
        (refl, (refl, (refl, (refl, tt)))),
        ((refl, (refl, (refl, tt))), ((refl, (refl, tt)), ((refl, tt), (tt, tt)))),
      )
