-- ===== src/Numbering/Examples.antt =====
-- A quote scheme with one reserved number, and the theorems on numbering at it.
use mizan_labs_v.Prelude.{◌≡◌, ◌≢◌, ◌<◌, refl, true, false, none, some, [], ◌∷◌, arith, length, all}
use mizan_labs_v.Workflow.{active}
use mizan_labs_v.Workflow.Validate.{is_active}
use mizan_labs_v.Numbering.Digits.{Text, str, zfill, int}
use mizan_labs_v.Numbering.{
  yearly, monthly, tolerant, on_create, Date, segments, seq_count, codes, period_key, Fields,
  substitute, format_number,
}
use mizan_labs_v.Numbering.Allocate.{
  Scheme, Store, reserved_for, format, set_counter, AllocatedNumber, max_skips, skip, allocated,
  finish, allocate, preview, reserve, elem,
}
use mizan_labs_v.Numbering.Allocate.Laws.{
  reserved, counter, allocate_lem, allocate_total, preview-allocate, stay, before, reserves,
  allocate_distinct,
}
use mizan_labs_v.Numbering.Allocate.Versions.{is_undated}

abbrev pattern : Text
pattern = codes "DV-{YYYY}-{SEQ:4}"

abbrev spring : Date
spring = record { year = 2026; month = 4; day = 9 }

abbrev fields : Fields
fields = record { prefix_text = []; branch_code = codes "NKC"; department_code = []; on = spring }

formats : format_number pattern fields 187 ≡ codes "DV-2026-0187"
unfolding format_number substitute segments str zfill int
formats = refl

monthly_key : period_key monthly spring ≡ codes "2026-04"
unfolding period_key str zfill
monthly_key = refl

pattern_one : seq_count (segments pattern) ≡ 1
unfolding segments
pattern_one = refl

abbrev quotes : Scheme
quotes = record {
  id = 3;
  branch_id = 1;
  department_id = none;
  applies_to = codes "QUOTE";
  prefix = [];
  pattern = pattern;
  reset = yearly;
  gap_policy = tolerant;
  allocation = on_create;
  version = 1;
  status = active;
  effective_from = none;
  immutable = false;
  supersedes = none;
  branch_text = codes "NKC";
  department_text = [];
}

abbrev tables : Store
tables = record {
  counters = λ s k. 6;
  reservations = (3, codes "DV-2026-0007") ∷ [];
  schemes = quotes ∷ [];
}

abbrev first_number : AllocatedNumber
first_number = record {
  number = codes "DV-2026-0008";
  scheme_id = 3;
  sequence = 8;
  key = codes "2026";
}

abbrev frozen : Scheme
frozen = record quotes { immutable = true }

abbrev after_first : Store
after_first = record tables {
  counters = set_counter 3 (codes "2026") 8 (λ s k. 6);
  schemes = frozen ∷ [];
}

allocates_first : allocate quotes spring tables ≡ allocated first_number frozen after_first
unfolding allocate finish reserved_for format format_number substitute segments str zfill skip
    period_key int
allocates_first = refl

allocate_lem_example :
    (is_active quotes.status ≡ true)
    × (first_number.number ≡ format quotes spring 8)
    × (elem first_number.number (reserved quotes spring tables) ≡ false)
    × (counter quotes spring tables < 8)
    × (after_first.counters 3 (period_key yearly spring) ≡ 8)
allocate_lem_example = allocate_lem quotes spring tables allocates_first

few_reserved : length (reserved quotes spring tables) < max_skips
unfolding reserved_for
few_reserved = omega arith

allocate_total_example :
    (a : AllocatedNumber) × (scheme' : Scheme) × (store' : Store) × (allocate quotes spring tables
      ≡ allocated a scheme' store')
allocate_total_example = allocate_total quotes spring tables pattern_one refl few_reserved

preview-allocate_example : preview quotes spring tables ≡ some (codes "DV-2026-0008")
preview-allocate_example =
    preview-allocate quotes spring tables pattern_one few_reserved allocates_first

abbrev second_number : AllocatedNumber
second_number = record {
  number = codes "DV-2026-0009";
  scheme_id = 3;
  sequence = 9;
  key = codes "2026";
}

abbrev after_reserve : Store
after_reserve = reserve quotes (codes "DV-2026-0020" ∷ []) after_first

allocates_second :
    allocate quotes spring after_reserve
    ≡ allocated second_number frozen (record after_reserve {
      counters = set_counter 3 (codes "2026") 9 after_first.counters;
      schemes = frozen ∷ [];
    })
unfolding allocate finish reserve reserved_for format format_number substitute segments str zfill
    skip period_key set_counter int
allocates_second = refl

allocate_distinct_example : codes "DV-2026-0008" ≢ codes "DV-2026-0009"
allocate_distinct_example =
    allocate_distinct quotes spring pattern_one tables after_reserve allocates_first
      (before (reserves quotes (codes "DV-2026-0020" ∷ [])) stay) allocates_second

abbrev undated : Scheme
undated = record quotes { pattern = codes "DV-{SEQ:4}" }

abbrev next_spring : Date
next_spring = record { year = 2027; month = 4; day = 9 }

abbrev undated_number : Text → AllocatedNumber
undated_number key = record { number = codes "DV-0007"; scheme_id = 3; sequence = 7; key = key }

abbrev undated_after : Text → Store
undated_after key = record tables {
  counters = set_counter 3 key 7 (λ s k. 6);
  schemes = frozen ∷ [];
}

allocates_undated :
    allocate undated spring tables
    ≡ allocated
        (undated_number (codes "2026"))
        (record undated { immutable = true })
        (undated_after (codes "2026"))
unfolding allocate finish reserved_for format format_number substitute segments str zfill skip
    period_key int
allocates_undated = refl

allocates_undated_next :
    allocate undated next_spring tables
    ≡ allocated
        (undated_number (codes "2027"))
        (record undated { immutable = true })
        (undated_after (codes "2027"))
unfolding allocate finish reserved_for format format_number substitute segments str zfill skip
    period_key int
allocates_undated_next = refl

undated_passes : all is_undated (segments undated.pattern) ≡ true
unfolding segments
undated_passes = refl
