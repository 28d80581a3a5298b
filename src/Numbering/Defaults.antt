-- ===== src/Numbering/Defaults.antt =====
-- The default numbering schemes of a branch and their installation
-- (backend/mizan/apps/config/defaults/numbering.py). A new row gets the next identifier.
use mizan_labs_v.Prelude.{
  ℕ, ◌+◌, ◌≡◌, refl, String, Bool, true, false, ◌&&◌, none, List, [], ◌∷◌, any, All, if◌then◌else◌,
  ◌==◌,
}
use mizan_labs_v.Workflow.{active}
use mizan_labs_v.Workflow.Validate.{same_branch}
use mizan_labs_v.Numbering.Digits.{Text, int}
use mizan_labs_v.Numbering.{
  NumberingReset, never, yearly, monthly, GapPolicy, gap_free, tolerant, Allocation, on_create,
  on_issue, Segment, token, yyyy, yy, mm, codes, segments, validate_scheme,
}
use mizan_labs_v.Numbering.Allocate.{Scheme, same_text}

pub record DefaultScheme : Type 0 where
  pub applies_to : Text
  pub pattern : Text
  pub reset : NumberingReset
  pub gap_policy : GapPolicy
  pub allocation : Allocation

abbrev default : String → String → NumberingReset → GapPolicy → Allocation → DefaultScheme
default applies_to pattern reset gap_policy allocation = record {
  applies_to = codes applies_to;
  pattern = codes pattern;
  reset = reset;
  gap_policy = gap_policy;
  allocation = allocation;
}

-- DEFAULT_SCHEMES
abbrev pub default_schemes : List DefaultScheme
default_schemes =
    default "ACCOUNT" "CL-{SEQ:5}" never tolerant on_create
    ∷ default "PROJECT" "AF-{YYYY}-{SEQ:4}" yearly tolerant on_create
    ∷ default "QUOTE" "DV-{BRANCH}-{YYYY}-{SEQ:4}" yearly tolerant on_issue
    ∷ default "ORDER" "CM-{YYYY}-{SEQ:4}" yearly tolerant on_create
    ∷ default "CONTRACT" "CT-{YYYY}-{SEQ:3}" yearly tolerant on_create
    ∷ default "INTAKE" "RC-{YY}-{SEQ:4}" yearly tolerant on_create
    ∷ default "SAMPLE" "EC-{YY}-{SEQ:5}" yearly tolerant on_create
    ∷ default "TEST_RUN" "ES-{YY}-{SEQ:5}" yearly tolerant on_create
    ∷ default "REPORT" "PV-{BRANCH}-{YYYY}-{SEQ:4}" yearly tolerant on_issue
    ∷ default "INVOICE" "FA-{YYYY}-{SEQ:5}" yearly gap_free on_issue
    ∷ default "CREDIT_NOTE" "AV-{YYYY}-{SEQ:4}" yearly gap_free on_issue
    ∷ default "PAYMENT" "PA-{YYYY}-{SEQ:5}" yearly tolerant on_create
    ∷ default "RENTAL" "LO-{YY}-{SEQ:4}" yearly tolerant on_create
    ∷ default "SALE" "VE-{YY}-{SEQ:4}" yearly tolerant on_create
    ∷ default "OUTING" "BS-{YY}-{SEQ:4}" yearly tolerant on_create
    ∷ default "TRANSFER" "TR-{YY}-{SEQ:4}" yearly tolerant on_create
    ∷ default "WORK_ORDER" "OT-{YY}-{SEQ:4}" yearly tolerant on_create
    ∷ default "EQUIPMENT" "EQ-{SEQ:4}" never tolerant on_create
    ∷ default "MAINTENANCE" "MT-{YY}-{SEQ:4}" yearly tolerant on_create
    ∷ []

-- The row that get_or_create looks for: this branch and kind, no department, version 1.
abbrev is_default_row : ℕ → DefaultScheme → Scheme → Bool
is_default_row branch d row =
    row.branch_id == branch
    && (same_branch row.department_id none
        && (same_text row.applies_to d.applies_to && row.version == 1))

abbrev new_default : ℕ → ℕ → Text → DefaultScheme → Scheme
new_default id branch branch_text d = record {
  id = id;
  branch_id = branch;
  department_id = none;
  applies_to = d.applies_to;
  prefix = [];
  pattern = d.pattern;
  reset = d.reset;
  gap_policy = d.gap_policy;
  allocation = d.allocation;
  version = 1;
  status = active;
  effective_from = none;
  immutable = false;
  supersedes = none;
  branch_text = branch_text;
  department_text = [];
}

-- The rows created, the last first, and the table with them.
unfoldable pub install_default_numbering :
    ℕ → ℕ → Text → List DefaultScheme → List Scheme → List Scheme → List Scheme × List Scheme
install_default_numbering id branch branch_text [] created rows = (created, rows)
install_default_numbering id branch branch_text (d ∷ ds) created rows =
    let row = new_default id branch branch_text d in
    let kept = install_default_numbering id branch branch_text ds created rows in
    let more =
      install_default_numbering (id + 1) branch branch_text ds (row ∷ created) (row ∷ rows) in
    if any (is_default_row branch d) rows then kept else more

abbrev is_year : Segment → Bool
is_year (token yyyy) = true
is_year (token yy) = true
is_year _ = false

abbrev is_month : Segment → Bool
is_month (token mm) = true
is_month _ = false

-- The pattern tells the periods of the counter apart.
abbrev pub is_dated : DefaultScheme → Bool
is_dated d = elim d.reset [
  | never ↦ true
  | yearly ↦ any is_year (segments d.pattern)
  | monthly ↦ any is_year (segments d.pattern) && any is_month (segments d.pattern)
]

-- Every default scheme passes validation, and its pattern has the year, and the month, where its
-- counter is reset with them.
default_schemes_valid :
    All
      (λ d. (validate_scheme d.pattern d.gap_policy d.allocation ≡ none) × (is_dated d ≡ true))
      default_schemes
unfolding validate_scheme segments int
default_schemes_valid = (
  (refl, refl),
  (
    (refl, refl),
    (
      (refl, refl),
      (
        (refl, refl),
        (
          (refl, refl),
          (
            (refl, refl),
            (
              (refl, refl),
              (
                (refl, refl),
                (
                  (refl, refl),
                  (
                    (refl, refl),
                    (
                      (refl, refl),
                      (
                        (refl, refl),
                        (
                          (refl, refl),
                          (
                            (refl, refl),
                            (
                              (refl, refl),
                              ((refl, refl), ((refl, refl), ((refl, refl), ((refl, refl), tt)))),
                            ),
                          ),
                        ),
                      ),
                    ),
                  ),
                ),
              ),
            ),
          ),
        ),
      ),
    ),
  ),
)
