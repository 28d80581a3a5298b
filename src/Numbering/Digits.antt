-- ===== src/Numbering/Digits.antt =====
-- Decimal texts (`str(n)`, `str.zfill` and `int` of a run of digits), by their code points.
use mizan_labs_v.Prelude.{
  ℕ, zero, suc, ◌+◌, ◌-◌, ◌*◌, ◌/◌, ◌%◌, ◌<◌, ◌≡◌, refl, sym, ap, ◌∙◌, inl, inr, List, [], ◌∷◌,
  ◌++◌, arith, ltb, if◌then◌else◌, Bool-cases, length, ltb_false→le,
}

abbrev pub Text : Type 0
Text = List ℕ

digits_fuel : ℕ → ℕ → Text
digits_fuel zero n = []
digits_fuel (suc f) n =
    let rest = digits_fuel f (n / 10) in
    if ltb n 10 then (48 + n) ∷ [] else rest ++ ((48 + n % 10) ∷ [])

unfoldable pub str : ℕ → Text
unfolding digits_fuel
str n = digits_fuel (suc n) n

abbrev zeros : ℕ → Text
zeros zero = []
zeros (suc n) = 48 ∷ zeros n

unfoldable pub zfill : ℕ → Text → Text
zfill width s = zeros (width - length s) ++ s

-- int(s), continued from the value of the digits before.
unfoldable pub int : ℕ → Text → ℕ
int acc [] = acc
int acc (d ∷ s) = int (acc * 10 + (d - 48)) s

int-append : (acc : ℕ) (s t : Text) → int acc (s ++ t) ≡ int (int acc s) t
unfolding int
int-append acc [] t = refl
int-append acc (d ∷ s) t = int-append (acc * 10 + (d - 48)) s t

int-digits : (f n : ℕ) → n < f → int 0 (digits_fuel f n) ≡ n
unfolding digits_fuel int
int-digits zero n h = absurd (omega arith)
int-digits (suc f) n h = elim (Bool-cases (ltb n 10)) [
  | inl small ↦ rw small (omega arith)
  | inr large ↦
      let big = ltb_false→le n 10 large in
      let rest = int-digits f (n / 10) (omega (arith, big)) in
      rw (large, int-append 0 (digits_fuel f (n / 10)) ((48 + n % 10) ∷ []), rest)
        (omega (arith, big))
]

-- Reading back what was written, padded or not, gives the number.
pub int-str : (n : ℕ) → int 0 (str n) ≡ n
unfolding str
int-str n = int-digits (suc n) n (omega arith)

int-zeros : (k : ℕ) (s : Text) → int 0 (zeros k ++ s) ≡ int 0 s
unfolding int
int-zeros zero s = refl
int-zeros (suc k) s = int-zeros k s

pub int-zfill : (width n : ℕ) → int 0 (zfill width (str n)) ≡ n
unfolding zfill
int-zfill width n = int-zeros (width - length (str n)) (str n) ∙ int-str n

pub zfill_injective : (width m n : ℕ) → zfill width (str m) ≡ zfill width (str n) → m ≡ n
zfill_injective width m n h = sym (int-zfill width m) ∙ ap (int 0) h ∙ int-zfill width n
