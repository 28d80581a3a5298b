-- ===== src/Numbering/Allocate/Search.antt =====
-- The search for a number that is not reserved, in `allocate` and in `preview`.
use mizan_labs_v.Prelude.{
  ℕ, zero, suc, ◌+◌, ◌≤◌, ◌<◌, ◌≡◌, ◌≢◌, ◌↔◌, refl, sym, ap, ◌∙◌, inl, inr, Bool, true, false, some,
  List, [], ◌∷◌, arith, ◌==◌, ==_iff, if◌then◌else◌, Bool-cases, length,
}
use mizan_labs_v.Numbering.Digits.{Text}
use mizan_labs_v.Numbering.Allocate.{same_text, elem, skip, look}

pub same_text_iff : (s t : Text) → (same_text s t ≡ true) ↔ (s ≡ t)
same_text_iff [] [] = (λ h. refl, λ h. refl)
same_text_iff [] (b ∷ t) = (λ h. cc, λ h. cc)
same_text_iff (a ∷ s) [] = (λ h. cc, λ h. cc)
same_text_iff (a ∷ s) (b ∷ t) =
    let (there, back) = same_text_iff s t in
    let (eq, test) = ==_iff a b in
    (
      λ h. let heads : a ≡ b = eq (ground arith) in let tails : s ≡ t = there (ground arith) in cc,
      λ h. let heads = test (cc) in let tails = back (cc) in rw (heads, tails),
    )

-- A list without the first copy of a text.
abbrev without : Text → List Text → List Text
without x [] = []
without x (y ∷ ys) = let rest = without x ys in if same_text y x then ys else y ∷ rest

length-without :
    (x : Text) (ys : List Text) → elem x ys ≡ true → suc (length (without x ys)) ≡ length ys
length-without x [] h = cc
length-without x (y ∷ ys) h = elim (Bool-cases (same_text y x)) [
  | inl here ↦ rw here
  | inr other ↦ rw other (omega (arith, length-without x ys (rw other at h)))
]

elem-without :
    (x z : Text) (ys : List Text) → x ≢ z → elem z ys ≡ true → elem z (without x ys) ≡ true
elem-without x z [] apart h = cc
elem-without x z (y ∷ ys) apart h = elim (Bool-cases (same_text y x)) [
  | inl here ↦
      let e : y ≡ x = (same_text_iff y x).0 here in
      elim (Bool-cases (same_text y z)) [
        | inl same ↦ absurd (apart (sym e ∙ (same_text_iff y z).0 same))
        | inr differs ↦ rw here (rw differs at h)
      ]
  | inr other ↦ elim (Bool-cases (same_text y z)) [
    | inl same ↦ rw (other, same)
    | inr differs ↦ rw (other, differs) (elem-without x z ys apart (rw differs at h))
  ]
]

module _ (number : ℕ → Text) where
  -- Texts of consecutive numbers in a list, all different, are no more than the list is long.
  pigeonhole :
      ((m n : ℕ) → number m ≡ number n → m ≡ n)
      → (n c : ℕ) (ys : List Text) → ((i : ℕ) → c < i → i ≤ c + n → elem (number i) ys ≡ true)
      → n ≤ length ys
  pigeonhole injective zero c ys h = omega arith
  pigeonhole injective (suc n) c ys h =
      let first = h (suc c) (omega arith) (omega arith) in
      let rest = pigeonhole injective n (suc c) (without (number (suc c)) ys) (λ i low high.
        elem-without (number (suc c)) (number i) ys
          (λ same. absurd (omega (arith, injective (suc c) i same)))
          (h i (omega arith) (omega arith))) in
      omega (arith, length-without (number (suc c)) ys first)

  -- A search that ends at a counter went past reserved numbers only, to one that is free.
  pub skip_found :
      (rounds : ℕ) (ys : List Text) (c s : ℕ)
      → skip rounds number ys c ≡ (s, true)
      → (c < s) × (s ≤ c + rounds) × (elem (number s) ys ≡ false)
  unfolding skip
  skip_found zero ys c s h = cc (ap (λ (p : ℕ × Bool). p.1) h)
  skip_found (suc rounds) ys c s h = elim (Bool-cases (elem (number (c + 1)) ys)) [
    | inl taken ↦
        let (low, high, free) = skip_found rounds ys (c + 1) s (rw taken at h) in
        (omega arith, omega arith, free)
    | inr free ↦
        let e : c + 1 ≡ s = ap (λ (p : ℕ × Bool). p.0) (rw free at h) in
        (omega arith, omega arith, rw (← e) free)
  ]

  pub skip_le : (rounds : ℕ) (ys : List Text) (c : ℕ) → c ≤ (skip rounds number ys c).0
  unfolding skip
  skip_le zero ys c = omega arith
  skip_le (suc rounds) ys c = elim (Bool-cases (elem (number (c + 1)) ys)) [
    | inl taken ↦ rw taken (omega (arith, skip_le rounds ys (c + 1)))
    | inr free ↦ rw free (omega arith)
  ]

  skip_failed :
      (rounds : ℕ) (ys : List Text) (c : ℕ)
      → (skip rounds number ys c).1 ≡ false
      → (i : ℕ) → c < i
      → i ≤ c + rounds
      → elem (number i) ys ≡ true
  unfolding skip
  skip_failed zero ys c h i low high = absurd (omega arith)
  skip_failed (suc rounds) ys c h i low high = elim (Bool-cases (elem (number (c + 1)) ys)) [
    | inl taken ↦ elim (Bool-cases (i == c + 1)) [
      | inl here ↦ rw ((==_iff i (c + 1)).0 here) taken
      | inr later ↦ skip_failed rounds ys (c + 1) (rw taken at h) i (ground arith) (omega arith)
    ]
    | inr free ↦ let stuck : true ≡ false = rw free at h in cc
  ]

  -- More rounds than reserved numbers are enough.
  pub skip_enough :
      ((m n : ℕ) → number m ≡ number n → m ≡ n)
      → (rounds : ℕ) (ys : List Text) (c : ℕ) → length ys < rounds
      → (skip rounds number ys c).1 ≡ true
  skip_enough injective rounds ys c h = elim (Bool-cases (skip rounds number ys c).1) [
    | inl found ↦ found
    | inr failed ↦
        absurd (omega (arith, pigeonhole injective rounds c ys (skip_failed rounds ys c failed)))
  ]

  pub skip_more :
      (m n : ℕ) (ys : List Text) (c : ℕ)
      → m ≤ n
      → (skip m number ys c).1 ≡ true
      → skip n number ys c ≡ skip m number ys c
  unfolding skip
  skip_more zero n ys c le h = cc
  skip_more (suc m) zero ys c le h = absurd (omega arith)
  skip_more (suc m) (suc n) ys c le h = elim (Bool-cases (elem (number (c + 1)) ys)) [
    | inl taken ↦ rw taken (skip_more m n ys (c + 1) (omega arith) (rw taken at h))
    | inr free ↦ rw free
  ]

  -- `preview` finds what the search of `allocate` finds in as many rounds.
  pub look-skip :
      (rounds : ℕ) (ys : List Text) (c : ℕ)
      → (skip rounds number ys c).1 ≡ true
      → look rounds number ys (c + 1) ≡ some (number (skip rounds number ys c).0)
  unfolding skip look
  look-skip zero ys c h = cc
  look-skip (suc rounds) ys c h = elim (Bool-cases (elem (number (c + 1)) ys)) [
    | inl taken ↦ rw taken (look-skip rounds ys (c + 1) (rw taken at h))
    | inr free ↦ rw free
  ]
