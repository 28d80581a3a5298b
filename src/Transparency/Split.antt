-- ===== src/Transparency/Split.antt =====
-- The two inner loops of the log's arithmetic: `split`, which finds the size of a left subtree, and
-- `shift`, which skips the levels at which a right edge has no sibling.
use native.Mathlib.Nat.{pow-suc, pow-zero}
use mizan_labs_v.Prelude.{
  ℕ, zero, suc, ◌*◌, ◌/◌, ◌%◌, ◌^◌, ◌≤◌, ◌<◌, ◌≡◌, refl, arith, lt→ltb, sym, ◌∙◌,
}
use mizan_labs_v.Transparency.{split_loop, split, shift_loop, shift}

pub pow_pos : (h : ℕ) → 0 < 2 ^ h
pow_pos zero = rw pow-zero (omega arith)
pow_pos (suc h) = rw pow-suc (omega (arith, pow_pos h))

pub lt-pow : (h : ℕ) → h < 2 ^ h
lt-pow zero = rw pow-zero (omega arith)
lt-pow (suc h) = rw pow-suc (omega (arith, lt-pow h))

mul_double : (k p : ℕ) → k * (p * 2) ≡ k * 2 * p
mul_double k p = omega arith

le-mul_pos : (k p : ℕ) → 0 < p → k ≤ k * p
le-mul_pos k p h = grind arith

pub mul-pow-suc : (k d : ℕ) → k * 2 ^ suc d ≡ k * 2 * 2 ^ d
mul-pow-suc k d = rw pow-suc (mul_double k (2 ^ d))

pub le-mul-pow : (k d : ℕ) → k ≤ k * 2 ^ d
le-mul-pow k d = le-mul_pos k (2 ^ d) (pow_pos d)

split_loop_lem :
    (d f k n : ℕ) → d < f → k * 2 ^ d < n → n ≤ 2 * (k * 2 ^ d) → split_loop f k n ≡ k * 2 ^ d
unfolding split_loop
split_loop_lem d zero k n h lo hi = absurd (omega arith)
split_loop_lem zero (suc f) k n h lo hi = ground arith
split_loop_lem (suc d) (suc f) k n h lo hi =
    let double = mul-pow-suc k d in
    let below = le-mul-pow (k * 2) d in
    let next = split_loop_lem d f (k * 2) n (omega arith) (omega arith) (omega arith) in
    rw (lt→ltb (k * 2) n (omega arith)) (next ∙ sym double)

split_loop_bounds : (f k n : ℕ) → k < n → (k ≤ split_loop f k n) × (split_loop f k n < n)
unfolding split_loop
split_loop_bounds zero k n h = (omega arith, h)
split_loop_bounds (suc f) k n h = ground (arith, split_loop_bounds f (k * 2) n)

-- A left subtree of two leaves or more is not empty and not the whole.
pub split_bounds : (n : ℕ) → 1 < n → (0 < split n) × (split n < n)
unfolding split
split_bounds n h = omega (arith, split_loop_bounds n 1 n h)

-- `split` finds the largest power of two below the number of leaves.
pub split-eq-pow : (h n : ℕ) → 2 ^ h < n → n ≤ 2 * 2 ^ h → split n ≡ 2 ^ h
unfolding split
split-eq-pow h n lo hi =
    split_loop_lem h n 1 n (omega (arith, lt-pow h)) (omega arith) (omega arith) ∙ omega arith

-- At an odd number the loop does nothing.
shift_odd : (f f_n s_n : ℕ) → f_n % 2 ≡ 1 → shift_loop f f_n s_n ≡ (f_n, s_n)
unfolding shift_loop
shift_odd zero f_n s_n h = refl
shift_odd (suc f) f_n s_n h = ground arith

pub shift-odd : (f_n s_n : ℕ) → f_n % 2 ≡ 1 → shift f_n s_n ≡ (f_n, s_n)
unfolding shift
shift-odd f_n s_n h = shift_odd f_n f_n s_n h

shift_loop_zero : (f s_n : ℕ) → shift_loop f 0 s_n ≡ (0, s_n)
unfolding shift_loop
shift_loop_zero zero s_n = refl
shift_loop_zero (suc f) s_n = refl

-- `shift` removes from two equal numbers the power of two that an odd number carries.
shift_even :
    (f f_n s_n : ℕ)
    → f_n % 2 ≡ 0
    → 0 < f_n
    → shift_loop (suc f) f_n s_n ≡ shift_loop f (f_n / 2) (s_n / 2)
unfolding shift_loop
shift_even f f_n s_n even pos = ground arith

double_half : (o p : ℕ) → o * 2 * p / 2 ≡ o * p
double_half o p = omega arith

double_even : (o p : ℕ) → o * 2 * p % 2 ≡ 0
double_even o p = omega arith

shift_loop_edge : (j f o : ℕ) → o % 2 ≡ 1 → j < f → shift_loop f (o * 2 ^ j) (o * 2 ^ j) ≡ (o, o)
shift_loop_edge zero f o h lt = let e : o * 2 ^ 0 ≡ o = omega arith in rw e (shift_odd f o o h)
shift_loop_edge (suc j) zero o h lt = absurd (omega arith)
shift_loop_edge (suc j) (suc f) o h lt =
    let double = mul-pow-suc o j in
    let half : o * 2 * 2 ^ j / 2 ≡ o * 2 ^ j = double_half o (2 ^ j) in
    let even : o * 2 * 2 ^ j % 2 ≡ 0 = double_even o (2 ^ j) in
    let positive = le-mul-pow o j in
    rw double (
      shift_even f (o * 2 * 2 ^ j) (o * 2 * 2 ^ j) even (omega arith)
      ∙ rw half (shift_loop_edge j f o h (omega arith)))

below_edge : (o p : ℕ) {j : ℕ} → o % 2 ≡ 1 → j < p → j < o * p
below_edge o p h lt = grind arith

pub shift-edge : (j o : ℕ) → o % 2 ≡ 1 → shift (o * 2 ^ j) (o * 2 ^ j) ≡ (o, o)
unfolding shift
shift-edge j o h = shift_loop_edge j (o * 2 ^ j) o h (below_edge o (2 ^ j) h (lt-pow j))
