-- ===== src/Transparency/Complete.antt =====
-- The audit path of a leaf under `verify_inclusion`.
use native.Mathlib.Nat.{pow-suc}
use mizan_labs_v.Prelude.{
  ℕ, zero, suc, ◌+◌, ◌-◌, ◌*◌, ◌/◌, ◌^◌, ◌≤◌, ◌<◌, ◌≡◌, ◌∙◌, refl, ap, ap₂, inl, inr, true, false,
  some, List, [], ◌∷◌, arith, ltb, leb, ltb→lt, ltb_false→le, leb→le, leb_false→lt, lt→leb_false,
  get_elem?-lt, Bool-cases, length, get_elem?, take, drop, get_elem?-take, get_elem?-drop,
}
use mizan_labs_v.Transparency.{
  Hash, Walk, split, merkle_root, inclusion_proof, walk, equal, verify_inclusion,
}
use mizan_labs_v.Transparency.Split.{split-eq-pow, mul-pow-suc, pow_pos, lt-pow}
use mizan_labs_v.Transparency.Equations.{length-left, length-right}
use mizan_labs_v.Transparency.Paths.{at, from_left, from_right, from_edge}

-- The position `o` at height `h + 1`, as the position of one of its halves at height `h`.
module _ (h f o i : ℕ) (here : f ≡ o * 2 ^ suc h + i) where
  in_left : f ≡ o * 2 * 2 ^ h + i
  in_left = omega (arith, mul-pow-suc o h)

  in_right : 2 ^ h ≤ i → f ≡ (o * 2 + 1) * 2 ^ h + (i - 2 ^ h)
  in_right le = omega (arith, mul-pow-suc o h)

-- The last leaf's position at height `h`, from the one at height `h + 1`.
record HalfOf (h n q : ℕ) : Type 0 where
  half : ℕ
  rest : ℕ
  splits : n ≡ half * 2 ^ h + rest
  small : rest < 2 ^ h
  from : q * 2 ≤ half
  back : half / 2 ≡ q

half_of : (h n q s : ℕ) → n ≡ q * 2 ^ suc h + s → s < 2 ^ suc h → HalfOf h n q
half_of h n q s here hs = elim (Bool-cases (ltb s (2 ^ h))) [
  | inl low ↦ record {
    half = q * 2;
    rest = s;
    splits = in_left h n q s here;
    small = ltb→lt s (2 ^ h) low;
    from = omega arith;
    back = omega arith;
  }
  | inr high ↦ record {
    half = q * 2 + 1;
    rest = s - 2 ^ h;
    splits = in_right h n q s here (ltb_false→le s (2 ^ h) high);
    small = omega (arith, ltb_false→le s (2 ^ h) high, pow-suc 2 h);
    from = omega arith;
    back = omega arith;
  }
]

module _ (H : Hash) where
  open H use {Digest}

  -- A log of one leaf has the empty path.
  one_leaf :
      (y x : Digest) (f n : ℕ)
      → get_elem? (y ∷ []) 0 ≡ some x
      → walk H (at H x f n) (inclusion_proof H (y ∷ []) 0) ≡ at H (merkle_root H (y ∷ [])) f n
  unfolding walk merkle_root inclusion_proof
  one_leaf y x f n leaf = cc

  -- The walk through a full subtree of height `h` that is not the last one.
  abbrev FullPath : ℕ → Type 0
  FullPath h =
      (leaves : List Digest) (x : Digest) (f n i s o q : ℕ)
      → length leaves ≡ 2 ^ h
      → i < 2 ^ h
      → s < 2 ^ h
      → o < q
      → get_elem? leaves i ≡ some x
      → f ≡ o * 2 ^ h + i
      → n ≡ q * 2 ^ h + s
      → walk H (at H x f n) (inclusion_proof H leaves i) ≡ at H (merkle_root H leaves) o q

  full_path : (h : ℕ) → FullPath h
  full_path zero [] x f n i s o q len hi hs lt leaf hf hn = absurd (omega arith)
  full_path zero (y ∷ []) x f n zero s o q len hi hs lt leaf hf hn =
      let f-o : f ≡ o = omega arith in let n-q : n ≡ q = omega arith in cc (one_leaf y x f n leaf)
  full_path zero (y ∷ []) x f n (suc i) s o q len hi hs lt leaf hf hn = absurd (omega arith)
  full_path zero (y ∷ z ∷ r) x f n i s o q len hi hs lt leaf hf hn = absurd (omega arith)
  full_path (suc h) leaves x f n i s o q len hi hs lt leaf hf hn =
      let p = 2 ^ h in
      let twice : 2 ^ suc h ≡ p * 2 = pow-suc 2 h in
      let pos = pow_pos h in
      let long : 1 < length leaves = omega arith in
      let cut : split (length leaves) ≡ p =
        split-eq-pow h (length leaves) (omega arith) (omega arith) in
      let last = half_of h n q s hn hs in
      let left = length-left leaves long in
      let right = length-right leaves long in
      elim (Bool-cases (ltb i p)) [
        | inl below ↦
            let lower = ltb→lt i p below in
            from_left H leaves i long (at H x f n) o last.half (omega arith)
              (omega (arith, last.from))
              (full_path h (take (split (length leaves)) leaves) x f n i last.rest (o * 2) last.half
                (omega arith) lower last.small (omega (arith, last.from))
                (get_elem?-take (split (length leaves)) leaves i (omega arith) ∙ leaf)
                (in_left h f o i hf) last.splits)
            ∙ ap (at H (merkle_root H leaves) o) last.back
        | inr above ↦
            let upper = ltb_false→le i p above in
            from_right H leaves i long (at H x f n) o last.half (omega arith) (
              full_path h (drop (split (length leaves)) leaves) x f n (i - split (length leaves))
                last.rest (o * 2 + 1) last.half (omega arith) (omega arith) last.small
                (omega (arith, last.from))
                (get_elem?-drop (split (length leaves)) leaves i (omega arith) ∙ leaf)
                (in_right h f o i hf upper ∙ omega arith) last.splits)
            ∙ ap (at H (merkle_root H leaves) o) last.back
      ]

  -- The walk through the last subtree, of height at most `h`: both counters end at the position of
  -- the subtree, times the power of two that the levels with no sibling leave on them.
  abbrev LastPath : ℕ → Type 0
  LastPath h =
      (leaves : List Digest) (x : Digest) (f n i o : ℕ)
      → length leaves ≤ 2 ^ h
      → i < length leaves
      → get_elem? leaves i ≡ some x
      → f ≡ o * 2 ^ h + i
      → n ≡ o * 2 ^ h + (length leaves - 1)
      → (j : ℕ) × (walk H (at H x f n) (inclusion_proof H leaves i)
          ≡ at H (merkle_root H leaves) (o * 2 ^ j) (o * 2 ^ j))

  edge_zero :
      (w : Walk H) (r : Digest) (o q : ℕ)
      → o ≡ q
      → w ≡ at H r o q
      → (j : ℕ) × (w ≡ at H r (o * 2 ^ j) (o * 2 ^ j))
  edge_zero w r o q e h = (0, let same : o * 2 ^ 0 ≡ o = omega arith in rw same cc)

  -- The step for a last subtree that is higher than `h`: its left half is full.
  grown :
      (h : ℕ) (leaves : List Digest) (x : Digest) (f n i o : ℕ)
      → LastPath h
      → leb (length leaves) (2 ^ h) ≡ false
      → length leaves ≤ 2 ^ suc h
      → i < length leaves
      → get_elem? leaves i ≡ some x
      → f ≡ o * 2 ^ suc h + i
      → n ≡ o * 2 ^ suc h + (length leaves - 1)
      → (j : ℕ) × (walk H (at H x f n) (inclusion_proof H leaves i)
          ≡ at H (merkle_root H leaves) (o * 2 ^ j) (o * 2 ^ j))
  grown h leaves x f n i o ih tall len hi leaf hf hn =
      let p = 2 ^ h in
      let twice : 2 ^ suc h ≡ p * 2 = pow-suc 2 h in
      let pos = pow_pos h in
      let more : p < length leaves = leb_false→lt (length leaves) p tall in
      let long : 1 < length leaves = omega arith in
      let cut : split (length leaves) ≡ p = split-eq-pow h (length leaves) more (omega arith) in
      let left = length-left leaves long in
      let right = length-right leaves long in
      let end = in_right h n o (length leaves - 1) hn (omega arith) in
      elim (Bool-cases (ltb i p)) [
        | inl below ↦
            let lower = ltb→lt i p below in
            edge_zero _ _ o ((o * 2 + 1) / 2) (omega arith) (
              from_left H leaves i long (at H x f n) o (o * 2 + 1) (omega arith) (omega arith) (
                full_path h (take (split (length leaves)) leaves) x f n i (length leaves - 1 - p)
                  (o * 2) (o * 2 + 1) (omega arith) lower (omega arith) (omega arith)
                  (get_elem?-take (split (length leaves)) leaves i (omega arith) ∙ leaf)
                  (in_left h f o i hf) end))
        | inr above ↦
            let upper = ltb_false→le i p above in
            let (j, edge) =
              ih (drop (split (length leaves)) leaves) x f n (i - split (length leaves)) (o * 2 + 1)
                (omega arith) (omega arith)
                (get_elem?-drop (split (length leaves)) leaves i (omega arith) ∙ leaf)
                (in_right h f o i hf upper ∙ omega arith) (end ∙ omega arith) in
            edge_zero _ _ o o refl (from_edge H leaves i long (at H x f n) j o (omega arith) edge)
      ]

  last_path : (h : ℕ) → LastPath h
  last_path zero [] x f n i o len hi leaf hf hn = absurd (omega arith)
  last_path zero (y ∷ []) x f n zero o len hi leaf hf hn =
      edge_zero _ _ o o refl
        (one_leaf y x f n leaf ∙ ap₂ (at H (merkle_root H (y ∷ []))) (omega arith) (omega arith))
  last_path zero (y ∷ []) x f n (suc i) o len hi leaf hf hn = absurd (omega arith)
  last_path zero (y ∷ z ∷ r) x f n i o len hi leaf hf hn = absurd (omega arith)
  last_path (suc h) leaves x f n i o len hi leaf hf hn =
      let p = 2 ^ h in
      let twice : 2 ^ suc h ≡ p * 2 = pow-suc 2 h in
      elim (Bool-cases (leb (length leaves) p)) [
        | inl short ↦
            let (j, lower) =
              last_path h leaves x f n i (o * 2) (leb→le (length leaves) p short) hi leaf
                (in_left h f o i hf) (in_left h n o (length leaves - 1) hn) in
            (suc j, rw (mul-pow-suc o j) lower)
        | inr tall ↦ grown h leaves x f n i o (last_path h) tall len hi leaf hf hn
      ]

  -- The walk along the audit path of a leaf of the log ends at the root, with both counters at 0.
  pub walk-inclusion_proof :
      (leaves : List Digest) (index : ℕ) {leaf : Digest}
      → get_elem? leaves index ≡ some leaf
      → walk H (at H leaf index (length leaves - 1)) (inclusion_proof H leaves index)
        ≡ at H (merkle_root H leaves) 0 0
  walk-inclusion_proof leaves index {leaf} found =
      let n = length leaves in
      let (j, end) =
        last_path n leaves leaf index (n - 1) index 0 (omega (arith, lt-pow n))
          (get_elem?-lt leaves index found) found (omega arith) (omega arith) in
      end ∙ ap₂ (at H (merkle_root H leaves)) (omega arith) (omega arith)

  equal_refl : (a : Digest) → equal H a a ≡ true
  unfolding equal
  equal_refl a = ground arith

  -- The audit path of a leaf of the log is accepted for its index, the size and the root.
  pub verify_inclusion-inclusion_proof :
      (leaves : List Digest) (index : ℕ) {leaf : Digest}
      → get_elem? leaves index ≡ some leaf
      → verify_inclusion H leaf index
          (length leaves)
          (inclusion_proof H leaves index)
          (merkle_root H leaves)
        ≡ true
  unfolding verify_inclusion
  verify_inclusion-inclusion_proof leaves index {leaf} found =
      rw
        (
          lt→leb_false (length leaves) index (get_elem?-lt leaves index found),
          walk-inclusion_proof leaves index found,
        )
        (equal_refl (merkle_root H leaves))
