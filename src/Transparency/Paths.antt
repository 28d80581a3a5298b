-- ===== src/Transparency/Paths.antt =====
-- The two counters of `verify_inclusion` along an audit path.
use mizan_labs_v.Prelude.{
  ℕ, ◌+◌, ◌-◌, ◌*◌, ◌/◌, ◌%◌, ◌^◌, ◌≤◌, ◌<◌, ◌≡◌, ◌≢◌, ◌∙◌, refl, sym, ap, List, [], ◌∷◌, ◌++◌,
  arith, length, take, drop,
}
use mizan_labs_v.Transparency.{
  Hash, Walk, split, node_hash, merkle_root, inclusion_proof, climb, walk,
}
use mizan_labs_v.Transparency.Split.{shift-odd, shift-edge}
use mizan_labs_v.Transparency.Equations.{merkle_root-node, inclusion_proof-node}

module _ (H : Hash) where
  open H use {Digest}

  abbrev pub at : Digest → ℕ → ℕ → Walk H
  at x f s = record { node = x; f_n = f; s_n = s }

  walk-append :
      (w : Walk H) (proof : List Digest) (sibling : Digest)
      → walk H w (proof ++ (sibling ∷ [])) ≡ climb H (walk H w proof) sibling
  unfolding walk
  walk-append w [] sibling = refl
  walk-append w (x ∷ proof) sibling = walk-append (climb H w x) proof sibling

  climb_left :
      (x y : Digest) (f s : ℕ)
      → f % 2 ≡ 0
      → f ≢ s
      → climb H (at x f s) y ≡ at (node_hash H x y) (f / 2) (s / 2)
  unfolding climb
  climb_left x y f s even ne = ground arith

  climb_right :
      (x y : Digest) (f s : ℕ)
      → f % 2 ≡ 1
      → climb H (at x f s) y ≡ at (node_hash H y x) (f / 2) (s / 2)
  unfolding climb
  climb_right x y f s odd = ground (arith, shift-odd f s odd)

  climb_edge :
      (x y : Digest) (j o : ℕ)
      → o % 2 ≡ 1
      → climb H (at x (o * 2 ^ j) (o * 2 ^ j)) y ≡ at (node_hash H y x) (o / 2) (o / 2)
  unfolding climb
  climb_edge x y j o odd = ground (arith, shift-edge j o odd)

  -- The three ways in which a round goes from a subtree to its parent, at position `o`.
  climb_from_left :
      (x y : Digest) (o q : ℕ)
      → o * 2 < q
      → climb H (at x (o * 2) q) y ≡ at (node_hash H x y) o (q / 2)
  climb_from_left x y o q h =
      climb_left x y (o * 2) q (omega arith) (omega arith)
      ∙ ap (λ f. at (node_hash H x y) f (q / 2)) (omega arith)

  climb_from_right :
      (x y : Digest) (o q : ℕ) → climb H (at x (o * 2 + 1) q) y ≡ at (node_hash H y x) o (q / 2)
  climb_from_right x y o q =
      climb_right x y (o * 2 + 1) q (omega arith)
      ∙ ap (λ f. at (node_hash H y x) f (q / 2)) (omega arith)

  climb_from_edge :
      (x y : Digest) (j o : ℕ)
      → climb H (at x ((o * 2 + 1) * 2 ^ j) ((o * 2 + 1) * 2 ^ j)) y ≡ at (node_hash H y x) o o
  climb_from_edge x y j o =
      climb_edge x y j (o * 2 + 1) (omega arith) ∙ ap (λ f. at (node_hash H y x) f f) (omega arith)

  -- The audit path of a leaf of two leaves or more: that of its half, and the root of the other.
  module _ (leaves : List Digest) (i : ℕ) (long : 1 < length leaves) where
    pub proof_left :
        i < split (length leaves)
        → inclusion_proof H leaves i
          ≡ inclusion_proof H (take (split (length leaves)) leaves) i
            ++ (merkle_root H (drop (split (length leaves)) leaves) ∷ [])
    proof_left h = ground (arith, inclusion_proof-node H leaves i long)

    pub proof_right :
        split (length leaves) ≤ i
        → inclusion_proof H leaves i
          ≡ inclusion_proof H (drop (split (length leaves)) leaves) (i - split (length leaves))
            ++ (merkle_root H (take (split (length leaves)) leaves) ∷ [])
    proof_right h = ground (arith, inclusion_proof-node H leaves i long)

    abbrev left_leaves : List Digest
    left_leaves = take (split (length leaves)) leaves

    abbrev right_leaves : List Digest
    right_leaves = drop (split (length leaves)) leaves

    to_root :
        (w : Walk H) (o q : ℕ)
        → w ≡ at (node_hash H (merkle_root H left_leaves) (merkle_root H right_leaves)) o q
        → w ≡ at (merkle_root H leaves) o q
    to_root w o q h = h ∙ ap (λ r. at r o q) (sym (merkle_root-node H leaves long))

    -- A walk through one half that ends at the half's root goes on to the root of the whole.
    pub from_left :
        (w : Walk H) (o q : ℕ)
        → i < split (length leaves)
        → o * 2 < q
        → walk H w (inclusion_proof H left_leaves i) ≡ at (merkle_root H left_leaves) (o * 2) q
        → walk H w (inclusion_proof H leaves i) ≡ at (merkle_root H leaves) o (q / 2)
    from_left w o q h lt half = rw (proof_left h) (
        to_root _ o (q / 2) (
          walk-append w (inclusion_proof H left_leaves i) (merkle_root H right_leaves)
          ∙ ap (λ v. climb H v (merkle_root H right_leaves)) half
          ∙ climb_from_left _ _ o q lt))

    pub from_right :
        (w : Walk H) (o q : ℕ)
        → split (length leaves) ≤ i
        → walk H w (inclusion_proof H right_leaves (i - split (length leaves)))
          ≡ at (merkle_root H right_leaves) (o * 2 + 1) q
        → walk H w (inclusion_proof H leaves i) ≡ at (merkle_root H leaves) o (q / 2)
    from_right w o q h half = rw (proof_right h) (
        to_root _ o (q / 2) (
          walk-append w (inclusion_proof H right_leaves (i - split (length leaves)))
            (merkle_root H left_leaves)
          ∙ ap (λ v. climb H v (merkle_root H left_leaves)) half
          ∙ climb_from_right _ _ o q))

    pub from_edge :
        (w : Walk H) (j o : ℕ)
        → split (length leaves) ≤ i
        → walk H w (inclusion_proof H right_leaves (i - split (length leaves)))
          ≡ at (merkle_root H right_leaves) ((o * 2 + 1) * 2 ^ j) ((o * 2 + 1) * 2 ^ j)
        → walk H w (inclusion_proof H leaves i) ≡ at (merkle_root H leaves) o o
    from_edge w j o h half = rw (proof_right h) (
        to_root _ o o (
          walk-append w (inclusion_proof H right_leaves (i - split (length leaves)))
            (merkle_root H left_leaves)
          ∙ ap (λ v. climb H v (merkle_root H left_leaves)) half
          ∙ climb_from_edge _ _ j o))
