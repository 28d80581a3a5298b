-- ===== src/Transparency/Equations.antt =====
-- The recursions of `merkle_root` and `inclusion_proof` on slices, without their fuel.
use mizan_labs_v.Prelude.{
  ℕ, zero, suc, ◌-◌, ◌≤◌, ◌<◌, ◌≡◌, refl, List, [], ◌∷◌, ◌++◌, arith, ltb, if◌then◌else◌, length,
  take, drop, length-take, length-drop,
}
use mizan_labs_v.Transparency.{
  Hash, split, node_hash, root_fuel, merkle_root, path_fuel, inclusion_proof,
}
use mizan_labs_v.Transparency.Split.{split_bounds}

-- The two parts into which the code cuts two leaves or more are shorter than the whole.
module _ {ℓ} {A : Type ℓ} (leaves : List A) (long : 1 < length leaves) where
  pub length-left : length (take (split (length leaves)) leaves) ≡ split (length leaves)
  length-left =
      omega (arith, length-take (split (length leaves)) leaves, split_bounds (length leaves) long)

  pub length-right :
      length (drop (split (length leaves)) leaves) ≡ length leaves - split (length leaves)
  length-right = length-drop (split (length leaves)) leaves

module _ (H : Hash) where
  open H use {Digest}

  root_fuel-eq :
      (f g : ℕ) (leaves : List Digest)
      → length leaves ≤ f
      → length leaves ≤ g
      → root_fuel H f leaves ≡ root_fuel H g leaves
  unfolding root_fuel
  root_fuel-eq f g [] hf hg = refl
  root_fuel-eq f g (x ∷ []) hf hg = refl
  root_fuel-eq zero g (x ∷ y ∷ r) hf hg = absurd (omega arith)
  root_fuel-eq (suc f) zero (x ∷ y ∷ r) hf hg = absurd (omega arith)
  root_fuel-eq (suc f) (suc g) (x ∷ y ∷ r) hf hg =
      let k = split (length (x ∷ y ∷ r)) in
      let bounds = split_bounds (length (x ∷ y ∷ r)) (omega arith) in
      let left = length-left (x ∷ y ∷ r) (omega arith) in
      let right = length-right (x ∷ y ∷ r) (omega arith) in
      cc (
        root_fuel-eq f g (take k (x ∷ y ∷ r)) (omega arith) (omega arith),
        root_fuel-eq f g (drop k (x ∷ y ∷ r)) (omega arith) (omega arith),
      )

  -- The recursive equation of `merkle_root`, with no fuel in it.
  pub merkle_root-node :
      (leaves : List Digest)
      → 1 < length leaves
      → merkle_root H leaves
        ≡ node_hash H
            (merkle_root H (take (split (length leaves)) leaves))
            (merkle_root H (drop (split (length leaves)) leaves))
  unfolding merkle_root
  merkle_root-node [] h = absurd (omega arith)
  merkle_root-node (x ∷ []) h = absurd (omega arith)
  merkle_root-node (x ∷ y ∷ r) h =
      let leaves = x ∷ y ∷ r in
      let k = split (length leaves) in
      let bounds = split_bounds (length leaves) h in
      let left = length-left leaves h in
      let right = length-right leaves h in
      cc (
        root_fuel-eq (suc (length r)) (length (take k leaves)) (take k leaves) (omega arith)
            (omega arith),
        root_fuel-eq (suc (length r)) (length (drop k leaves)) (drop k leaves) (omega arith)
            (omega arith),
      )

  path_fuel-eq :
      (f g : ℕ) (leaves : List Digest) (index : ℕ)
      → length leaves ≤ f
      → length leaves ≤ g
      → path_fuel H f leaves index ≡ path_fuel H g leaves index
  unfolding path_fuel
  path_fuel-eq f g [] i hf hg = refl
  path_fuel-eq f g (x ∷ []) i hf hg = refl
  path_fuel-eq zero g (x ∷ y ∷ r) i hf hg = absurd (omega arith)
  path_fuel-eq (suc f) zero (x ∷ y ∷ r) i hf hg = absurd (omega arith)
  path_fuel-eq (suc f) (suc g) (x ∷ y ∷ r) i hf hg =
      let k = split (length (x ∷ y ∷ r)) in
      let bounds = split_bounds (length (x ∷ y ∷ r)) (omega arith) in
      let left = length-left (x ∷ y ∷ r) (omega arith) in
      let right = length-right (x ∷ y ∷ r) (omega arith) in
      cc (
        path_fuel-eq f g (take k (x ∷ y ∷ r)) i (omega arith) (omega arith),
        path_fuel-eq f g (drop k (x ∷ y ∷ r)) (i - k) (omega arith) (omega arith),
      )

  -- The recursive equation of `inclusion_proof`, with no fuel in it.
  pub inclusion_proof-node :
      (leaves : List Digest) (index : ℕ)
      → 1 < length leaves
      → let k = split (length leaves) in
        inclusion_proof H leaves index ≡ (
          if ltb index k
          then inclusion_proof H (take k leaves) index ++ (merkle_root H (drop k leaves) ∷ [])
          else inclusion_proof H (drop k leaves) (index - k)
            ++ (merkle_root H (take k leaves) ∷ []))
  unfolding inclusion_proof
  inclusion_proof-node [] i h = absurd (omega arith)
  inclusion_proof-node (x ∷ []) i h = absurd (omega arith)
  inclusion_proof-node (x ∷ y ∷ r) i h =
      let leaves = x ∷ y ∷ r in
      let k = split (length leaves) in
      let bounds = split_bounds (length leaves) h in
      let left = length-left leaves h in
      let right = length-right leaves h in
      cc (
        path_fuel-eq (suc (length r)) (length (take k leaves)) (take k leaves) i (omega arith)
            (omega arith),
        path_fuel-eq (suc (length r)) (length (drop k leaves)) (drop k leaves) (i - k) (omega arith)
            (omega arith),
      )
