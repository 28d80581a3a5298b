-- ===== src/Transparency/Sound.antt =====
-- Accepted audit paths, for a hash that keeps two nodes apart; their length, and the empty path.
use native.Mathlib.Nat.{pow-suc}
use mizan_labs_v.Prelude.{
  ℕ, zero, suc, ◌-◌, ◌*◌, ◌/◌, ◌%◌, ◌^◌, ◌≤◌, ◌<◌, ◌≡◌, ◌∙◌, refl, sym, ap, inl, inr, Bool, true,
  false, some, List, [], ◌∷◌, ◌++◌, ◌||◌, arith, ltb, leb, ◌==◌, ltb→lt, ltb_false→le, leb→le,
  leb_false→lt, if◌then◌else◌, Bool-cases, length, get_elem?, take, drop, length-append,
  get_elem?-some,
}
use mizan_labs_v.Transparency.{
  Hash, Walk, split, shift, node_hash, merkle_root, inclusion_proof, climb, walk, equal,
  verify_inclusion,
}
use mizan_labs_v.Transparency.Split.{split-eq-pow, pow_pos}
use mizan_labs_v.Transparency.Equations.{length-left, length-right}
use mizan_labs_v.Transparency.Paths.{at, proof_left, proof_right}
use mizan_labs_v.Transparency.Complete.{walk-inclusion_proof}

module _ (H : Hash) where
  open H use {Digest, bytes, sha256, same}

  -- Collision resistance in its ideal form: the digest of a node determines its two children.
  abbrev pub NodeInjective : Type 0
  NodeInjective =
      (a b c d : Digest)
      → sha256 (1 ∷ (bytes a ++ bytes b)) ≡ sha256 (1 ∷ (bytes c ++ bytes d))
      → (a ≡ c) × (b ≡ d)

  equal→eq : (a b : Digest) → equal H a b ≡ true → a ≡ b
  unfolding equal
  equal→eq a b h = ground arith

  -- On which side of the node a sibling stands, and the counters after the round.
  abbrev on_left : ℕ → ℕ → Bool
  on_left f s = f % 2 == 1 || f == s

  abbrev counters : ℕ → ℕ → ℕ × ℕ
  counters f s = if on_left f s then ((shift f s).0 / 2, (shift f s).1 / 2) else (f / 2, s / 2)

  climb-at :
      (x sibling : Digest) (f s : ℕ)
      → climb H (at H x f s) sibling
        ≡ at H
            (if on_left f s then node_hash H sibling x else node_hash H x sibling)
            (counters f s).0
            (counters f s).1
  unfolding climb
  climb-at x sibling f s = ground arith

  module _ (injective : NodeInjective) where
    node-injective :
        (side : Bool) (x y a b : Digest)
        → (if side then node_hash H a x else node_hash H x a)
          ≡ (if side then node_hash H b y else node_hash H y b)
        → (x ≡ y) × (a ≡ b)
    unfolding node_hash
    node-injective true x y a b h = let (p, q) = injective a x b y h in (q, p)
    node-injective false x y a b h = injective x a y b h

    -- Two walks with the same counters and paths of one length that end in one digest began with
    -- one digest, and took one path.
    walk-injective :
        (x y : Digest) (f s : ℕ) (p q : List Digest)
        → length p ≡ length q
        → (walk H (at H x f s) p).node ≡ (walk H (at H y f s) q).node
        → (x ≡ y) × (p ≡ q)
    unfolding walk
    walk-injective x y f s [] [] len h = (h, refl)
    walk-injective x y f s [] (b ∷ q) len h = absurd (omega arith)
    walk-injective x y f s (a ∷ p) [] len h = absurd (omega arith)
    walk-injective x y f s (a ∷ p) (b ∷ q) len h =
        let above : (walk H (climb H (at H x f s) a) p).node
            ≡ (walk H (climb H (at H y f s) b) q).node =
          h in
        let (nodes, rest) =
          walk-injective (if on_left f s then node_hash H a x else node_hash H x a)
            (if on_left f s then node_hash H b y else node_hash H y b) (counters f s).0
            (counters f s).1 p q (omega arith) (rw (climb-at x a f s, climb-at y b f s) at above) in
        let (leaf, sibling) = node-injective (on_left f s) x y a b nodes in (leaf, cc)

    accepted_parts :
        (leaf : Digest) (index size : ℕ) (proof : List Digest) (root : Digest)
        → verify_inclusion H leaf index size proof root ≡ true
        → (index < size) × ((walk H (at H leaf index (size - 1)) proof).node ≡ root)
    unfolding verify_inclusion
    accepted_parts leaf index size proof root h =
        ground (arith, equal→eq (walk H (at H leaf index (size - 1)) proof).node root)

    -- A path of the right length that is accepted for an index of the log is the audit path, and
    -- the digest is that of the leaf at this index: nothing else can be passed off as it.
    pub verify_inclusion_sound :
        (leaves : List Digest) (index : ℕ) (leaf : Digest) (proof : List Digest)
        → length proof ≡ length (inclusion_proof H leaves index)
        → verify_inclusion H leaf index (length leaves) proof (merkle_root H leaves) ≡ true
        → (get_elem? leaves index ≡ some leaf) × (proof ≡ inclusion_proof H leaves index)
    verify_inclusion_sound leaves index leaf proof len accepted =
        let (inside, end) = accepted_parts leaf index (length leaves) proof _ accepted in
        let (there, found) = get_elem?-some leaves index inside in
        let honest = walk-inclusion_proof H leaves index found in
        let (leaf_eq, proof_eq) =
          walk-injective leaf there index (length leaves - 1) proof (inclusion_proof H leaves index)
            len (end ∙ ap (λ (w : Walk H). w.node) (sym honest)) in
        (cc, proof_eq)

  -- An audit path is no longer than the height of the tree.
  length-inclusion_proof :
      (h : ℕ) (leaves : List Digest) (index : ℕ)
      → length leaves ≤ 2 ^ h
      → length (inclusion_proof H leaves index) ≤ h
  length-inclusion_proof zero [] i len = unfold inclusion_proof in omega arith
  length-inclusion_proof zero (x ∷ []) i len = unfold inclusion_proof in omega arith
  length-inclusion_proof zero (x ∷ y ∷ r) i len = absurd (omega arith)
  length-inclusion_proof (suc h) leaves i len =
      let k = split (length leaves) in
      let p = 2 ^ h in
      let twice : 2 ^ suc h ≡ p * 2 = pow-suc 2 h in
      let pos = pow_pos h in
      elim (Bool-cases (leb (length leaves) p)) [
        | inl short ↦
            omega (arith, length-inclusion_proof h leaves i (leb→le (length leaves) p short))
        | inr tall ↦
            let more = leb_false→lt (length leaves) p tall in
            let long : 1 < length leaves = omega arith in
            let cut : k ≡ p = split-eq-pow h (length leaves) more (omega arith) in
            let left = length-left leaves long in
            let right = length-right leaves long in
            elim (Bool-cases (ltb i k)) [
              | inl below ↦ rw (proof_left H leaves i long (ltb→lt i k below)) (
                  omega (
                    arith,
                    length-append (inclusion_proof H (take k leaves) i)
                        (merkle_root H (drop k leaves) ∷ []),
                    length-inclusion_proof h (take k leaves) i (omega arith),
                  ))
              | inr above ↦ rw (proof_right H leaves i long (ltb_false→le i k above)) (
                  omega (
                    arith,
                    length-append (inclusion_proof H (drop k leaves) (i - k))
                        (merkle_root H (take k leaves) ∷ []),
                    length-inclusion_proof h (drop k leaves) (i - k) (omega arith),
                  ))
            ]
      ]

  -- The check does not compare the last `s_n` with 0, as RFC 6962 asks: the root itself, with no
  -- path at all, is accepted at every index of a log of any size.
  verify_inclusion-nil :
      (root : Digest) (index size : ℕ)
      → index < size
      → verify_inclusion H root index size [] root ≡ true
  unfolding verify_inclusion walk equal
  verify_inclusion-nil root index size h = ground arith
