-- ===== src/Transparency/Log/Laws.antt =====
-- The leaves, heads and proofs of a log after its operations.
use mathlib.Core.Option
use mizan_labs_v.Prelude.{
  ℕ, suc, ◌+◌, ◌≤◌, ◌<◌, ◌≡◌, ◌∙◌, refl, sym, ap, inl, inr, true, none, some, List, [], ◌∷◌, ◌++◌,
  arith, length, get_elem?, take, length-append, get_elem?-lt, get_elem?-some, get_elem?-none,
  get_elem?-snoc, get_elem?-snoc_new, take-append_le, take_all,
}
use mizan_labs_v.Transparency.{
  Hash, IssuedDocument, leaf_hash, merkle_root, inclusion_proof, verify_inclusion,
}
use mizan_labs_v.Transparency.Complete.{verify_inclusion-inclusion_proof}
use mizan_labs_v.Transparency.Log.{
  Leaf, Proof, hashes, new_leaf, append_leaf, current_root, proof_for, publish_leaf, mark_published,
  publish_head,
}

module _ (H : Hash) where
  open H use {Digest}

  -- Each leaf carries its position, and the root of the log as it was when the leaf was appended.
  pub record IsLog (log : List (Leaf H)) : Type 0 where
    pub at_index :
        (i : ℕ) (leaf : Leaf H)
        → get_elem? log i ≡ some leaf
        → (leaf.index ≡ i) × (leaf.tree_head_hash ≡ merkle_root H (take (suc i) (hashes H log)))

  hashes-append :
      (log : List (Leaf H)) (leaf : Leaf H)
      → hashes H (log ++ (leaf ∷ [])) ≡ hashes H log ++ (leaf.leaf_digest ∷ [])
  hashes-append [] leaf = refl
  hashes-append (x ∷ log) leaf = ap (λ r. x.leaf_digest ∷ r) (hashes-append log leaf)

  length-hashes : (log : List (Leaf H)) → length (hashes H log) ≡ length log
  length-hashes [] = refl
  length-hashes (x ∷ log) = ap suc (length-hashes log)

  pub IsLog-nil : IsLog []
  IsLog-nil = record { at_index = λ i leaf h. cc }

  tree_before :
      (log : List (Leaf H)) (leaf : Leaf H) (i : ℕ)
      → i < length log
      → take (suc i) (hashes H (log ++ (leaf ∷ []))) ≡ take (suc i) (hashes H log)
  tree_before log leaf i h = rw (hashes-append log leaf) (
      take-append_le (suc i) (hashes H log) (leaf.leaf_digest ∷ [])
        (omega (arith, length-hashes log)))

  tree_now :
      (log : List (Leaf H)) (leaf : Leaf H)
      → take (suc (length log)) (hashes H (log ++ (leaf ∷ [])))
        ≡ hashes H log ++ (leaf.leaf_digest ∷ [])
  tree_now log leaf = rw (hashes-append log leaf) (
      take_all (suc (length log)) (hashes H log ++ (leaf.leaf_digest ∷ []))
        (omega (arith, length-hashes log, length-append (hashes H log) (leaf.leaf_digest ∷ []))))

  IsLog-append_leaf :
      (log : List (Leaf H)) (document : IssuedDocument)
      → IsLog log
      → IsLog (append_leaf H log document).0
  unfolding append_leaf
  IsLog-append_leaf log document valid = record {
    at_index = λ i leaf h. elim (get_elem?-snoc log (new_leaf H log document) i h) [
      | inl old ↦
          let (position, head) = valid.at_index i leaf old in
          (
            position,
            head
                ∙ ap (merkle_root H)
                    (sym (tree_before log (new_leaf H log document) i (get_elem?-lt log i old))),
          )
      | inr (e, new) ↦
          let now = tree_now log (new_leaf H log document) in
          rw (e, ← new) (unfold new_leaf in (refl, ap (merkle_root H) (sym now)))
    ];
  }

  -- An append leaves the former log as the beginning of the new one, which has one leaf more: that of
  -- the document, with its hash, at the index that the document is given. Each leaf still carries its
  -- position, and the root of the log as it was when the leaf was appended.
  pub append_leaf-IsLog :
      (log : List (Leaf H)) (document : IssuedDocument)
      → IsLog log
      → let (new, issued) = append_leaf H log document in
        IsLog new
        × (take (length log) new ≡ log)
        × (length new ≡ length log + 1)
        × ((leaf : Leaf H) × (get_elem? new (length log) ≡ some leaf)
            × (leaf.document ≡ document.id)
            × (leaf.leaf_digest ≡ leaf_hash H document)
            × (issued ≡ record document { transparency_leaf_index = some leaf.index }))
  unfolding append_leaf new_leaf
  append_leaf-IsLog log document valid = (
    IsLog-append_leaf log document valid,
    take-append_le (length log) log _ (omega arith) ∙ take_all (length log) log (omega arith),
    length-append log _,
    (new_leaf H log document, get_elem?-snoc_new log _, refl, refl, refl),
  )

  -- The root that the log shows after an append is the tree head stored with the new leaf.
  append_leaf-current_root :
      (log : List (Leaf H)) (document : IssuedDocument)
      → current_root H (append_leaf H log document).0
        ≡ (length log + 1, (new_leaf H log document).tree_head_hash)
  unfolding append_leaf current_root
  append_leaf-current_root log document = rw (hashes-append log (new_leaf H log document)) (
      ap (λ n. (n, merkle_root H (hashes H log ++ (leaf_hash H document ∷ []))))
        (omega
          (arith, length-hashes log, length-append (hashes H log) (leaf_hash H document ∷ []))))

  proof_at : (log : List (Leaf H)) (index : ℕ) → Digest → Proof H
  proof_at log index digest = record {
    proof_index = index;
    size = length (hashes H log);
    digest = digest;
    root = merkle_root H (hashes H log);
    proof = inclusion_proof H (hashes H log) index;
  }

  -- Below the size of the log `proof_for` answers, with the digest of the leaf at the index, the
  -- current root, and a path that `verify_inclusion` accepts; from the size on it answers nothing.
  pub proof_for_lem :
      (log : List (Leaf H)) (index : ℕ)
      → (index < length log
          → (p : Proof H) × (proof_for H log index ≡ some p)
            × (get_elem? (hashes H log) index ≡ some p.digest)
            × ((p.size, p.root) ≡ current_root H log)
            × (verify_inclusion H p.digest p.proof_index p.size p.proof p.root ≡ true))
        × (length log ≤ index → proof_for H log index ≡ none)
  unfolding proof_for proof_at current_root
  proof_for_lem log index = (
    λ inside.
        let (digest, found) =
          get_elem?-some (hashes H log) index (omega (arith, length-hashes log)) in
        (
          proof_at log index digest,
          rw (found, proof_for),
          found,
          refl,
          verify_inclusion-inclusion_proof H (hashes H log) index found,
        ),
    λ outside.
        let missing = get_elem?-none (hashes H log) index (omega (arith, length-hashes log)) in
        rw (missing, proof_for),
  )

  -- Every leaf has a time of publication, the given one unless it had one before.
  abbrev pub Published : ℕ → List (Leaf H) → List (Leaf H) → Type 0
  Published now [] new = new ≡ []
  Published now (leaf ∷ log) [] = ⊥
  Published now (leaf ∷ log) (leaf' ∷ new) =
      (leaf' ≡ record leaf { published_at = some (Option.get_or leaf.published_at now) })
      × Published now log new

  publish_leaf_lem :
      (now : ℕ) (leaf : Leaf H)
      → publish_leaf H now leaf
        ≡ record leaf { published_at = some (Option.get_or leaf.published_at now) }
  unfolding publish_leaf
  publish_leaf_lem now leaf = ground arith

  publish_leaf-digest :
      (now : ℕ) (leaf : Leaf H) → (publish_leaf H now leaf).leaf_digest ≡ leaf.leaf_digest
  unfolding publish_leaf
  publish_leaf-digest now leaf = ground arith

  mark_published_lem :
      (now : ℕ) (log : List (Leaf H)) → Published now log (mark_published H now log)
  unfolding mark_published
  mark_published_lem now [] = refl
  mark_published_lem now (leaf ∷ log) = (publish_leaf_lem now leaf, mark_published_lem now log)

  mark_published-hashes :
      (now : ℕ) (log : List (Leaf H)) → hashes H (mark_published H now log) ≡ hashes H log
  unfolding mark_published
  mark_published-hashes now [] = refl
  mark_published-hashes now (leaf ∷ log) =
      cc (publish_leaf-digest now leaf, mark_published-hashes now log)

  -- Publishing signs the current size and root, gives every leaf a time of publication, that of the
  -- head unless it had one before, and changes no digest of the log.
  publish_head_lem {ℓ} :
      {Signature : Type ℓ} (sign : ℕ → Digest → ℕ → Signature) (now : ℕ) (log : List (Leaf H))
      → let (head, new) = publish_head H sign now log in
        ((head.tree_size, head.root_hash) ≡ current_root H log)
        × (head.signature ≡ sign (length (hashes H log)) (merkle_root H (hashes H log)) now)
        × Published now log new
        × (current_root H new ≡ current_root H log)
  unfolding publish_head current_root
  publish_head_lem sign now log =
      (refl, refl, mark_published_lem now log, rw (mark_published-hashes now log))
