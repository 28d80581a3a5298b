-- ===== src/Transparency/Log.antt =====
-- The operations on one tenant's log (`append_leaf`, `current_root`, `proof_for` and `publish_head`
-- of backend/mizan/apps/documents/transparency.py). The table of leaves is a list in the order of
-- insertion; the advisory lock makes the appends of a tenant a sequence. Times are numbers, and the
-- signature of a tree head is an argument.
pub mod Laws
use mizan_labs_v.Prelude.{
  ℕ, ◌+◌, Option, none, some, List, [], ◌∷◌, ◌++◌, map, leb, if◌then◌else◌, length, get_elem?,
}
use mizan_labs_v.Transparency.{Bytes, Hash, IssuedDocument, leaf_hash, merkle_root, inclusion_proof}

module _ (H : Hash) where
  open H use {Digest}

  pub record Leaf : Type 0 where
    pub index : ℕ
    pub document : Bytes
    pub leaf_digest : Digest
    pub tree_head_hash : Digest
    pub published_at : Option ℕ

  pub record Head {ℓ} (Signature : Type ℓ) : Type ℓ where
    pub tree_size : ℕ
    pub root_hash : Digest
    pub signature : Signature
    pub head_published_at : ℕ

  pub record Proof : Type 0 where
    pub proof_index : ℕ
    pub size : ℕ
    pub digest : Digest
    pub root : Digest
    pub proof : List Digest

  -- TransparencyLeaf.objects.order_by("index").values_list("leaf_hash")
  abbrev pub hashes : List Leaf → List Digest
  hashes [] = []
  hashes (leaf ∷ log) = leaf.leaf_digest ∷ hashes log

  unfoldable pub new_leaf : List Leaf → IssuedDocument → Leaf
  new_leaf log document =
      let new_hash = leaf_hash H document in
      record {
        index = length log;
        document = document.id;
        leaf_digest = new_hash;
        tree_head_hash = merkle_root H (hashes log ++ (new_hash ∷ []));
        published_at = none;
      }

  -- The new log, and the document with its place in it.
  unfoldable pub append_leaf : List Leaf → IssuedDocument → List Leaf × IssuedDocument
  unfolding new_leaf
  append_leaf log document = (
    log ++ (new_leaf log document ∷ []),
    record document { transparency_leaf_index = some (length log) },
  )

  unfoldable pub current_root : List Leaf → ℕ × Digest
  current_root log = (length (hashes log), merkle_root H (hashes log))

  -- `none` is the IndexError. An index is a natural number here, so it is never below 0.
  unfoldable pub proof_for : List Leaf → ℕ → Option Proof
  proof_for log index = elim (get_elem? (hashes log) index) [
    | none ↦ none
    | some digest ↦ some (record {
      proof_index = index;
      size = length (hashes log);
      digest = digest;
      root = merkle_root H (hashes log);
      proof = inclusion_proof H (hashes log) index;
    })
  ]

  -- TransparencyLeaf.objects.filter(published_at__isnull=True).update(published_at=now)
  unfoldable pub publish_leaf : ℕ → Leaf → Leaf
  publish_leaf now leaf = elim (leaf.published_at) [
    | none ↦ record leaf { published_at = some now }
    | some t ↦ leaf
  ]

  unfoldable pub mark_published : ℕ → List Leaf → List Leaf
  mark_published now [] = []
  mark_published now (leaf ∷ log) = publish_leaf now leaf ∷ mark_published now log

  module _ {ℓ} {Signature : Type ℓ} (sign : ℕ → Digest → ℕ → Signature) where
    unfoldable pub publish_head : ℕ → List Leaf → Head Signature × List Leaf
    unfolding mark_published current_root
    publish_head now log =
        let (size, root) = current_root log in
        (
          record {
            tree_size = size;
            root_hash = root;
            signature = sign size root now;
            head_published_at = now;
          },
          mark_published now log,
        )
