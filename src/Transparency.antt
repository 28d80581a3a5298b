-- ===== src/Transparency.antt =====
-- The Merkle log of issued documents (backend/mizan/apps/documents/transparency.py): hashing,
-- audit paths and their check, and the operations on one tenant's log. SHA-256, the encoding of a
-- digest and the signature are of other libraries and enter as `Hash` and as arguments. A digest
-- that the database stores in hexadecimal is kept as the digest.
pub mod Split
pub mod Equations
pub mod Paths
pub mod Complete
pub mod Sound
pub mod Log
mod Examples
use mizan_labs_v.Prelude.{
  ℕ, zero, suc, ◌+◌, ◌-◌, ◌*◌, ◌/◌, ◌%◌, Bool, true, false, not, ◌&&◌, ◌||◌, Option, none, some,
  List, [], ◌∷◌, ◌++◌, map, ltb, leb, ◌==◌, if◌then◌else◌, length, get_elem?, take, drop,
}

abbrev pub Bytes : Type 0
Bytes = List ℕ

-- hashlib.sha256, the bytes of a digest, and Python's `==` on two digests.
pub record Hash : Type 1 where
  pub Digest : Type 0
  pub bytes : Digest → Bytes
  pub sha256 : Bytes → Digest
  pub same : Discrete Digest

-- k = 1; while k * 2 < n: k *= 2. Each round doubles k, so n rounds are more than enough.
split_loop : ℕ → ℕ → ℕ → ℕ
split_loop zero k n = k
split_loop (suc f) k n = let rest = split_loop f (k * 2) n in if ltb (k * 2) n then rest else k

unfoldable pub split : ℕ → ℕ
unfolding split_loop
split n = split_loop n 1 n

-- while f_n % 2 == 0 and f_n != 0: f_n //= 2; s_n //= 2. Each round lowers f_n.
shift_loop : ℕ → ℕ → ℕ → ℕ × ℕ
shift_loop zero f_n s_n = (f_n, s_n)
shift_loop (suc fuel) f_n s_n =
    let rest = shift_loop fuel (f_n / 2) (s_n / 2) in
    if f_n % 2 == 0 && not (f_n == 0) then rest else (f_n, s_n)

unfoldable pub shift : ℕ → ℕ → ℕ × ℕ
unfolding shift_loop
shift f_n s_n = shift_loop f_n f_n s_n

-- A document, as far as the log reads it: the bytes of its id, of its content hash and of its
-- issue time in ISO form.
pub record IssuedDocument : Type 0 where
  pub id : Bytes
  pub content_hash : Bytes
  pub issued_at : Bytes
  pub transparency_leaf_index : Option ℕ

unfoldable pub leaf_data : IssuedDocument → Bytes
leaf_data document = document.id ++ (document.content_hash ++ document.issued_at)

module _ (H : Hash) where
  open H use {Digest, bytes, sha256, same}

  unfoldable pub leaf_hash : IssuedDocument → Digest
  unfolding leaf_data
  leaf_hash document = sha256 (0 ∷ leaf_data document)

  -- _sha(b"\x01" + left + right)
  unfoldable pub node_hash : Digest → Digest → Digest
  node_hash left right = sha256 (1 ∷ (bytes left ++ bytes right))

  -- The recursion of `merkle_root` on slices, by fuel; `merkle_root` gives the number of leaves.
  root_fuel : ℕ → List Digest → Digest
  root_fuel f [] = sha256 []
  root_fuel f (x ∷ []) = x
  root_fuel zero (x ∷ y ∷ r) = x
  root_fuel (suc f) (x ∷ y ∷ r) =
      let leaves = x ∷ y ∷ r in
      let k = split (length leaves) in
      node_hash (root_fuel f (take k leaves)) (root_fuel f (drop k leaves))

  unfoldable pub merkle_root : List Digest → Digest
  unfolding root_fuel
  merkle_root leaves = root_fuel (length leaves) leaves

  path_fuel : ℕ → List Digest → ℕ → List Digest
  path_fuel f [] index = []
  path_fuel f (x ∷ []) index = []
  path_fuel zero (x ∷ y ∷ r) index = []
  path_fuel (suc f) (x ∷ y ∷ r) index =
      let leaves = x ∷ y ∷ r in
      let k = split (length leaves) in
      let left = path_fuel f (take k leaves) index ++ (merkle_root (drop k leaves) ∷ []) in
      let right = path_fuel f (drop k leaves) (index - k) ++ (merkle_root (take k leaves) ∷ []) in
      if ltb index k then left else right

  unfoldable pub inclusion_proof : List Digest → ℕ → List Digest
  unfolding path_fuel
  inclusion_proof leaves index = path_fuel (length leaves) leaves index

  -- The variables of the loop of `verify_inclusion`.
  pub record Walk : Type 0 where
    pub node : Digest
    pub f_n : ℕ
    pub s_n : ℕ

  -- One round of that loop.
  unfoldable pub climb : Walk → Digest → Walk
  climb w sibling =
      if w.f_n % 2 == 1 || w.f_n == w.s_n
      then (let (f, s) = shift w.f_n w.s_n in
          record { node = node_hash sibling w.node; f_n = f / 2; s_n = s / 2 })
      else record { node = node_hash w.node sibling; f_n = w.f_n / 2; s_n = w.s_n / 2 }

  unfoldable pub walk : Walk → List Digest → Walk
  walk w [] = w
  walk w (sibling ∷ proof) = walk (climb w sibling) proof

  pub equal : Digest → Digest → Bool
  equal a b = elim (same a b) [ yes _ ↦ true | no _ ↦ false ]

  unfoldable pub verify_inclusion : Digest → ℕ → ℕ → List Digest → Digest → Bool
  unfolding equal
  verify_inclusion leaf index size proof root =
      if leb size index
      then false
      else equal (walk (record { node = leaf; f_n = index; s_n = size - 1 }) proof).node root
