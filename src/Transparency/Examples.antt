-- ===== src/Transparency/Examples.antt =====
-- A log of five leaves under a toy hash, and the theorems at it.
use native.Mathlib.Decide.{ℕ_discrete}
use mizan_labs_v.Prelude.{
  ◌≤◌, ◌<◌, ◌≡◌, refl, true, none, some, List, [], ◌∷◌, ◌++◌, arith, length, get_elem?, take,
}
use mizan_labs_v.Transparency.{
  Hash, Bytes, IssuedDocument, leaf_hash, split, shift, node_hash, merkle_root, inclusion_proof,
  climb, walk, verify_inclusion,
}
use mizan_labs_v.Transparency.Complete.{verify_inclusion-inclusion_proof}
use mizan_labs_v.Transparency.Sound.{NodeInjective, verify_inclusion_sound}
use mizan_labs_v.Transparency.Log.{Leaf, Proof, hashes, append_leaf, current_root, proof_for}
use mizan_labs_v.Transparency.Log.Laws.{IsLog, IsLog-nil, append_leaf-IsLog, proof_for_lem}

Bytes-discrete : Discrete Bytes
Bytes-discrete = hlevel ℕ_discrete

-- A digest is the hashed text itself, written with its length before it.
abbrev toy : Hash
toy = record { Digest = Bytes; bytes = λ d. length d ∷ d; sha256 = λ b. b; same = Bytes-discrete }

append_eq : (a b c d : Bytes) → length a ≡ length c → a ++ b ≡ c ++ d → (a ≡ c) × (b ≡ d)
append_eq [] b [] d len h = (refl, h)
append_eq [] b (y ∷ c) d len h = absurd (omega arith)
append_eq (x ∷ a) b [] d len h = absurd (omega arith)
append_eq (x ∷ a) b (y ∷ c) d len h =
    let heads : x ≡ y = cc in
    let (fronts, backs) = append_eq a b c d (omega arith) (cc) in (cc, backs)

toy-NodeInjective : NodeInjective toy
toy-NodeInjective a b c d h =
    let len : length a ≡ length c = cc in
    let (left, right) = append_eq a (length b ∷ b) c (length d ∷ d) len (cc) in (left, cc)

abbrev five : List Bytes
five = (1 ∷ []) ∷ (2 ∷ []) ∷ (3 ∷ []) ∷ (4 ∷ []) ∷ (5 ∷ []) ∷ []

split_runs : (split 5 ≡ 4) × (split 4 ≡ 2) × (split 2 ≡ 1) × (split 8 ≡ 4)
unfolding split
split_runs = (refl, refl, refl, refl)

verify_runs :
    verify_inclusion toy (5 ∷ []) 4 5 (inclusion_proof toy five 4) (merkle_root toy five) ≡ true
unfolding verify_inclusion inclusion_proof merkle_root walk climb node_hash shift split
    Bytes-discrete ℕ_discrete
verify_runs = refl

verify_inclusion-inclusion_proof_example :
    verify_inclusion toy (3 ∷ []) 2 5 (inclusion_proof toy five 2) (merkle_root toy five) ≡ true
verify_inclusion-inclusion_proof_example = verify_inclusion-inclusion_proof toy five 2 refl

verify_inclusion_sound_example :
    (get_elem? five 4 ≡ some (5 ∷ [])) × (inclusion_proof toy five 4 ≡ inclusion_proof toy five 4)
verify_inclusion_sound_example =
    verify_inclusion_sound toy toy-NodeInjective five 4 (5 ∷ []) (inclusion_proof toy five 4) refl
      verify_runs

abbrev report : IssuedDocument
report = record {
  id = 7 ∷ 7 ∷ [];
  content_hash = 9 ∷ [];
  issued_at = 2 ∷ 0 ∷ [];
  transparency_leaf_index = none;
}

abbrev one_report : List (Leaf toy)
one_report = (append_leaf toy [] report).0

abbrev second_report : IssuedDocument
second_report = record report { id = 8 ∷ [] }

abbrev two_reports : List (Leaf toy)
two_reports = (append_leaf toy one_report second_report).0

append_leaf-IsLog_example :
    IsLog toy two_reports
    × (take 1 two_reports ≡ one_report)
    × (length two_reports ≡ 2)
    × ((leaf : Leaf toy) × (get_elem? two_reports 1 ≡ some leaf)
        × (leaf.document ≡ 8 ∷ [])
        × (leaf.leaf_digest ≡ leaf_hash toy second_report)
        × ((append_leaf toy one_report second_report).1
            ≡ record second_report { transparency_leaf_index = some leaf.index }))
unfolding append_leaf
append_leaf-IsLog_example =
    append_leaf-IsLog toy one_report second_report
      (append_leaf-IsLog toy [] report (IsLog-nil toy)).0

proof_for_lem_example :
    (0 < length one_report
      → (p : Proof toy) × (proof_for toy one_report 0 ≡ some p)
        × (get_elem? (hashes toy one_report) 0 ≡ some p.digest)
        × ((p.size, p.root) ≡ current_root toy one_report)
        × (verify_inclusion toy p.digest p.proof_index p.size p.proof p.root ≡ true))
    × (length one_report ≤ 0 → proof_for toy one_report 0 ≡ none)
proof_for_lem_example = proof_for_lem toy one_report 0
