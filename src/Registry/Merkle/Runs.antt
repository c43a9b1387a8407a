-- ===== src/Registry/Merkle/Runs.antt =====
-- The Merkle tree on small logs, with a checksum of 64 numbers in place of the digest.
use oath.Prelude.{
  ℕ, ◌+◌, ◌*◌, ◌%◌, ◌≡◌, ◌⊎◌, refl, true, some, List, [], ◌∷◌, length, take, get_elem?, arith, Text,
}
use oath.Registry.Merkle.{
  merkle_root, merkle_inclusion_proof, verify_merkle_inclusion, split_point, subtree_root,
  hash_leaf,
}
use oath.Registry.Merkle.Inclusion.{verify-proof}
use oath.Digest.{Collision}
use oath.Registry.Merkle.Soundness.{verify_merkle_inclusion_sound}
use oath.Registry.Merkle.Consistency.{
  MerkleConsistencyProof, merkle_consistency_proof, verify_merkle_consistency,
}
use oath.Registry.Merkle.Consistency.Complete.{verify-consistency_proof}

abbrev checksum : Text → ℕ
checksum [] = 7
checksum (b ∷ bs) = (b + 31 * checksum bs) % 1_000_003

abbrev zeros : ℕ → Text
zeros ℕ.zero = []
zeros (ℕ.suc n) = 0 ∷ zeros n

abbrev toy_digest : Text → Text
toy_digest x = checksum x ∷ zeros 63

length-toy_digest : (x : Text) → length (toy_digest x) ≡ 64
length-toy_digest x = refl

abbrev five : List Text
five = (b'a' ∷ []) ∷ (b'b' ∷ []) ∷ (b'c' ∷ []) ∷ (b'd' ∷ []) ∷ (b'e' ∷ []) ∷ []

-- The roots of the two subtrees are bound by the prefix byte 1.
root_of_one : merkle_root toy_digest ((b'a' ∷ []) ∷ []) ≡ toy_digest (0 ∷ b'a' ∷ [])
unfolding merkle_root subtree_root oath.Registry.Merkle.tree_root hash_leaf
root_of_one = refl

verify-proof_example :
    (proof : List Text) × (merkle_inclusion_proof toy_digest five 3 ≡ some proof)
    × (verify_merkle_inclusion toy_digest (b'd' ∷ []) 3 5 proof (merkle_root toy_digest five)
        ≡ true)
verify-proof_example = verify-proof toy_digest five 3 refl

verify_merkle_inclusion_sound_example : Collision toy_digest ⊎ (get_elem? five 3 ≡ some (b'd' ∷ []))
verify_merkle_inclusion_sound_example =
    verify_merkle_inclusion_sound toy_digest length-toy_digest five verify-proof_example.0 3
      (b'd' ∷ []) verify-proof_example.2

verify-consistency_proof_example :
    (proof : MerkleConsistencyProof) × (merkle_consistency_proof toy_digest five 3 ≡ some proof)
    × (verify_merkle_consistency toy_digest proof
          (merkle_root toy_digest (take 3 five))
          (merkle_root toy_digest five)
        ≡ true)
verify-consistency_proof_example =
    verify-consistency_proof toy_digest five (omega arith) 3 (omega arith)
