-- ===== src/Registry/Merkle/Consistency/Complete.antt =====
-- A consistency proof that the registry makes is accepted, for every prefix of the log.
use oath.Prelude.{
  ℕ, zero, suc, ◌^◌, ◌≤◌, ◌<◌, ◌≡◌, refl, sym, ◌∙◌, ap, arith, List, [], ◌∷◌, ◌++◌, length, take,
  Text, true, some, text_eq_refl, ◌*◌, ◌==◌,
}
use oath.Registry.Merkle.{subtree_root, merkle_root}
use oath.Registry.Merkle.Tree.{subtree_root-empty}
use oath.Registry.Merkle.Consistency.{
  MerkleRangeNode, MerkleConsistencyProof, compact_range, finish_root, root_from_frontier,
  merkle_consistency_proof, verify_merkle_consistency,
}
use oath.Registry.Merkle.Consistency.Powers.{IsPow-pos, IsPow-double}
use oath.Registry.Merkle.Consistency.Ranges.{range_root, slice_all}
use oath.Registry.Merkle.Consistency.Cover.{Covers, Covers-append, compact_range-Covers}
use oath.Registry.Merkle.Consistency.Frontier.{IsStack, frontier_loop-IsStack, fold_root-range}

module _ (sha256 : Text → Text) (hashes : List Text) (fits : length hashes < 2 ^ 64) where
  finish_root-IsStack :
      (e : ℕ) (st : List MerkleRangeNode)
      → suc e ≤ length hashes
      → IsStack sha256 hashes (suc e) st
      → finish_root sha256 (suc e) (some (suc e, st)) ≡ some (range_root sha256 hashes 0 (suc e))
  unfolding finish_root
  finish_root-IsStack e [] l h = absurd (omega arith)
  finish_root-IsStack e (top ∷ below) l (w, p, (m, ls), h, rest) =
      let t : (suc e == suc e) ≡ true = ground arith in
      rw t (
        ap some (
          fold_root-range sha256 hashes below top.start top.size (top.size * 2) m top.hash rest h
            (IsPow-pos top.size p) (omega arith) (IsPow-double top.size p) (omega arith) ls
          ∙ ap (range_root sha256 hashes 0) w))

  -- From any aligned covering of the first `e` hashes the loop computes their root.
  pub root_from_frontier-Covers :
      (e : ℕ) (ns : List MerkleRangeNode)
      → e ≤ length hashes
      → Covers sha256 hashes 0 e ns
      → root_from_frontier sha256 ns e ≡ some (subtree_root sha256 (take e hashes))
  unfolding root_from_frontier
  root_from_frontier-Covers zero [] l h = ap some (sym (subtree_root-empty sha256))
  root_from_frontier-Covers zero (n ∷ ns) l (at, (p, le, q), h, rest) =
      absurd (omega (arith, IsPow-pos n.size p))
  root_from_frontier-Covers (suc e) ns l h =
      let (st, r, i) = frontier_loop-IsStack sha256 hashes ns 0 (suc e) [] l fits h refl in
      rw r (finish_root-IsStack e st l i)

  -- For every prefix of a log of fewer than 2^64 events a proof is made, and it is accepted for the
  -- roots of the prefix and of the whole log.
  pub verify-consistency_proof :
      (from_size : ℕ)
      → from_size ≤ length hashes
      → (proof : MerkleConsistencyProof) × (merkle_consistency_proof sha256 hashes from_size
          ≡ some proof)
        × (verify_merkle_consistency sha256 proof
              (merkle_root sha256 (take from_size hashes))
              (merkle_root sha256 hashes)
            ≡ true)
  unfolding merkle_consistency_proof verify_merkle_consistency merkle_root
  verify-consistency_proof k l =
      let n = length hashes in
      let prefix = compact_range sha256 hashes 0 k in
      let suffix = compact_range sha256 hashes k n in
      let a = compact_range-Covers sha256 hashes 0 k (omega arith) in
      let b = compact_range-Covers sha256 hashes k n l in
      let p = root_from_frontier-Covers k prefix l a in
      let f =
        root_from_frontier-Covers n (prefix ++ suffix) (omega arith)
          (Covers-append sha256 hashes 0 k n prefix suffix a b)
        ∙ ap (λ t. some (subtree_root sha256 t)) (slice_all hashes) in
      (
        record { from_size = k; to_size = n; prefix = prefix; suffix = suffix },
        ground arith,
        ground (
          arith,
          p,
          f,
          text_eq_refl (subtree_root sha256 (take k hashes)),
          text_eq_refl (subtree_root sha256 hashes),
        ),
      )
