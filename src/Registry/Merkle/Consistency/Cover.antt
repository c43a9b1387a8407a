-- ===== src/Registry/Merkle/Consistency/Cover.antt =====
-- The nodes of `compact_range` cover its range in order, each aligned and with the right root.
use oath.Prelude.{
  ℕ, zero, suc, ◌+◌, ◌-◌, ◌≤◌, ◌≡◌, refl, arith, List, [], ◌∷◌, ◌++◌, Text, inl, inr, Bool-cases,
  ltb,
}
use oath.Registry.Merkle.Consistency.{MerkleRangeNode, compact_loop, compact_range, node_size}
use oath.Registry.Merkle.Consistency.Powers.{IsPow-pos}
use oath.Registry.Merkle.Consistency.Bits.{IsAligned, node_size-IsAligned}
use oath.Registry.Merkle.Consistency.Ranges.{range_root}

module _ (sha256 : Text → Text) (hashes : List Text) where
  -- The nodes fill the positions from `c` up to `e`.
  abbrev pub Covers : ℕ → ℕ → List MerkleRangeNode → Type 0
  Covers c e [] = c ≡ e
  Covers c e (n ∷ ns) =
      (n.start ≡ c)
      × IsAligned c e n.size
      × (n.hash ≡ range_root sha256 hashes c n.size)
      × Covers (c + n.size) e ns

  IsAligned-grow : (c e f n : ℕ) → e ≤ f → IsAligned c e n → IsAligned c f n
  IsAligned-grow c e f n h (p, l, q) = (p, omega arith, q)

  Covers-le : (c e : ℕ) (ns : List MerkleRangeNode) → Covers c e ns → c ≤ e
  Covers-le c e [] h = omega arith
  Covers-le c e (n ∷ ns) (s, a, r, rest) = omega (arith, a.1)

  pub Covers-append :
      (c m e : ℕ) (ns ms : List MerkleRangeNode)
      → Covers c m ns
      → Covers m e ms
      → Covers c e (ns ++ ms)
  Covers-append c m e [] ms h k = rw h k
  Covers-append c m e (n ∷ ns) ms (s, a, r, rest) k = (
    s,
    IsAligned-grow c m e n.size (Covers-le m e ms k) a,
    r,
    Covers-append (c + n.size) m e ns ms rest k,
  )

  compact_loop-Covers :
      (f c e : ℕ) → c ≤ e → e ≤ c + f → Covers c e (compact_loop sha256 f hashes c e)
  unfolding compact_loop
  compact_loop-Covers zero c e l h = omega arith
  compact_loop-Covers (suc f) c e l h = elim (Bool-cases (ltb c e)) [
    | inl more ↦
        let a = node_size-IsAligned c e (ground arith) in
        rw more (
          refl,
          a,
          refl,
          compact_loop-Covers f (c + node_size c e) e a.1
              (omega (arith, IsPow-pos (node_size c e) a.0)),
        )
    | inr done ↦ rw done (ground arith)
  ]

  pub compact_range-Covers : (c e : ℕ) → c ≤ e → Covers c e (compact_range sha256 hashes c e)
  unfolding compact_range
  compact_range-Covers c e l = compact_loop-Covers (e - c) c e l (omega arith)
