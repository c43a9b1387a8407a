-- ===== src/Registry/Merkle/Consistency/Frontier.antt =====
-- The stack of `root_from_frontier`: the nodes on it halve in size towards the top, and each has
-- the root of its range.
use native.Mathlib.Nat.{mul_assoc, mul-mod_right}
use mathlib.Core.Path.{ap₂, subst}
use oath.Prelude.{
  ℕ, ◌+◌, ◌*◌, ◌%◌, ◌^◌, ◌≤◌, ◌<◌, ◌≡◌, refl, sym, ◌∙◌, ap, arith, List, [], ◌∷◌, length, Text, inl,
  inr, true, false, Bool-cases, ◌==◌, some,
}
use oath.Registry.Merkle.{hash_children}
use oath.Registry.Merkle.Consistency.{
  MerkleRangeNode, merge_top, join_nodes, frontier_loop, fold_root,
}
use oath.Registry.Merkle.Consistency.Powers.{IsPow, IsPow-pos, IsPow-double, odd_bound, dvd_of_lt}
use oath.Registry.Merkle.Consistency.Bits.{IsAligned, is_power_of_two-IsPow}
use oath.Registry.Merkle.Consistency.Ranges.{range_root, range_root-join}
use oath.Registry.Merkle.Consistency.Cover.{Covers}

odd_multiple : (l s m c : ℕ) → s ≡ l * 2 * m → s + l ≡ c → c ≡ l * (2 * m + 1)
odd_multiple l s m c e f = omega arith

module _ (sha256 : Text → Text) (hashes : List Text) where
  -- The stack covers the positions below `c`; each node starts at a multiple of twice its size.
  abbrev pub IsStack : ℕ → List MerkleRangeNode → Type 0
  IsStack c [] = c ≡ 0
  IsStack c (n ∷ ns) =
      (n.start + n.size ≡ c)
      × IsPow n.size
      × ((m : ℕ) × (n.start ≡ n.size * 2 * m))
      × (n.hash ≡ range_root sha256 hashes n.start n.size)
      × IsStack n.start ns

  join_hash :
      (s a b t : ℕ) (x y : Text)
      → x ≡ range_root sha256 hashes s a
      → y ≡ range_root sha256 hashes t b
      → s + a ≡ t
      → IsPow a
      → 0 < b
      → b ≤ a
      → s + (a + b) ≤ length hashes
      → hash_children sha256 x y ≡ range_root sha256 hashes s (a + b)
  join_hash s a b t x y hx hy w p z l h =
      ap₂ (hash_children sha256) hx (hy ∙ ap (λ u. range_root sha256 hashes u b) (sym w))
      ∙ range_root-join sha256 hashes s a b p z l h

  -- A node may be pushed at `c`.
  abbrev Fits : ℕ → MerkleRangeNode → Type 0
  Fits c n =
      (n.start ≡ c)
      × IsAligned c (length hashes) n.size
      × (n.hash ≡ range_root sha256 hashes c n.size)

  -- The node at the top is at least as large as one that fits on it.
  size-le_top :
      (c : ℕ) (n left : MerkleRangeNode) (ns : List MerkleRangeNode)
      → Fits c n
      → IsStack c (left ∷ ns)
      → n.size ≤ left.size
  size-le_top c n left ns (at, (p, l, (q, e)), h) (w, lp, (m, ls), lh, rest) =
      odd_bound n.size left.size q m p lp (sym e ∙ odd_multiple left.size left.start m c ls w)

  join_nodes-Fits :
      (c : ℕ) (n left : MerkleRangeNode) (ns : List MerkleRangeNode)
      → Fits c n
      → IsStack c (left ∷ ns)
      → left.size ≡ n.size
      → Fits left.start (join_nodes sha256 left n)
  unfolding join_nodes
  join_nodes-Fits c n left ns (at, (p, l, (q, e)), h) (w, lp, (m, ls), lh, rest) same = (
    refl,
    (IsPow-double left.size lp, omega arith, (m, ls)),
    join_hash left.start left.size n.size c left.hash n.hash lh h w lp (IsPow-pos n.size p)
          (omega arith) (omega arith)
        ∙ ap (range_root sha256 hashes left.start) (omega arith),
  )

  merge_top-join :
      (n left : MerkleRangeNode) (ns : List MerkleRangeNode) (m : ℕ)
      → left.size ≡ n.size
      → left.start + left.size ≡ n.start
      → left.start ≡ left.size * 2 * m
      → merge_top sha256 n (left ∷ ns) ≡ merge_top sha256 (join_nodes sha256 left n) ns
  unfolding merge_top
  merge_top-join n left ns m same w e =
      let z : left.start % (left.size * 2) ≡ 0 = rw e (mul-mod_right (left.size * 2) m) in
      let t : (left.start % (left.size * 2) == 0) ≡ true = ground arith in rw t (ground arith)

  merge_top-stay :
      (n left : MerkleRangeNode) (ns : List MerkleRangeNode)
      → (left.size == n.size) ≡ false
      → merge_top sha256 n (left ∷ ns) ≡ n ∷ left ∷ ns
  unfolding merge_top
  merge_top-stay n left ns h = rw h

  stay-IsStack :
      (c : ℕ) (n left : MerkleRangeNode) (ns : List MerkleRangeNode)
      → Fits c n
      → IsStack c (left ∷ ns)
      → n.size < left.size
      → IsStack (c + n.size) (n ∷ left ∷ ns)
  stay-IsStack c n left ns (at, (p, l, (q, e)), h) (w, lp, (m, ls), lh, rest) small =
      let (d, f) = dvd_of_lt n.size left.size p lp small in
      (
        ap (λ (t : ℕ). t + n.size) at,
        p,
        (
          d * (2 * m + 1),
          at
              ∙ odd_multiple left.size left.start m c ls w
              ∙ ap (λ (t : ℕ). t * (2 * m + 1)) f
              ∙ mul_assoc (n.size * 2) d (2 * m + 1),
        ),
        rw at h,
        (w ∙ sym at, lp, (m, ls), lh, rest),
      )

  merge_top-IsStack :
      (c : ℕ) (n : MerkleRangeNode) (ns : List MerkleRangeNode)
      → Fits c n
      → IsStack c ns
      → IsStack (c + n.size) (merge_top sha256 n ns)
  unfolding merge_top join_nodes
  merge_top-IsStack c n [] (at, (p, l, q), h) z =
      (ap (λ (t : ℕ). t + n.size) at, p, (0, omega arith), rw at h, omega arith)
  merge_top-IsStack c n (left ∷ ns) f s = elim (Bool-cases (left.size == n.size)) [
    | inl same ↦
        let e : left.size ≡ n.size = ground arith in
        let j = join_nodes-Fits c n left ns f s e in
        let r = merge_top-IsStack left.start (join_nodes sha256 left n) ns j s.4 in
        rw (merge_top-join n left ns s.2.0 e (s.0 ∙ sym f.0) s.2.1)
          (subst (λ t. IsStack t (merge_top sha256 (join_nodes sha256 left n) ns)) (omega arith) r)
    | inr smaller ↦
        rw (merge_top-stay n left ns smaller)
          (stay-IsStack c n left ns f s (let le = size-le_top c n left ns f s in ground arith))
  ]

  -- The loop accepts every covering of the positions up to `e`, and leaves a stack for them.
  pub frontier_loop-IsStack :
      (ns : List MerkleRangeNode) (c e : ℕ) (stack : List MerkleRangeNode)
      → e ≤ length hashes
      → length hashes < 2 ^ 64
      → Covers sha256 hashes c e ns
      → IsStack c stack
      → (st : List MerkleRangeNode) × (frontier_loop sha256 ns c stack ≡ some (e, st))
        × IsStack e st
  unfolding frontier_loop
  frontier_loop-IsStack [] c e stack l u h s = (stack, cc, subst (λ t. IsStack t stack) h s)
  frontier_loop-IsStack (n ∷ ns) c e stack l u (at, (p, le, q), h, rest) s =
      let pos = IsPow-pos n.size p in
      let f : Fits c n = (at, (p, omega arith, q), h) in
      let (st, r, i) =
        frontier_loop-IsStack ns (c + n.size) e (merge_top sha256 n stack) l u rest
          (merge_top-IsStack c n stack f s) in
      (st, ground (arith, is_power_of_two-IsPow n.size p), i)

  -- Folding the stack below a range that it may be joined with gives the root of everything.
  pub fold_root-range :
      (ns : List MerkleRangeNode) (s n b q : ℕ) (root : Text)
      → IsStack s ns
      → root ≡ range_root sha256 hashes s n
      → 0 < n
      → s + n ≤ length hashes
      → IsPow b
      → n ≤ b
      → s ≡ b * q
      → fold_root sha256 root ns ≡ range_root sha256 hashes 0 (s + n)
  unfolding fold_root
  fold_root-range [] s n b q root z r p l bp nb e =
      r ∙ ap₂ (range_root sha256 hashes) z (omega arith)
  fold_root-range (left ∷ ns) s n b q root (w, lp, (m, ls), lh, rest) r p l bp nb e =
      let ble =
        odd_bound b left.size q m bp lp (sym e ∙ odd_multiple left.size left.start m s ls w) in
      fold_root-range ns left.start (left.size + n) (left.size * 2) m _ rest
        (join_hash left.start left.size n s left.hash root lh r w lp p (omega arith) (omega arith))
        (omega arith) (omega arith) (IsPow-double left.size lp) (omega arith) ls
      ∙ ap (range_root sha256 hashes 0) (omega arith)
