-- ===== src/Registry/Merkle/Inclusion.antt =====
-- Inclusion proofs: what `merkle_inclusion_proof` makes, `verify_merkle_inclusion` accepts, and
-- what it accepts is the leaf at that index, unless the digest collides.
use oath.Prelude.{
  ℕ, zero, suc, ◌-◌, ◌≤◌, ◌<◌, ◌≡◌, refl, List, [], ◌∷◌, ◌++◌, ◌∙◌, dec_lt, arith, length, take,
  drop, Option, some, get_elem?, get_elem?-take, get_elem?-drop, Text, text_eq_refl, true,
  length-append,
}
use mathlib.Core.List.{append_assoc, append-nil}
use mathlib.Core.Path.{subst}
use oath.Registry.Merkle.{
  split_point, hash_leaf, hash_children, subtree_root, path_loop, reconstruct, join_child,
  join_sibling, inclusion_path, merkle_inclusion_proof, verify_merkle_inclusion, merkle_root,
}
use oath.Registry.Merkle.Tree.{length_halves, subtree_root-split, subtree_root-leaf}

get_elem?-lt : {A : Type 0} (xs : List A) (i : ℕ) {x : A} → get_elem? xs i ≡ some x → i < length xs
get_elem?-lt [] i h = cc
get_elem?-lt (y ∷ xs) zero h = omega arith
get_elem?-lt (y ∷ xs) (suc i) h = omega (arith, get_elem?-lt xs i h)

get_elem?-append :
    {A : Type 0} (xs ys : List A) (s : A) → get_elem? ((xs ++ s ∷ []) ++ ys) (length xs) ≡ some s
get_elem?-append [] ys s = refl
get_elem?-append (x ∷ xs) ys s = get_elem?-append xs ys s

module _ (sha256 : Text → Text) where
  -- One level of each recursion, by the side of the split on which the index stands.
  path-left :
      (f : ℕ) (hs : List Text) (i : ℕ) (p : List Text)
      → 1 < length hs
      → i < split_point (length hs)
      → path_loop sha256 (suc f) hs i p
        ≡ path_loop sha256 f (take (split_point (length hs)) hs) i p
          ++ subtree_root sha256 (drop (split_point (length hs)) hs) ∷ []
  unfolding path_loop
  path-left f hs i p l h = ground arith

  path-right :
      (f : ℕ) (hs : List Text) (i : ℕ) (p : List Text)
      → 1 < length hs
      → split_point (length hs) ≤ i
      → path_loop sha256 (suc f) hs i p
        ≡ path_loop sha256 f (drop (split_point (length hs)) hs) (i - split_point (length hs)) p
          ++ subtree_root sha256 (take (split_point (length hs)) hs) ∷ []
  unfolding path_loop
  path-right f hs i p l h = ground arith

  pub reconstruct-left :
      (f : ℕ) (c : Text) (i n : ℕ) (p : List Text) (cursor : ℕ)
      → 1 < n
      → i < split_point n
      → reconstruct sha256 (suc f) c i n p cursor
        ≡ join_child sha256 i (split_point n) p (reconstruct sha256 f c i (split_point n) p cursor)
  unfolding reconstruct
  reconstruct-left f c i n p cursor l h = ground arith

  pub reconstruct-right :
      (f : ℕ) (c : Text) (i n : ℕ) (p : List Text) (cursor : ℕ)
      → 1 < n
      → split_point n ≤ i
      → reconstruct sha256 (suc f) c i n p cursor
        ≡ join_child sha256 i
            (split_point n)
            p
            (reconstruct sha256 f c (i - split_point n) (n - split_point n) p cursor)
  unfolding reconstruct
  reconstruct-right f c i n p cursor l h = ground arith

  -- The sibling at the end of a path is the next one that `reconstruct` reads.
  join_child-left :
      (i k : ℕ) (q post : List Text) (child s : Text) (below : Option (Text × ℕ))
      → i < k
      → below ≡ some (child, length q)
      → join_child sha256 i k ((q ++ s ∷ []) ++ post) below
        ≡ some (hash_children sha256 child s, length (q ++ s ∷ []))
  unfolding join_child join_sibling
  join_child-left i k q post child s below h e =
      rw (e, get_elem?-append q post s) (ground (arith, length-append q (s ∷ [])))

  join_child-right :
      (i k : ℕ) (q post : List Text) (child s : Text) (below : Option (Text × ℕ))
      → k ≤ i
      → below ≡ some (child, length q)
      → join_child sha256 i k ((q ++ s ∷ []) ++ post) below
        ≡ some (hash_children sha256 s child, length (q ++ s ∷ []))
  unfolding join_child join_sibling
  join_child-right i k q post child s below h e =
      rw (e, get_elem?-append q post s) (ground (arith, length-append q (s ∷ [])))

  Rebuilds : ℕ → ℕ → List Text → ℕ → Text → List Text → List Text → Type 0
  Rebuilds f g hs i x p post =
      reconstruct sha256 g (hash_leaf sha256 x) i (length hs) (path_loop sha256 f hs i p ++ post)
        (length p)
      ≡ some (subtree_root sha256 hs, length (path_loop sha256 f hs i p))

  module _ (f g : ℕ) (hs : List Text) (i : ℕ) (x : Text) (p post : List Text)
      (long : 1 < length hs) where
    left_step :
        i < split_point (length hs)
        → Rebuilds f g
            (take (split_point (length hs)) hs)
            i
            x
            p
            (subtree_root sha256 (drop (split_point (length hs)) hs) ∷ post)
        → Rebuilds (suc f) (suc g) hs i x p post
    unfolding Rebuilds
    left_step h ih =
        let q = path_loop sha256 f (take (split_point (length hs)) hs) i p in
        let s = subtree_root sha256 (drop (split_point (length hs)) hs) in
        rw
          (
            path-left f hs i p long h,
            reconstruct-left g (hash_leaf sha256 x) i (length hs) _ (length p) long h,
          )
          (rw (subtree_root-split sha256 hs long) (
            join_child-left i (split_point (length hs)) q post _ s _ h (
              rw (append_assoc q (s ∷ []) post) (
                subst
                  (λ n.
                    reconstruct sha256 g (hash_leaf sha256 x) i n (q ++ s ∷ post) (length p)
                    ≡ some (subtree_root sha256 (take (split_point (length hs)) hs), length q))
                  (length_halves hs long).0 ih))))

    right_step :
        split_point (length hs) ≤ i
        → Rebuilds f g
            (drop (split_point (length hs)) hs)
            (i - split_point (length hs))
            x
            p
            (subtree_root sha256 (take (split_point (length hs)) hs) ∷ post)
        → Rebuilds (suc f) (suc g) hs i x p post
    unfolding Rebuilds
    right_step h ih =
        let q =
          path_loop sha256 f (drop (split_point (length hs)) hs) (i - split_point (length hs)) p in
        let s = subtree_root sha256 (take (split_point (length hs)) hs) in
        rw
          (
            path-right f hs i p long h,
            reconstruct-right g (hash_leaf sha256 x) i (length hs) _ (length p) long h,
          )
          (rw (subtree_root-split sha256 hs long) (
            join_child-right i (split_point (length hs)) q post _ s _ h (
              rw (append_assoc q (s ∷ []) post) (
                subst
                  (λ n.
                    reconstruct sha256 g (hash_leaf sha256 x) (i - split_point (length hs)) n
                      (q ++ s ∷ post) (length p)
                    ≡ some (subtree_root sha256 (drop (split_point (length hs)) hs), length q))
                  (length_halves hs long).1 ih))))

  reconstruct-path :
      (f g : ℕ) (hs : List Text) (i : ℕ) (x : Text) (p post : List Text)
      → length hs ≤ f
      → length hs ≤ g
      → get_elem? hs i ≡ some x
      → Rebuilds f g hs i x p post
  unfolding Rebuilds reconstruct path_loop
  reconstruct-path f g [] i x p post a b h = cc
  reconstruct-path f zero (y ∷ r) i x p post a b h = absurd (omega arith)
  reconstruct-path zero g (y ∷ r) i x p post a b h = absurd (omega arith)
  reconstruct-path (suc f) (suc g) (y ∷ []) zero x p post a b h =
      ground (arith, subtree_root-leaf sha256 y)
  reconstruct-path (suc f) (suc g) (y ∷ []) (suc i) x p post a b h = cc
  reconstruct-path (suc f) (suc g) (y ∷ z ∷ r) i x p post a b h =
      let hs : List Text = y ∷ z ∷ r in
      let k = split_point (length hs) in
      let l : 1 < length hs = omega arith in
      let b' = length_halves hs l in
      elim (dec_lt i k) [
        | yes lt ↦ left_step f g hs i x p post l lt (
            reconstruct-path f g (take k hs) i x p _ (omega (arith, b')) (omega (arith, b'))
              (get_elem?-take k i hs lt ∙ h))
        | no ge ↦ right_step f g hs i x p post l (omega arith) (
            reconstruct-path f g (drop k hs) (i - k) x p _ (omega (arith, b')) (omega (arith, b'))
              (get_elem?-drop k i hs (omega arith) ∙ h))
      ]

  rebuilt :
      (hashes : List Text) (index : ℕ) {leaf : Text}
      → get_elem? hashes index ≡ some leaf
      → reconstruct sha256
          (length hashes)
          (hash_leaf sha256 leaf)
          index
          (length hashes)
          (inclusion_path sha256 hashes index [])
          0
        ≡ some (subtree_root sha256 hashes, length (inclusion_path sha256 hashes index []))
  unfolding inclusion_path Rebuilds
  rebuilt hashes index {leaf} h =
      let n = length hashes in
      rw append-nil at (reconstruct-path n n hashes index leaf [] [] (omega arith) (omega arith) h)

  -- For every leaf of the tree a proof is made, and it is accepted against the tree's root.
  pub verify-proof :
      (hashes : List Text) (index : ℕ) {leaf : Text}
      → get_elem? hashes index ≡ some leaf
      → (proof : List Text) × (merkle_inclusion_proof sha256 hashes index ≡ some proof)
        × (verify_merkle_inclusion sha256 leaf index
              (length hashes)
              proof
              (merkle_root sha256 hashes)
            ≡ true)
  unfolding merkle_inclusion_proof verify_merkle_inclusion merkle_root
  verify-proof hashes index {leaf} h =
      let p = inclusion_path sha256 hashes index [] in
      let l = get_elem?-lt hashes index h in
      (
        p,
        ground arith,
        ground (arith, rebuilt hashes index h, text_eq_refl (subtree_root sha256 hashes)),
      )
