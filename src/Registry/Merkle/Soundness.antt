-- ===== src/Registry/Merkle/Soundness.antt =====
-- What `verify_merkle_inclusion` accepts is a leaf of the tree, or shows a collision of the digest.
use oath.Prelude.{
  ℕ, zero, suc, ◌-◌, ◌≤◌, ◌<◌, ◌≡◌, ◌⊎◌, refl, sym, ap, ◌∙◌, List, [], ◌∷◌, ◌++◌, arith, length,
  take, drop, Option, none, some, get_elem?, get_elem?-take, get_elem?-drop, Text, text_eq,
  text_eq_iff, inl, inr, true, ◌==◌, dec_lt, Option-cases, &&-eq-true,
}
use oath.Digest.{Collision, cut_left, cut_right, unhash}
use oath.Registry.Merkle.{
  split_point, hash_leaf, hash_children, subtree_root, reconstruct, join_child, join_sibling,
  verify_merkle_inclusion, merkle_root, tree_root, accepts,
}
use oath.Registry.Merkle.Tree.{length_halves, subtree_root-split, subtree_root-leaf}
use oath.Registry.Merkle.Inclusion.{reconstruct-left, reconstruct-right}

module _ (sha256 : Text → Text) where
  hash_leaf-cases :
      (x y : Text) → hash_leaf sha256 x ≡ hash_leaf sha256 y → Collision sha256 ⊎ (x ≡ y)
  unfolding hash_leaf
  hash_leaf-cases x y e = elim (unhash sha256 (0 ∷ x) (0 ∷ y) e) [
    | inl c ↦ inl c
    | inr p ↦ inr (cc)
  ]

  hash_children-cases :
      (l r m s : Text)
      → hash_children sha256 l r ≡ hash_children sha256 m s
      → Collision sha256 ⊎ (l ++ r ≡ m ++ s)
  unfolding hash_children
  hash_children-cases l r m s e = elim (unhash sha256 (1 ∷ (l ++ r)) (1 ∷ (m ++ s)) e) [
    | inl c ↦ inl c
    | inr p ↦ inr (cc)
  ]

module _ (sha256 : Text → Text) (digest_length : (x : Text) → length (sha256 x) ≡ 64) where
  length-subtree_root : (hs : List Text) → length (subtree_root sha256 hs) ≡ 64
  unfolding subtree_root tree_root hash_leaf hash_children
  length-subtree_root [] = digest_length _
  length-subtree_root (x ∷ []) = digest_length _
  length-subtree_root (x ∷ y ∷ r) = digest_length _

  length-hash_children : (l r : Text) → length (hash_children sha256 l r) ≡ 64
  unfolding hash_children
  length-hash_children l r = digest_length _

  -- A parent is made of the child that was rebuilt and of some sibling.
  join_child_left-inv :
      (i k : ℕ) (proof : List Text) (below : Option (Text × ℕ)) {parent : Text} {c : ℕ}
      → i < k
      → join_child sha256 i k proof below ≡ some (parent, c)
      → (child : Text) × (c' : ℕ) × (s : Text) × (below ≡ some (child, c'))
        × (parent ≡ hash_children sha256 child s)
  unfolding join_child join_sibling
  join_child_left-inv i k proof none l h = cc
  join_child_left-inv i k proof (some (child, c')) {parent} l h =
      elim (Option-cases (get_elem? proof c')) [
        | inl e ↦ absurd (ground arith)
        | inr (s, e) ↦ (child, c', s, refl, ground arith)
      ]

  join_child_right-inv :
      (i k : ℕ) (proof : List Text) (below : Option (Text × ℕ)) {parent : Text} {c : ℕ}
      → k ≤ i
      → join_child sha256 i k proof below ≡ some (parent, c)
      → (child : Text) × (c' : ℕ) × (s : Text) × (below ≡ some (child, c'))
        × (parent ≡ hash_children sha256 s child)
  unfolding join_child join_sibling
  join_child_right-inv i k proof none l h = cc
  join_child_right-inv i k proof (some (child, c')) {parent} l h =
      elim (Option-cases (get_elem? proof c')) [
        | inl e ↦ absurd (ground arith)
        | inr (s, e) ↦ (child, c', s, refl, ground arith)
      ]

  -- The leaf at the index hashes to `current`.
  LeafIs : List Text → ℕ → Text → Type 0
  LeafIs hs i current = (x : Text) × (get_elem? hs i ≡ some x) × (current ≡ hash_leaf sha256 x)

  -- `current` rebuilds to a digest-sized text, and if that is the root then `current` is the leaf.
  IsSound : List Text → ℕ → Text → Text → Type 0
  IsSound hs i current root =
      (length root ≡ 64) × (root ≡ subtree_root sha256 hs → Collision sha256 ⊎ LeafIs hs i current)

  module _ (i : ℕ) (hs : List Text) (current child parent : Text) (long : 1 < length hs) where
    left-IsSound :
        (s : Text)
        → i < split_point (length hs)
        → parent ≡ hash_children sha256 child s
        → IsSound (take (split_point (length hs)) hs) i current child
        → IsSound hs i current parent
    unfolding IsSound LeafIs
    left-IsSound s h e (n, ih) = (
      rw e (length-hash_children child s),
      λ q.
          elim (hash_children-cases sha256 child s _ _
            (sym e ∙ q ∙ subtree_root-split sha256 hs long)) [
              | inl c ↦ inl c
              | inr p ↦
                  let cut = cut_left child _ s _ (n ∙ sym (length-subtree_root _)) p in
                  elim (ih cut.0) [
                    | inl c ↦ inl c
                    | inr (x, at, is) ↦ inr (x, sym (get_elem?-take _ i hs h) ∙ at, is)
                  ]
            ],
    )

    right-IsSound :
        (s : Text)
        → split_point (length hs) ≤ i
        → parent ≡ hash_children sha256 s child
        → IsSound (drop (split_point (length hs)) hs) (i - split_point (length hs)) current child
        → IsSound hs i current parent
    unfolding IsSound LeafIs
    right-IsSound s h e (n, ih) = (
      rw e (length-hash_children s child),
      λ q.
          elim (hash_children-cases sha256 s child _ _
            (sym e ∙ q ∙ subtree_root-split sha256 hs long)) [
              | inl c ↦ inl c
              | inr p ↦
                  let cut = cut_right s _ child _ (n ∙ sym (length-subtree_root _)) p in
                  elim (ih cut.1) [
                    | inl c ↦ inl c
                    | inr (x, at, is) ↦ inr (x, sym (get_elem?-drop _ i hs h) ∙ at, is)
                  ]
            ],
    )

  reconstruct-IsSound :
      (f : ℕ) (hs : List Text) (i n : ℕ) (current : Text) (proof : List Text) (c c' : ℕ)
      {root : Text}
      → i < length hs
      → n ≡ length hs
      → length current ≡ 64
      → reconstruct sha256 f current i n proof c ≡ some (root, c')
      → IsSound hs i current root
  unfolding IsSound LeafIs
  reconstruct-IsSound zero hs i n current proof c c' a b d e = unfold reconstruct in cc e
  reconstruct-IsSound (suc f) [] i n current proof c c' a b d e = elim a [ ]
  reconstruct-IsSound (suc f) (x ∷ []) zero n current proof c c' {root} a b d e =
      let same : current ≡ root = unfold reconstruct in ground arith in
      (rw (← same) d, λ q. inr (x, refl, same ∙ q ∙ subtree_root-leaf sha256 x))
  reconstruct-IsSound (suc f) (x ∷ []) (suc i) n current proof c c' a b d e = absurd (omega arith)
  reconstruct-IsSound (suc f) (x ∷ y ∷ r) i n current proof c c' {root} a b d e =
      let hs : List Text = x ∷ y ∷ r in
      let k = split_point (length hs) in
      let l : 1 < length hs = omega arith in
      let h = length_halves hs l in
      let e' = rw b at e in
      elim (dec_lt i k) [
        | yes lt ↦
            let (child, c'', s, below, par) =
              join_child_left-inv i k proof _ lt
                (sym (reconstruct-left sha256 f current i (length hs) proof c l lt) ∙ e') in
            left-IsSound i hs current child root l s lt par (
              reconstruct-IsSound f (take k hs) i k current proof c c'' (omega (arith, h)) (sym h.0)
                d below)
        | no ge ↦
            let le : k ≤ i = omega arith in
            let (child, c'', s, below, par) =
              join_child_right-inv i k proof _ le
                (sym (reconstruct-right sha256 f current i (length hs) proof c l le) ∙ e') in
            right-IsSound i hs current child root l s le par (
              reconstruct-IsSound f (drop k hs) (i - k) (length hs - k) current proof c c''
                (omega (arith, h)) (sym h.1) d below)
      ]

  accepts-inv :
      (root : Text) (size : ℕ) (r : Option (Text × ℕ))
      → accepts sha256 root size r ≡ true
      → (c : ℕ) × (r ≡ some (root, c))
  unfolding accepts
  accepts-inv root size none h = cc
  accepts-inv root size (some (candidate, c)) h =
      let e =
        (text_eq_iff candidate root).0 (&&-eq-true (text_eq candidate root) (c == size) h).0 in
      (c, cc e)

  verify-inv :
      (leaf : Text) (index size : ℕ) (proof : List Text) (root : Text)
      → verify_merkle_inclusion sha256 leaf index size proof root ≡ true
      → (index < size)
        × (accepts sha256 root
              (length proof)
              (reconstruct sha256 size (hash_leaf sha256 leaf) index size proof 0)
            ≡ true)
  unfolding verify_merkle_inclusion
  verify-inv leaf index size proof root h = (ground arith, ground arith)

  -- A proof, wherever it comes from, that is accepted for a leaf against the root of a list of
  -- hashes shows that the leaf stands at that index, or it yields a collision.
  pub verify_merkle_inclusion_sound :
      (hashes proof : List Text) (index : ℕ) (leaf : Text)
      → verify_merkle_inclusion sha256 leaf index (length hashes) proof (merkle_root sha256 hashes)
        ≡ true
      → Collision sha256 ⊎ (get_elem? hashes index ≡ some leaf)
  unfolding merkle_root IsSound LeafIs hash_leaf
  verify_merkle_inclusion_sound hashes proof index leaf h =
      let n = length hashes in
      let v = verify-inv leaf index n proof (subtree_root sha256 hashes) h in
      let (c, e) = accepts-inv (subtree_root sha256 hashes) (length proof) _ v.1 in
      let s =
        reconstruct-IsSound n hashes index n (hash_leaf sha256 leaf) proof 0 c v.0 refl
          (digest_length _) e in
      elim (s.1 refl) [
        | inl collision ↦ inl collision
        | inr (x, at, is) ↦ elim (hash_leaf-cases sha256 leaf x is) [
          | inl collision ↦ inl collision
          | inr same ↦ inr (at ∙ ap some (sym same))
        ]
      ]
