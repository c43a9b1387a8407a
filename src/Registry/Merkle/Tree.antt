-- ===== src/Registry/Merkle/Tree.antt =====
-- `subtree_root` by its recursive equations, and induction over the tree.
use oath.Prelude.{
  ℕ, zero, suc, ◌-◌, ◌≤◌, ◌<◌, ◌≡◌, refl, List, [], ◌∷◌, arith, length, take, drop, length-take,
  length-drop, Text,
}
use oath.Registry.Merkle.{split_point, hash_leaf, hash_children, tree_root, subtree_root}
use oath.Registry.Merkle.Split.{split_point-IsSplit}

module _ {ℓ} {A : Type ℓ} (hashes : List A) (long : 1 < length hashes) where
  -- Both halves of a split are shorter than the whole, and not empty.
  pub length_halves :
      (length (take (split_point (length hashes)) hashes) ≡ split_point (length hashes))
      × (length (drop (split_point (length hashes)) hashes)
          ≡ length hashes - split_point (length hashes))
      × (0 < split_point (length hashes))
      × (split_point (length hashes) < length hashes)
  length_halves =
      let s = split_point-IsSplit (length hashes) long in
      omega (
        arith,
        s,
        length-take (split_point (length hashes)) hashes,
        length-drop (split_point (length hashes)) hashes,
      )

module _ (sha256 : Text → Text) where
  tree_root_fuel :
      (f g : ℕ) (hashes : List Text)
      → length hashes ≤ f
      → length hashes ≤ g
      → tree_root sha256 f hashes ≡ tree_root sha256 g hashes
  unfolding tree_root
  tree_root_fuel zero zero hashes p q = refl
  tree_root_fuel zero (suc g) [] p q = refl
  tree_root_fuel zero (suc g) (x ∷ r) p q = absurd (omega arith)
  tree_root_fuel (suc f) zero [] p q = refl
  tree_root_fuel (suc f) zero (x ∷ r) p q = absurd (omega arith)
  tree_root_fuel (suc f) (suc g) [] p q = refl
  tree_root_fuel (suc f) (suc g) (x ∷ []) p q = refl
  tree_root_fuel (suc f) (suc g) (x ∷ y ∷ r) p q =
      let hs : List Text = x ∷ y ∷ r in
      let k = split_point (length hs) in
      let b = length_halves hs (omega arith) in
      cc (
        tree_root_fuel f g (take k hs) (omega (arith, b)) (omega (arith, b)),
        tree_root_fuel f g (drop k hs) (omega (arith, b)) (omega (arith, b)),
      )

  -- The root of two or more hashes is made of the roots of the two halves.
  pub subtree_root-split :
      (hashes : List Text)
      → 1 < length hashes
      → subtree_root sha256 hashes
        ≡ hash_children sha256
            (subtree_root sha256 (take (split_point (length hashes)) hashes))
            (subtree_root sha256 (drop (split_point (length hashes)) hashes))
  unfolding subtree_root tree_root
  subtree_root-split [] h = absurd (omega arith)
  subtree_root-split (x ∷ []) h = absurd (omega arith)
  subtree_root-split (x ∷ y ∷ r) h =
      let hs : List Text = x ∷ y ∷ r in
      let k = split_point (length hs) in
      let b = length_halves hs h in
      cc (
        tree_root_fuel (suc (length r)) (length (take k hs)) (take k hs) (omega (arith, b))
            (omega arith),
        tree_root_fuel (suc (length r)) (length (drop k hs)) (drop k hs) (omega (arith, b))
            (omega arith),
      )

  pub subtree_root-leaf : (x : Text) → subtree_root sha256 (x ∷ []) ≡ hash_leaf sha256 x
  unfolding subtree_root tree_root
  subtree_root-leaf x = refl

  pub subtree_root-empty : subtree_root sha256 [] ≡ sha256 []
  unfolding subtree_root tree_root
  subtree_root-empty = refl

-- Induction over the tree, on the number of hashes.
module _ {ℓ κ} {A : Type ℓ} (P : List A → Type κ) (none_case : P [])
    (leaf_case : (x : A) → P (x ∷ []))
    (node_case : (hs : List A)
      → 1 < length hs
      → P (take (split_point (length hs)) hs)
      → P (drop (split_point (length hs)) hs)
      → P hs) where
  tree_induction_fuel : (f : ℕ) (hs : List A) → length hs ≤ f → P hs
  tree_induction_fuel f [] h = none_case
  tree_induction_fuel f (x ∷ []) h = leaf_case x
  tree_induction_fuel zero (x ∷ y ∷ r) h = absurd (omega arith)
  tree_induction_fuel (suc f) (x ∷ y ∷ r) h =
      let hs : List A = x ∷ y ∷ r in
      let b = length_halves hs (omega arith) in
      node_case hs (omega arith)
        (tree_induction_fuel f (take (split_point (length hs)) hs) (omega (arith, b)))
        (tree_induction_fuel f (drop (split_point (length hs)) hs) (omega (arith, b)))

  pub tree_induction : (hs : List A) → P hs
  tree_induction hs = tree_induction_fuel (length hs) hs (omega arith)
