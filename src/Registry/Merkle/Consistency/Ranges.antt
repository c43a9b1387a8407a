-- ===== src/Registry/Merkle/Consistency/Ranges.antt =====
-- Ranges of the list of hashes, and the root of two adjacent ones.
use mathlib.Core.Path.{ap₂}
use oath.Prelude.{
  ℕ, zero, suc, ◌+◌, ◌≤◌, ◌<◌, ◌≡◌, refl, sym, ◌∙◌, ap, arith, List, [], ◌∷◌, length, take, drop,
  length-take, length-drop, Text,
}
use oath.Registry.Merkle.{subtree_root, hash_children, split_point}
use oath.Registry.Merkle.Split.{split_point-IsSplit}
use oath.Registry.Merkle.Tree.{subtree_root-split}
use oath.Registry.Merkle.Consistency.Powers.{IsPow}
use oath.Registry.Merkle.Consistency.Bits.{pow_unique}

module _ {A : Type 0} where
  -- `hashes[start..start + size]`
  abbrev pub slice : List A → ℕ → ℕ → List A
  slice hashes start size = take size (drop start hashes)

  pub length-slice : (xs : List A) (s n : ℕ) → s + n ≤ length xs → length (slice xs s n) ≡ n
  length-slice xs s n h = omega (arith, length-take n (drop s xs), length-drop s xs)

  take-take : (n m : ℕ) (xs : List A) → n ≤ m → take n (take m xs) ≡ take n xs
  take-take zero m xs h = refl
  take-take (suc n) zero xs h = elim h [ ]
  take-take (suc n) (suc m) [] h = refl
  take-take (suc n) (suc m) (x ∷ xs) h = ap (λ t. x ∷ t) (take-take n m xs (omega arith))

  drop-take : (n m : ℕ) (xs : List A) → drop n (take (n + m) xs) ≡ take m (drop n xs)
  drop-take zero m xs = let e : zero + m ≡ m = omega arith in rw e
  drop-take (suc n) m [] = let e : suc n + m ≡ suc (n + m) = omega arith in rw e (empty m)
    where
      empty : (m : ℕ) → [] ≡ take {A = A} m []
      empty zero = refl
      empty (suc m) = refl
  drop-take (suc n) m (x ∷ xs) =
      let e : suc n + m ≡ suc (n + m) = omega arith in rw e (drop-take n m xs)

  drop-drop : (n m : ℕ) (xs : List A) → drop m (drop n xs) ≡ drop (n + m) xs
  drop-drop zero m xs = let e : zero + m ≡ m = omega arith in rw e
  drop-drop (suc n) zero [] = let e : suc n + zero ≡ suc n = omega arith in rw e
  drop-drop (suc n) (suc m) [] = let e : suc n + suc m ≡ suc (n + suc m) = omega arith in rw e
  drop-drop (suc n) m (x ∷ xs) =
      let e : suc n + m ≡ suc (n + m) = omega arith in rw e (drop-drop n m xs)

  pub slice_all : (xs : List A) → slice xs 0 (length xs) ≡ xs
  slice_all [] = refl
  slice_all (x ∷ xs) = ap (λ t. x ∷ t) (slice_all xs)

module _ (sha256 : Text → Text) (hashes : List Text) where
  abbrev pub range_root : ℕ → ℕ → Text
  range_root start size = subtree_root sha256 (slice hashes start size)

  -- The root of a range of a + b hashes, where a is a power of two and b is at most a.
  pub range_root-join :
      (s a b : ℕ)
      → IsPow a
      → 0 < b
      → b ≤ a
      → s + (a + b) ≤ length hashes
      → hash_children sha256 (range_root s a) (range_root (s + a) b) ≡ range_root s (a + b)
  range_root-join s a b p z l h =
      let xs = slice hashes s (a + b) in
      let n = length-slice hashes s (a + b) h in
      let k = split_point-IsSplit (a + b) (omega arith) in
      let e : split_point (length xs) ≡ a =
        rw n (pow_unique (split_point (a + b)) a k.2 p (omega (arith, k)) (omega (arith, k))) in
      let whole = subtree_root-split sha256 xs (omega (arith, n)) in
      let left : take (split_point (length xs)) xs ≡ slice hashes s a =
        rw e (take-take a (a + b) (drop s hashes) (omega arith)) in
      let right : drop (split_point (length xs)) xs ≡ slice hashes (s + a) b =
        rw e (drop-take a b (drop s hashes) ∙ ap (take b) (drop-drop s a hashes)) in
      sym (
        whole
        ∙ ap₂ (λ t u. hash_children sha256 (subtree_root sha256 t) (subtree_root sha256 u)) left
            right)
