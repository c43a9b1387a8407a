-- ===== src/Registry/Merkle.antt =====
-- The Merkle tree of crates/oath-registry/src/lib.rs (`hash_leaf` to `verify_merkle_inclusion`).
-- A text is the list of its bytes. SHA-256 is the section's parameter `sha256`: from bytes to the
-- hexadecimal digest that `format!("{:x}", …)` prints.
pub mod Split
pub mod Tree
pub mod Inclusion
pub mod Soundness
pub mod Consistency
mod Runs
use oath.Prelude.{
  ℕ, zero, suc, ◌+◌, ◌-◌, ◌*◌, Bool, false, ◌&&◌, ◌||◌, Option, none, some, List, [], ◌∷◌, ◌++◌,
  ltb, leb, ◌==◌, length, take, drop, get_elem?, if◌then◌else◌, Text, text_eq,
}

-- `while power << 1 < length { power <<= 1 }`. A slice has fewer than 2^63 elements, so the shift
-- does not overflow. Each round adds at least 1 to `power`, so `length` rounds are enough.
split_loop : ℕ → ℕ → ℕ → ℕ
split_loop zero power length = power
split_loop (suc fuel) power length =
    let rest = split_loop fuel (power * 2) length in if ltb (power * 2) length then rest else power

pub split_point : ℕ → ℕ
unfolding split_loop
split_point length = split_loop length 1 length

module _ (sha256 : Text → Text) where
  pub hash_leaf : Text → Text
  hash_leaf leaf = sha256 (0 ∷ leaf)

  pub hash_children : Text → Text → Text
  hash_children left right = sha256 (1 ∷ (left ++ right))

  -- The recursion of `subtree_root`, on fuel: each half is shorter than the whole.
  tree_root : ℕ → List Text → Text
  tree_root fuel [] = sha256 []
  tree_root fuel (x ∷ []) = hash_leaf x
  tree_root zero (x ∷ y ∷ rest) = sha256 []
  tree_root (suc fuel) (x ∷ y ∷ rest) =
      let hashes = x ∷ y ∷ rest in
      let split = split_point (length hashes) in
      hash_children (tree_root fuel (take split hashes)) (tree_root fuel (drop split hashes))

  pub subtree_root : List Text → Text
  subtree_root hashes = tree_root (length hashes) hashes

  pub merkle_root : List Text → Text
  merkle_root hashes = subtree_root hashes

  -- `proof` is the vector that the source extends in place.
  path_loop : ℕ → List Text → ℕ → List Text → List Text
  path_loop zero hashes index proof = proof
  path_loop (suc fuel) hashes index proof =
      let split = split_point (length hashes) in
      let in_left = path_loop fuel (take split hashes) index proof in
      let in_right = path_loop fuel (drop split hashes) (index - split) proof in
      if leb (length hashes) 1
      then proof
      else if ltb index split
      then in_left ++ subtree_root (drop split hashes) ∷ []
      else in_right ++ subtree_root (take split hashes) ∷ []

  pub inclusion_path : List Text → ℕ → List Text → List Text
  inclusion_path hashes index proof = path_loop (length hashes) hashes index proof

  pub merkle_inclusion_proof : List Text → ℕ → Option (List Text)
  merkle_inclusion_proof hashes index =
      if (length hashes == 0) || leb (length hashes) index
      then none
      else some (inclusion_path hashes index [])

  -- The sibling's hash on its side of the child's.
  join_sibling : ℕ → ℕ → Text → ℕ → Option Text → Option (Text × ℕ)
  join_sibling index split child cursor none = none
  join_sibling index split child cursor (some sibling) = some (
    if ltb index split then hash_children child sibling else hash_children sibling child,
    cursor + 1,
  )

  -- The rest of `reconstruct` once the child's hash is known; `cursor` is passed on.
  pub join_child : ℕ → ℕ → List Text → Option (Text × ℕ) → Option (Text × ℕ)
  join_child index split proof none = none
  join_child index split proof (some (child, cursor)) =
      join_sibling index split child cursor (get_elem? proof cursor)

  pub reconstruct : ℕ → Text → ℕ → ℕ → List Text → ℕ → Option (Text × ℕ)
  unfolding join_child join_sibling
  reconstruct zero current index tree_size proof cursor = none
  reconstruct (suc fuel) current index tree_size proof cursor =
      let split = split_point tree_size in
      let in_left = reconstruct fuel current index split proof cursor in
      let in_right = reconstruct fuel current (index - split) (tree_size - split) proof cursor in
      if tree_size == 1
      then some (current, cursor)
      else join_child index split proof (if ltb index split then in_left else in_right)

  accepts : Text → ℕ → Option (Text × ℕ) → Bool
  accepts root size none = false
  accepts root size (some (candidate, cursor)) = text_eq candidate root && cursor == size

  pub verify_merkle_inclusion : Text → ℕ → ℕ → List Text → Text → Bool
  unfolding accepts
  verify_merkle_inclusion leaf index tree_size proof root =
      if (tree_size == 0) || leb tree_size index
      then false
      else accepts root (length proof)
          (reconstruct tree_size (hash_leaf leaf) index tree_size proof 0)
