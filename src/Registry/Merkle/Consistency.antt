-- ===== src/Registry/Merkle/Consistency.antt =====
-- Consistency proofs of crates/oath-registry/src/lib.rs: `MerkleRangeNode`, `compact_range`,
-- `merkle_consistency_proof`, `root_from_frontier`, `verify_merkle_consistency`.
pub mod Powers
pub mod Bits
pub mod Ranges
pub mod Cover
pub mod Frontier
pub mod Complete
use oath.Prelude.{
  ℕ, zero, suc, ◌+◌, ◌-◌, ◌*◌, ◌/◌, ◌%◌, ◌^◌, min, Bool, true, false, not, ◌&&◌, ◌||◌, Option, none,
  some, List, [], ◌∷◌, ◌++◌, ltb, leb, ◌==◌, length, take, drop, if◌then◌else◌, Text, text_eq,
}
use oath.Registry.Merkle.{subtree_root, hash_children}

pub record MerkleRangeNode : Type 0 where
  pub start : ℕ
  pub size : ℕ
  pub hash : Text

pub record MerkleConsistencyProof : Type 0 where
  pub from_size : ℕ
  pub to_size : ℕ
  pub prefix : List MerkleRangeNode
  pub suffix : List MerkleRangeNode

-- `1usize << (usize::BITS - 1 - x.leading_zeros())`: the highest set bit of x, for x > 0.
top_bit_loop : ℕ → ℕ → ℕ
top_bit_loop zero x = 1
top_bit_loop (suc fuel) x = let rest = top_bit_loop fuel (x / 2) in if leb x 1 then 1 else rest * 2

pub top_bit : ℕ → ℕ
unfolding top_bit_loop
top_bit x = top_bit_loop x x

-- `1usize << x.trailing_zeros()`: the lowest set bit of x, for x > 0.
low_bit_loop : ℕ → ℕ → ℕ
low_bit_loop zero x = 1
low_bit_loop (suc fuel) x =
    let rest = low_bit_loop fuel (x / 2) in if x % 2 == 1 then 1 else rest * 2

pub low_bit : ℕ → ℕ
unfolding low_bit_loop
low_bit x = low_bit_loop x x

-- `x.is_power_of_two()`
pub is_power_of_two : ℕ → Bool
unfolding top_bit
is_power_of_two x = not (x == 0) && top_bit x == x

-- `while cursor + size > end { size >>= 1 }`; halving reaches 0 within `size` rounds.
shrink : ℕ → ℕ → ℕ → ℕ → ℕ
shrink zero cursor end size = size
shrink (suc fuel) cursor end size =
    let rest = shrink fuel cursor end (size / 2) in if ltb end (cursor + size) then rest else size

-- `alignment.min(…)`: the size that `compact_range` first tries at `cursor`, and the one it takes.
first_size : ℕ → ℕ → ℕ
unfolding low_bit top_bit
first_size cursor end =
    let remaining = end - cursor in
    let alignment = if cursor == 0 then top_bit remaining else low_bit cursor in
    min alignment (top_bit remaining)

pub node_size : ℕ → ℕ → ℕ
unfolding shrink first_size
node_size cursor end = shrink (first_size cursor end) cursor end (first_size cursor end)

-- `*proof.as_deref() == Some(root)`
is_root : Option Text → Text → Bool
is_root none root = false
is_root (some r) root = text_eq r root

module _ (sha256 : Text → Text) where
  -- The outer loop, on fuel: every node covers at least one hash.
  pub compact_loop : ℕ → List Text → ℕ → ℕ → List MerkleRangeNode
  unfolding node_size
  compact_loop zero hashes cursor end = []
  compact_loop (suc fuel) hashes cursor end =
      let size = node_size cursor end in
      let rest = compact_loop fuel hashes (cursor + size) end in
      if ltb cursor end
      then record {
        start = cursor;
        size = size;
        hash = subtree_root sha256 (take size (drop cursor hashes));
      }
        ∷ rest
      else []

  pub compact_range : List Text → ℕ → ℕ → List MerkleRangeNode
  unfolding compact_loop
  compact_range hashes start end = compact_loop (end - start) hashes start end

  pub merkle_consistency_proof : List Text → ℕ → Option MerkleConsistencyProof
  merkle_consistency_proof hashes from_size =
      if ltb (length hashes) from_size
      then none
      else some (record {
        from_size = from_size;
        to_size = length hashes;
        prefix = compact_range hashes 0 from_size;
        suffix = compact_range hashes from_size (length hashes);
      })

  -- The node that replaces the two at the top of the stack.
  pub join_nodes : MerkleRangeNode → MerkleRangeNode → MerkleRangeNode
  join_nodes left right = record {
    start = left.start;
    size = left.size * 2;
    hash = hash_children sha256 left.hash right.hash;
  }

  -- The inner `loop`: the top of the stack, and what is below it. The head of the list is the top.
  -- `is_multiple_of(0)` is a test for 0, as `% 0` is here.
  pub merge_top : MerkleRangeNode → List MerkleRangeNode → List MerkleRangeNode
  unfolding join_nodes
  merge_top right [] = right ∷ []
  merge_top right (left ∷ rest) =
      let merged = merge_top (join_nodes left right) rest in
      if not (left.size == right.size)
        || not (left.start + left.size == right.start)
        || not (left.start % (left.size * 2) == 0)
      then right ∷ left ∷ rest
      else merged

  -- The `for` loop: the cursor and the stack, `none` for an early `return None`. `checked_add` is
  -- on 64-bit integers; the sums and products of `merge_top` stay below the cursor that it checks.
  pub frontier_loop :
      List MerkleRangeNode → ℕ → List MerkleRangeNode → Option (ℕ × List MerkleRangeNode)
  unfolding is_power_of_two
  frontier_loop [] cursor stack = some (cursor, stack)
  frontier_loop (node ∷ nodes) cursor stack =
      let rest = frontier_loop nodes (cursor + node.size) (merge_top node stack) in
      if not (node.start == cursor) || node.size == 0 || not (is_power_of_two node.size)
      then none
      else if leb (2 ^ 64) (cursor + node.size)
      then none
      else rest

  -- The last loop, from the top of the stack down.
  pub fold_root : Text → List MerkleRangeNode → Text
  fold_root root [] = root
  fold_root root (node ∷ nodes) = fold_root (hash_children sha256 node.hash root) nodes

  pub finish_root : ℕ → Option (ℕ × List MerkleRangeNode) → Option Text
  unfolding fold_root
  finish_root expected_size none = none
  finish_root expected_size (some (cursor, [])) = none
  finish_root expected_size (some (cursor, top ∷ below)) =
      if cursor == expected_size then some (fold_root top.hash below) else none

  pub root_from_frontier : List MerkleRangeNode → ℕ → Option Text
  unfolding finish_root
  root_from_frontier nodes zero = elim nodes [ [] ↦ some (sha256 []) | _ ↦ none ]
  root_from_frontier nodes (suc n) = finish_root (suc n) (frontier_loop nodes 0 [])

  pub verify_merkle_consistency : MerkleConsistencyProof → Text → Text → Bool
  unfolding is_root
  verify_merkle_consistency proof from_root to_root =
      if ltb proof.to_size proof.from_size
      then false
      else is_root (root_from_frontier proof.prefix proof.from_size) from_root
        && is_root (root_from_frontier (proof.prefix ++ proof.suffix) proof.to_size) to_root
