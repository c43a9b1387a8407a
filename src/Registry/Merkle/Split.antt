-- ===== src/Registry/Merkle/Split.antt =====
-- `split_point`: the largest power of two below the length.
use oath.Prelude.{
  ℕ, zero, suc, ◌+◌, ◌*◌, ◌^◌, ◌≤◌, ◌<◌, ◌≡◌, refl, arith, ltb, inl, inr, Bool-cases,
}
use native.Mathlib.Nat.{pow-suc}
use oath.Registry.Merkle.{split_loop, split_point}

-- What the loop promises from `power = 2 ^ e`, with fuel for every round.
abbrev pub IsSplit : ℕ → ℕ → Type 0
IsSplit length split = (split < length) × (length ≤ split * 2) × ((e : ℕ) × (split ≡ 2 ^ e))

split_loop-IsSplit :
    (fuel power length e : ℕ)
    → power ≡ 2 ^ e
    → 0 < power
    → power < length
    → length ≤ power + fuel
    → IsSplit length (split_loop fuel power length)
unfolding split_loop
split_loop-IsSplit zero power length e h p l f = absurd (omega arith)
split_loop-IsSplit (suc fuel) power length e h p l f = elim (Bool-cases (ltb (power * 2) length)) [
  | inl more ↦ rw more (
      split_loop-IsSplit fuel (power * 2) length (suc e) (rw (pow-suc, h) (omega arith))
        (omega arith) (ground arith) (omega arith))
  | inr done ↦ rw done (l, ground arith, (e, h))
]

-- The split of two or more hashes is a power of two below their number, and at least half of it.
pub split_point-IsSplit : (length : ℕ) → 1 < length → IsSplit length (split_point length)
unfolding split_point
split_point-IsSplit length h =
    split_loop-IsSplit length 1 length 0 refl (omega arith) h (omega arith)

split_33 : split_point 33 ≡ 32
unfolding split_point
split_33 = refl
