-- ===== src/Registry/Merkle/Consistency/Bits.antt =====
-- The highest and the lowest set bit, and the size of a node of `compact_range`.
use native.Mathlib.Nat.{mul_assoc}
use oath.Prelude.{
  ℕ, zero, suc, ◌+◌, ◌-◌, ◌*◌, ◌/◌, ◌%◌, min, ◌≤◌, ◌<◌, ◌≡◌, refl, ap, ◌∙◌, arith, inl, inr, true,
  false, dec_lt, leb, ◌==◌, Bool-cases,
}
use oath.Registry.Merkle.Consistency.{
  top_bit_loop, top_bit, low_bit_loop, low_bit, is_power_of_two, shrink, first_size, node_size,
}
use oath.Registry.Merkle.Consistency.Powers.{IsPow, IsPow-pos, IsPow-double, dvd_of_le, dvd_of_lt}

-- Two powers of two, each less than twice the other, are equal.
pub pow_unique : (a b : ℕ) → IsPow a → IsPow b → a < b * 2 → b < a * 2 → a ≡ b
pow_unique a b p q h k = elim (dec_lt a b) [
  | yes lt ↦ let (d, e) = dvd_of_lt a b p q lt in absurd (twice a b d (IsPow-pos b q) e k)
  | no ge ↦ elim (dec_lt b a) [
    | yes lt ↦ let (d, e) = dvd_of_lt b a q p lt in absurd (twice b a d (IsPow-pos a p) e h)
    | no le ↦ omega arith
  ]
]
  where
    twice : (a b d : ℕ) → 0 < b → b ≡ a * 2 * d → b < a * 2 → ⊥
    twice a b zero p e l = omega arith
    twice a b (suc d) p e l = grind arith

top_bit_loop_lem :
    (f x : ℕ)
    → 0 < x
    → x ≤ f
    → IsPow (top_bit_loop f x) × (top_bit_loop f x ≤ x) × (x < top_bit_loop f x * 2)
unfolding top_bit_loop
top_bit_loop_lem zero x p h = absurd (omega arith)
top_bit_loop_lem (suc f) x p h = elim (Bool-cases (leb x 1)) [
  | inl one ↦ rw one ((0, refl), ground arith, ground arith)
  | inr more ↦
      let ih = top_bit_loop_lem f (x / 2) (ground arith) (ground arith) in
      rw more (IsPow-double _ ih.0, omega (arith, ih), omega (arith, ih))
]

-- The highest set bit is a power of two, at most the number and more than half of it.
pub top_bit_lem : (x : ℕ) → 0 < x → IsPow (top_bit x) × (top_bit x ≤ x) × (x < top_bit x * 2)
unfolding top_bit
top_bit_lem x p = top_bit_loop_lem x x p (omega arith)

low_bit_loop_lem :
    (f x : ℕ) → 0 < x → x ≤ f → IsPow (low_bit_loop f x) × ((q : ℕ) × (x ≡ low_bit_loop f x * q))
unfolding low_bit_loop
low_bit_loop_lem zero x p h = absurd (omega arith)
low_bit_loop_lem (suc f) x p h = elim (Bool-cases (x % 2 == 1)) [
  | inl odd ↦ rw odd ((0, refl), (x, omega arith))
  | inr even ↦
      let (pow, (q, e)) = low_bit_loop_lem f (x / 2) (ground arith) (ground arith) in
      let two : x ≡ x / 2 * 2 = ground arith in rw even (IsPow-double _ pow, (q, omega arith))
]

-- The lowest set bit is a power of two that divides the number.
pub low_bit_lem : (x : ℕ) → 0 < x → IsPow (low_bit x) × ((q : ℕ) × (x ≡ low_bit x * q))
unfolding low_bit
low_bit_lem x p = low_bit_loop_lem x x p (omega arith)

pub is_power_of_two-IsPow : (x : ℕ) → IsPow x → is_power_of_two x ≡ true
unfolding is_power_of_two
is_power_of_two-IsPow x p =
    let pos = IsPow-pos x p in
    let t = top_bit_lem x pos in
    let e : top_bit x ≡ x = pow_unique (top_bit x) x t.0 p (omega (arith, t)) t.2 in ground arith

IsPow-min : (a b : ℕ) → IsPow a → IsPow b → IsPow (min a b)
IsPow-min a b p q = elim (dec_lt a b) [
  | yes lt ↦ let e : min a b ≡ a = omega arith in rw e p
  | no ge ↦ let e : min a b ≡ b = omega arith in rw e q
]

-- What a node at `cursor` may be: it fits below the end, and its size divides its start.
abbrev pub IsAligned : ℕ → ℕ → ℕ → Type 0
IsAligned cursor end size = IsPow size × (cursor + size ≤ end) × ((q : ℕ) × (cursor ≡ size * q))

shrink-fits : (f cursor end size : ℕ) → cursor + size ≤ end → shrink f cursor end size ≡ size
unfolding shrink
shrink-fits zero cursor end size h = refl
shrink-fits (suc f) cursor end size h = ground arith

-- A smaller power of two divides what a larger one divides.
divides_more : (a b c q : ℕ) → IsPow a → IsPow b → a ≤ b → c ≡ b * q → (d : ℕ) × (c ≡ a * d)
divides_more a b c q p r h e =
    let (d, f) = dvd_of_le a b p r h in (d * q, e ∙ ap (λ (t : ℕ). t * q) f ∙ mul_assoc a d q)

first_size-zero : (end : ℕ) → first_size 0 end ≡ top_bit end
unfolding first_size
first_size-zero end = let e : end - 0 ≡ end = omega arith in rw e (omega arith)

first_size-pos :
    (cursor end : ℕ)
    → 0 < cursor
    → first_size cursor end ≡ min (low_bit cursor) (top_bit (end - cursor))
unfolding first_size
first_size-pos zero end h = elim h [ ]
first_size-pos (suc c) end h = let e : (suc c == 0) ≡ false = ground arith in rw e

first_size-IsAligned :
    (cursor end : ℕ) → cursor < end → IsAligned cursor end (first_size cursor end)
first_size-IsAligned zero end h =
    let t = top_bit_lem end h in rw (first_size-zero end) (t.0, omega (arith, t), (0, omega arith))
first_size-IsAligned (suc c) end h =
    let t = top_bit_lem (end - suc c) (omega arith) in
    let (l, (q, d)) = low_bit_lem (suc c) (omega arith) in
    let size = min (low_bit (suc c)) (top_bit (end - suc c)) in
    let p : IsPow size = IsPow-min (low_bit (suc c)) (top_bit (end - suc c)) l t.0 in
    rw (first_size-pos (suc c) end (omega arith))
      (p, omega (arith, t), divides_more size (low_bit (suc c)) (suc c) q p l (omega arith) d)

-- `compact_range` never shrinks a node.
pub node_size-IsAligned :
    (cursor end : ℕ) → cursor < end → IsAligned cursor end (node_size cursor end)
unfolding node_size
node_size-IsAligned cursor end h =
    let a = first_size-IsAligned cursor end h in
    rw (shrink-fits (first_size cursor end) cursor end (first_size cursor end) a.1) a
