-- ===== src/Registry/Merkle/Consistency/Powers.antt =====
-- Powers of two: order, divisibility, and the bits that `compact_range` sizes its nodes by.
use native.Mathlib.Nat.{pow-suc}
use oath.Prelude.{ℕ, zero, suc, ◌+◌, ◌*◌, ◌^◌, ◌≤◌, ◌<◌, ◌≡◌, arith}

pub pow_pos : (e : ℕ) → 0 < 2 ^ e
pow_pos zero = omega arith
pow_pos (suc e) = rw pow-suc (omega (arith, pow_pos e))

-- A number that 2 ^ i divides, and that is an odd multiple of 2 ^ j, has i ≤ j.
pow-le_of_odd : (i j q m : ℕ) → 2 ^ i * q ≡ 2 ^ j * (2 * m + 1) → 2 ^ i ≤ 2 ^ j
pow-le_of_odd zero j q m h = pow_pos j
pow-le_of_odd (suc i) zero q m h = absurd (omega (arith, rw pow-suc at h))
pow-le_of_odd (suc i) (suc j) q m h =
    let h' = rw (pow-suc, pow-suc) at h in
    rw (pow-suc, pow-suc) (omega (arith, pow-le_of_odd i j q m (omega arith)))

-- The smaller of two powers of two divides the larger, and its double divides a strictly larger.
pow-dvd : (i j : ℕ) → 2 ^ i ≤ 2 ^ j → (d : ℕ) × (2 ^ j ≡ 2 ^ i * d)
pow-dvd zero j h = (2 ^ j, omega arith)
pow-dvd (suc i) zero h = absurd (omega (arith, rw pow-suc at h, pow_pos i))
pow-dvd (suc i) (suc j) h =
    let (d, e) = pow-dvd i j (omega (arith, rw (pow-suc, pow-suc) at h)) in
    (d, rw (pow-suc, pow-suc) (omega arith))

pow-dvd_lt : (i j : ℕ) → 2 ^ i < 2 ^ j → (d : ℕ) × (2 ^ j ≡ 2 ^ i * 2 * d)
pow-dvd_lt i zero h = absurd (omega (arith, pow_pos i))
pow-dvd_lt zero (suc j) h = (2 ^ j, rw pow-suc (omega arith))
pow-dvd_lt (suc i) (suc j) h =
    let (d, e) = pow-dvd_lt i j (omega (arith, rw (pow-suc, pow-suc) at h)) in
    (d, rw (pow-suc, pow-suc) (omega arith))

abbrev pub IsPow : ℕ → Type 0
IsPow x = (e : ℕ) × (x ≡ 2 ^ e)

pub IsPow-pos : (x : ℕ) → IsPow x → 0 < x
IsPow-pos x (e, h) = rw h (pow_pos e)

pub IsPow-double : (x : ℕ) → IsPow x → IsPow (x * 2)
IsPow-double x (e, h) = (suc e, rw (pow-suc, h))

pub odd_bound : (a b q m : ℕ) → IsPow a → IsPow b → a * q ≡ b * (2 * m + 1) → a ≤ b
odd_bound a b q m (i, p) (j, r) h = rw (p, r) (pow-le_of_odd i j q m (rw (p, r) at h))

pub dvd_of_le : (a b : ℕ) → IsPow a → IsPow b → a ≤ b → (d : ℕ) × (b ≡ a * d)
dvd_of_le a b (i, p) (j, r) h = rw (p, r) (pow-dvd i j (rw (p, r) at h))

pub dvd_of_lt : (a b : ℕ) → IsPow a → IsPow b → a < b → (d : ℕ) × (b ≡ a * 2 * d)
dvd_of_lt a b (i, p) (j, r) h = rw (p, r) (pow-dvd_lt i j (rw (p, r) at h))
