-- ===== src/Core/Integrity/RoundTrip.antt =====
-- What `base64_encode` writes can be read back.
use oath.Prelude.{
  ℕ, zero, suc, ◌+◌, ◌-◌, ◌*◌, ◌/◌, ◌%◌, ◌^◌, ◌<◌, ◌≡◌, refl, ap, ◌&&◌, ◌==◌, ==_iff, Bool, true,
  false, not, leb, arith, All, if◌then◌else◌, [], ◌∷◌, Text, inl, inr, Bool-cases,
}
use oath.Core.Integrity.{char_at, triple_of, char0, char1, char2, char3, base64_encode}

-- The value of a character by RFC 4648.
abbrev pub value_of : ℕ → ℕ
value_of c =
    if leb b'a' c
    then c - b'a' + 26
    else if leb b'A' c
    then c - b'A'
    else if leb b'0' c
    then c - b'0' + 52
    else if c == b'+'
    then 62
    else 63

abbrev pub number_of : ℕ → ℕ → ℕ → ℕ → ℕ
number_of c0 c1 c2 c3 =
    value_of c0 * 2 ^ 18 + value_of c1 * 2 ^ 12 + value_of c2 * 2 ^ 6 + value_of c3

abbrev byte0 : ℕ → ℕ
byte0 t = t / 2 ^ 16

abbrev byte1 : ℕ → ℕ
byte1 t = t / 2 ^ 8 % 256

abbrev byte2 : ℕ → ℕ
byte2 t = t % 256

-- The bytes that groups of four characters stand for.
pub base64_decode : Text → Text
base64_decode (c0 ∷ c1 ∷ c2 ∷ c3 ∷ rest) =
    let more = base64_decode rest in
    let t1 = number_of c0 c1 b'A' b'A' in
    let t2 = number_of c0 c1 c2 b'A' in
    let t3 = number_of c0 c1 c2 c3 in
    if c2 == b'='
    then byte0 t1 ∷ []
    else if c3 == b'='
    then byte0 t2 ∷ byte1 t2 ∷ []
    else byte0 t3 ∷ byte1 t3 ∷ byte2 t3 ∷ more
base64_decode _ = []

abbrev holds_below : (ℕ → Bool) → ℕ → Bool
holds_below p zero = true
holds_below p (suc n) = p n && holds_below p n

below : (p : ℕ → Bool) (n i : ℕ) → holds_below p n ≡ true → i < n → p i ≡ true
below p zero i h k = absurd (omega (arith, k))
below p (suc n) i h k = elim (Bool-cases (i == n)) [
  | inl e ↦ rw ((==_iff i n).0 e) (ground (arith, h))
  | inr e ↦ below p n i (ground (arith, h)) (ground (arith, e, k))
]

value-char_at : (i : ℕ) → i < 64 → value_of (char_at i) ≡ i
unfolding char_at
value-char_at i h = (==_iff _ _).0 (below (λ i. value_of (char_at i) == i) 64 i refl h)

char_at-padding : (i : ℕ) → i < 64 → (char_at i == b'=') ≡ false
unfolding char_at
char_at-padding i h = ground (arith, below (λ i. not (char_at i == b'=')) 64 i refl h)

module _ (t : ℕ) where
  values0 : value_of (char0 t) ≡ t / 2 ^ 18 % 64
  values0 = value-char_at (t / 2 ^ 18 % 64) (omega arith)

  values1 : value_of (char1 t) ≡ t / 2 ^ 12 % 64
  values1 = value-char_at (t / 2 ^ 12 % 64) (omega arith)

  values2 : value_of (char2 t) ≡ t / 2 ^ 6 % 64
  values2 = value-char_at (t / 2 ^ 6 % 64) (omega arith)

  values3 : value_of (char3 t) ≡ t % 64
  values3 = value-char_at (t % 64) (omega arith)

  number3 : t < 2 ^ 24 → number_of (char0 t) (char1 t) (char2 t) (char3 t) ≡ t
  number3 h = rw (values0, values1, values2, values3) (omega (arith, h))

  number2 : t < 2 ^ 24 → t % 64 ≡ 0 → number_of (char0 t) (char1 t) (char2 t) b'A' ≡ t
  number2 h k = rw (values0, values1, values2) (omega (arith, h, k))

  number1 : t < 2 ^ 24 → t % 2 ^ 12 ≡ 0 → number_of (char0 t) (char1 t) b'A' b'A' ≡ t
  number1 h k = rw (values0, values1) (omega (arith, h, k))

  padding2 : (char2 t == b'=') ≡ false
  padding2 = char_at-padding (t / 2 ^ 6 % 64) (omega arith)

  padding3 : (char3 t == b'=') ≡ false
  padding3 = char_at-padding (t % 64) (omega arith)

-- Decoding what was encoded gives the bytes back, so no two data have one encoding.
pub base64_decode-encode :
    (xs : Text) → All (λ b. b < 256) xs → base64_decode (base64_encode xs) ≡ xs
unfolding base64_encode base64_decode
base64_decode-encode [] h = refl
base64_decode-encode (b0 ∷ []) (h0, h) =
    let t = triple_of b0 0 0 in
    let n = number1 t (omega (arith, h0)) (omega arith) in
    rw n (let e : byte0 t ≡ b0 = omega (arith, h0) in rw e refl)
base64_decode-encode (b0 ∷ b1 ∷ []) (h0, (h1, h)) =
    let t = triple_of b0 b1 0 in
    let n = number2 t (omega (arith, h0, h1)) (omega arith) in
    let e : byte0 t ≡ b0 = omega (arith, h0, h1) in
    let f : byte1 t ≡ b1 = omega (arith, h0, h1) in rw (padding2 t, n, e, f) refl
base64_decode-encode (b0 ∷ b1 ∷ b2 ∷ rest) (h0, (h1, (h2, h))) =
    let t = triple_of b0 b1 b2 in
    let n = number3 t (omega (arith, h0, h1, h2)) in
    let e : byte0 t ≡ b0 = omega (arith, h0, h1, h2) in
    let f : byte1 t ≡ b1 = omega (arith, h0, h1, h2) in
    let g : byte2 t ≡ b2 = omega (arith, h0, h1, h2) in
    rw (padding2 t, padding3 t, n, e, f, g)
      (ap (λ r. b0 ∷ b1 ∷ b2 ∷ r) (base64_decode-encode rest h))
