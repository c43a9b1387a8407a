-- ===== src/Core/Integrity.antt =====
-- `base64_encode` of crates/oath-core/src/integrity.rs. Bytes are shifted into a number of 24 bits;
-- `|` of bits that do not meet is `+`.
mod RoundTrip
mod Runs
use oath.Prelude.{
  ℕ, ◌+◌, ◌*◌, ◌/◌, ◌%◌, ◌^◌, List, [], ◌∷◌, Text, codes, get_elem?, Option, none, some,
}

abbrev pub chars : Text
chars = codes "ABCDEFGHIJKLMNOPQRSTUVWXYZabcdefghijklmnopqrstuvwxyz0123456789+/"

-- `CHARS[index]`; the index is masked to 6 bits, so it is in range.
pub char_at : ℕ → ℕ
char_at i = elim (get_elem? chars i) [ none ↦ 0 | some c ↦ c ]

abbrev pub triple_of : ℕ → ℕ → ℕ → ℕ
triple_of b0 b1 b2 = b0 * 2 ^ 16 + b1 * 2 ^ 8 + b2

-- The characters of a chunk's number, from the highest 6 bits on.
abbrev pub char0 : ℕ → ℕ
char0 triple = char_at (triple / 2 ^ 18 % 64)

abbrev pub char1 : ℕ → ℕ
char1 triple = char_at (triple / 2 ^ 12 % 64)

abbrev pub char2 : ℕ → ℕ
char2 triple = char_at (triple / 2 ^ 6 % 64)

abbrev pub char3 : ℕ → ℕ
char3 triple = char_at (triple % 64)

-- The loop over the chunks of three; a byte that a chunk lacks is 0, and its character is `=`.
pub base64_encode : Text → Text
base64_encode [] = []
base64_encode (b0 ∷ []) = let t = triple_of b0 0 0 in char0 t ∷ char1 t ∷ b'=' ∷ b'=' ∷ []
base64_encode (b0 ∷ b1 ∷ []) = let t = triple_of b0 b1 0 in char0 t ∷ char1 t ∷ char2 t ∷ b'=' ∷ []
base64_encode (b0 ∷ b1 ∷ b2 ∷ rest) =
    let t = triple_of b0 b1 b2 in char0 t ∷ char1 t ∷ char2 t ∷ char3 t ∷ base64_encode rest
