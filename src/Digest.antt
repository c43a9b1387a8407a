-- ===== src/Digest.antt =====
-- What the components use of SHA-256 (`sha2::Sha256`, printed by `{:x}`): a function from bytes to
-- text. It enters each development as a parameter; what is shared here is how equal digests are read.
use oath.Prelude.{
  ℕ, ◌≡◌, ◌≢◌, ◌⊎◌, refl, ap, [], ◌∷◌, ◌++◌, arith, length, Text, Text-discrete, inl, inr,
  length-append,
}

-- Two different messages with one digest.
abbrev pub Collision : (Text → Text) → Type 0
Collision sha256 = (x : Text) × (y : Text) × (x ≢ y) × (sha256 x ≡ sha256 y)

-- Equal concatenations, cut where the parts on one side have one length.
pub cut_left : (a b c d : Text) → length a ≡ length b → a ++ c ≡ b ++ d → (a ≡ b) × (c ≡ d)
cut_left [] [] c d h e = (refl, e)
cut_left [] (y ∷ b) c d h e = absurd (omega arith)
cut_left (x ∷ a) [] c d h e = absurd (omega arith)
cut_left (x ∷ a) (y ∷ b) c d h e =
    let rest = cut_left a b c d (omega arith) (cc) in (cc (rest.0), rest.1)

pub cut_right : (a b c d : Text) → length c ≡ length d → a ++ c ≡ b ++ d → (a ≡ b) × (c ≡ d)
cut_right a b c d h e =
    cut_left a b c d
      (omega (arith, length-append a c, length-append b d, ap {B = ℕ} (λ (t : Text). length t) e)) e

module _ (sha256 : Text → Text) where
  -- Equal digests come from equal messages, or they are a collision.
  pub unhash : (x y : Text) → sha256 x ≡ sha256 y → Collision sha256 ⊎ (x ≡ y)
  unhash x y e = elim (Text-discrete x y) [ yes p ↦ inr p | no n ↦ inl (x, y, n, e) ]
