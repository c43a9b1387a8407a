-- ===== src/Transparency/Checkpoint/Rounds.antt =====
-- The rounds of `merkle_root`: the loop ends, and an odd list and its padded copy have one root.
use oath.Prelude.{
  ℕ, zero, suc, ◌+◌, ◌*◌, ◌%◌, ◌≤◌, ◌<◌, ◌≡◌, refl, sym, ◌∙◌, ap, List, [], ◌∷◌, ◌++◌, arith,
  length, Text, length-append,
}
use oath.Transparency.Checkpoint.{pair_up, merkle_loop, merkle_root}

module _ (sha256 : Text → Text) where
  pub length-pair_up :
      (hs : List Text)
      → (length hs ≤ length (pair_up sha256 hs) * 2)
        × (length (pair_up sha256 hs) * 2 ≤ length hs + 1)
  unfolding pair_up
  length-pair_up [] = omega arith
  length-pair_up (h ∷ []) = omega arith
  length-pair_up (h ∷ i ∷ hs) = omega (arith, length-pair_up hs)

  merkle_loop_fuel :
      (f g : ℕ) (hs : List Text)
      → length hs ≤ f
      → length hs ≤ g
      → merkle_loop sha256 f hs ≡ merkle_loop sha256 g hs
  unfolding merkle_loop
  merkle_loop_fuel zero zero hs p q = refl
  merkle_loop_fuel zero (suc g) [] p q = refl
  merkle_loop_fuel zero (suc g) (h ∷ hs) p q = absurd (omega arith)
  merkle_loop_fuel (suc f) zero [] p q = refl
  merkle_loop_fuel (suc f) zero (h ∷ hs) p q = absurd (omega arith)
  merkle_loop_fuel (suc f) (suc g) [] p q = refl
  merkle_loop_fuel (suc f) (suc g) (h ∷ []) p q = refl
  merkle_loop_fuel (suc f) (suc g) (h ∷ i ∷ hs) p q =
      let l = length-pair_up (h ∷ i ∷ hs) in
      merkle_loop_fuel f g (pair_up sha256 (h ∷ i ∷ hs)) (omega (arith, l)) (omega (arith, l))

  -- The root of two or more hashes is the root of the shorter list that one round leaves: the loop
  -- has fuel for every round.
  pub merkle_root-round :
      (hs : List Text)
      → 1 < length hs
      → (merkle_root sha256 hs ≡ merkle_root sha256 (pair_up sha256 hs))
        × (length (pair_up sha256 hs) < length hs)
  unfolding merkle_root
  merkle_root-round [] h = absurd (omega arith)
  merkle_root-round (x ∷ []) h = absurd (omega arith)
  merkle_root-round (x ∷ y ∷ hs) h =
      let l = length-pair_up (x ∷ y ∷ hs) in
      (
        merkle_loop_fuel (suc (length hs)) (length (pair_up sha256 (x ∷ y ∷ hs)))
            (pair_up sha256 (x ∷ y ∷ hs)) (omega (arith, l)) (omega arith),
        omega (arith, l),
      )

  pair_up-duplicate :
      (hs : List Text) (h : Text)
      → length hs % 2 ≡ 0
      → pair_up sha256 (hs ++ h ∷ []) ≡ pair_up sha256 (hs ++ h ∷ h ∷ [])
  unfolding pair_up
  pair_up-duplicate [] h e = refl
  pair_up-duplicate (x ∷ []) h e = absurd (omega arith)
  pair_up-duplicate (x ∷ y ∷ hs) h e =
      ap (λ t. sha256 (x ++ y) ∷ t) (pair_up-duplicate hs h (omega arith))

  -- Three or more hashes of odd number have the root of the list that repeats the last of them, so
  -- the root alone does not tell the two apart.
  pub merkle_root-duplicate_last :
      (hs : List Text) (h : Text)
      → 0 < length hs
      → length hs % 2 ≡ 0
      → merkle_root sha256 (hs ++ h ∷ []) ≡ merkle_root sha256 (hs ++ h ∷ h ∷ [])
  merkle_root-duplicate_last hs h p e =
      let a = length-append hs (h ∷ []) in
      let b = length-append hs (h ∷ h ∷ []) in
      (merkle_root-round (hs ++ h ∷ []) (omega arith)).0
      ∙ ap (merkle_root sha256) (pair_up-duplicate hs h e)
      ∙ sym (merkle_root-round (hs ++ h ∷ h ∷ []) (omega arith)).0
