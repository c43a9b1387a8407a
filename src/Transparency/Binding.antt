-- ===== src/Transparency/Binding.antt =====
-- The last hash of a log that verifies commits to every payload in it.
use mathlib.Core.List.{reverse, reverse_aux, reverse-reverse}
use oath.Digest.{Collision, cut_left, unhash}
use oath.Prelude.{
  ℕ, ◌≡◌, ◌≢◌, ◌⊎◌, refl, sym, ◌∙◌, ap, some, List, [], ◌∷◌, ◌++◌, map, arith, Text, inl, inr,
  length,
}
use oath.Transparency.{
  TransparencyEntry, HashPayload, Json, ok, payload_of, hashed, last_hash, genesis_hash, hash_entry,
  read_all, verify_loop, verify_chain,
}
use oath.Transparency.Chain.{or_else, verify_loop-step, verify_chain-inv, verify_loop-last_hash}

module _ (sha256 : Text → Text) (json : Json) where
  -- The payloads that a log's chain covers.
  abbrev pub payloads : Text → List HashPayload
  payloads file = map payload_of (hashed (read_all sha256 json file))

module _ (sha256 : Text → Text) (digest_length : (x : Text) → length (sha256 x) ≡ 64)
    (digest_first : (x d : Text) → sha256 x ≢ b'G' ∷ d) (json : Json) where
  -- The last hash of a chain, its payloads listed from the newest.
  head_of : List HashPayload → Text
  head_of [] = genesis_hash
  head_of (p ∷ older) = hash_entry sha256 json (head_of older) p

  -- A digest followed by anything is not the genesis text followed by anything.
  genesis-ne : (x s t : Text) → genesis_hash ++ s ≡ sha256 x ++ t → ⊥
  genesis-ne x s t e = go (sha256 x) (digest_length x) (digest_first x) e
    where
      go : (d : Text) → length d ≡ 64 → ((u : Text) → d ≢ b'G' ∷ u) → genesis_hash ++ s ≡ d ++ t → ⊥
      go [] l h e = omega arith
      go (b ∷ d) l h e = let c : b'G' ≡ b = cc e in h d (ap (λ x. x ∷ d) (sym c))

  payload-eq : (p q : HashPayload) → json.to_vec p ≡ json.to_vec q → p ≡ q
  payload-eq p q e =
      let f : some p ≡ some q =
        sym (json.from_vec-to_vec p) ∙ ap json.from_vec e ∙ json.from_vec-to_vec q in
      cc f

  head_of-length : (p : HashPayload) (ps : List HashPayload) → length (head_of (p ∷ ps)) ≡ 64
  unfolding head_of hash_entry
  head_of-length p ps = digest_length _

  cut_heads :
      (ps qs : List HashPayload) (s t : Text)
      → head_of ps ++ s ≡ head_of qs ++ t
      → (head_of ps ≡ head_of qs) × (s ≡ t)
  cut_heads [] [] s t e = cut_left (head_of []) (head_of []) s t refl e
  cut_heads [] (q ∷ qs) s t e = unfold head_of hash_entry in absurd (genesis-ne _ s t e)
  cut_heads (p ∷ ps) [] s t e = unfold head_of hash_entry in absurd (genesis-ne _ t s (sym e))
  cut_heads (p ∷ ps) (q ∷ qs) s t e =
      cut_left (head_of (p ∷ ps)) (head_of (q ∷ qs)) s t
        (head_of-length p ps ∙ sym (head_of-length q qs)) e

  head_of-cases :
      (ps qs : List HashPayload) → head_of ps ≡ head_of qs → Collision sha256 ⊎ (ps ≡ qs)
  head_of-cases [] [] e = inr refl
  head_of-cases [] (q ∷ qs) e =
      unfold head_of in
      absurd (omega (arith, ap {B = ℕ} (λ (t : Text). length t) e, head_of-length q qs))
  head_of-cases (p ∷ ps) [] e =
      unfold head_of in
      absurd (omega (arith, ap {B = ℕ} (λ (t : Text). length t) e, head_of-length p ps))
  head_of-cases (p ∷ ps) (q ∷ qs) e =
      elim (unhash sha256 (head_of ps ++ json.to_vec p) (head_of qs ++ json.to_vec q)
        (unfold head_of hash_entry in e)) [
          | inl c ↦ inl c
          | inr same ↦
              let (heads, bodies) = cut_heads ps qs (json.to_vec p) (json.to_vec q) same in
              elim (head_of-cases ps qs heads) [
                | inl c ↦ inl c
                | inr older ↦ inr (cc (payload-eq p q bodies, older))
              ]
        ]

  -- The loop computes `head_of`, with the payloads in reverse.
  verify_loop-head_of :
      (es : List TransparencyEntry) (older : List HashPayload) (h : Text)
      → verify_loop sha256 json (head_of older) es ≡ ok h
      → h ≡ head_of (reverse_aux (map payload_of es) older)
  unfolding head_of verify_loop
  verify_loop-head_of [] older h v = ground arith
  verify_loop-head_of (e ∷ es) older h v =
      verify_loop-head_of es (payload_of e ∷ older) h
        (verify_loop-step sha256 json (head_of older) e es h v).1

  verify_chain-head_of :
      (file : Text)
      → verify_chain sha256 json file ≡ ok tt
      → or_else genesis_hash (last_hash (read_all sha256 json file))
        ≡ head_of (reverse (payloads sha256 json file))
  verify_chain-head_of file v =
      let (h, r) = verify_chain-inv sha256 json file v in
      sym (verify_loop-last_hash sha256 json genesis_hash (read_all sha256 json file) h r)
      ∙ verify_loop-head_of (hashed (read_all sha256 json file)) [] h (unfold head_of in r)

  -- For a digest of 64 characters whose first is never the `G` of the genesis text: two logs that
  -- verify and have the same last entry hash hold the same payloads in the same order, as far as
  -- entries with a hash go, or two different messages have one digest.
  pub last_hash-commits :
      (f g : Text)
      → verify_chain sha256 json f ≡ ok tt
      → verify_chain sha256 json g ≡ ok tt
      → last_hash (read_all sha256 json f) ≡ last_hash (read_all sha256 json g)
      → Collision sha256 ⊎ (payloads sha256 json f ≡ payloads sha256 json g)
  last_hash-commits f g v w e =
      elim (head_of-cases (reverse (payloads sha256 json f)) (reverse (payloads sha256 json g))
        (sym (verify_chain-head_of f v) ∙ ap (or_else genesis_hash) e ∙ verify_chain-head_of g w)) [
          | inl c ↦ inl c
          | inr same ↦ inr (
              sym (reverse-reverse (payloads sha256 json f))
              ∙ ap reverse same
              ∙ reverse-reverse (payloads sha256 json g))
        ]
