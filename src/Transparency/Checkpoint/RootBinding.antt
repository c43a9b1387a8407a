-- ===== src/Transparency/Checkpoint/RootBinding.antt =====
-- A checkpoint's root, with its entry count, commits to the log.
use oath.Digest.{Collision, cut_left, unhash}
use oath.Prelude.{
  ℕ, zero, suc, ◌≤◌, ◌≡◌, ◌≢◌, ◌⊎◌, refl, sym, ◌∙◌, ap, List, [], ◌∷◌, ◌++◌, arith, length, Text,
  Option, some, none, All, inl, inr, Option-cases,
}
use oath.Transparency.{
  TransparencyEntry, TransparencyCheckpoint, Json, ok, hashed, last_hash, read_all, verify_chain,
  verify_loop, genesis_hash, hash_entry, payload_of,
}
use oath.Transparency.Chain.{verify_chain-inv, verify_loop-step}
use oath.Transparency.Binding.{payloads, last_hash-commits}
use oath.Transparency.Checkpoint.{entry_hashes, last, pair_up, merkle_root, checkpoint}
use oath.Transparency.Checkpoint.Rounds.{length-pair_up, merkle_root-round}

abbrev IsDigest : Text → Type 0
IsDigest h = length h ≡ 64

last-some : (h : Text) (hs : List Text) → (x : Text) × (last (h ∷ hs) ≡ some x)
unfolding last
last-some h [] = (h, refl)
last-some h (i ∷ hs) = last-some i hs

last_or : Text → Option Text → Option Text
last_or x none = some x
last_or x (some h) = some h

last-cons : (x : Text) (hs : List Text) → last (x ∷ hs) ≡ last_or x (last hs)
unfolding last last_or
last-cons x [] = refl
last-cons x (h ∷ hs) = let (y, e) = last-some h hs in rw e refl

-- The last hash is the last of the hashes.
last_hash-last : (es : List TransparencyEntry) → last_hash es ≡ last (entry_hashes es)
unfolding last_hash entry_hashes last_or
last_hash-last [] = unfold last in refl
last_hash-last (e ∷ es) = elim (Option-cases e.entry_hash) [
  | inl z ↦ ground (arith, last_hash-last es)
  | inr (x, p) ↦ ground (arith, last_hash-last es, last-cons x (entry_hashes es))
]

module _ (sha256 : Text → Text) (digest_length : (x : Text) → length (sha256 x) ≡ 64) where
  pair_up-IsDigest : (hs : List Text) → All IsDigest (pair_up sha256 hs)
  unfolding pair_up
  pair_up-IsDigest [] = tt
  pair_up-IsDigest (h ∷ []) = (digest_length _, tt)
  pair_up-IsDigest (h ∷ i ∷ hs) = (digest_length _, pair_up-IsDigest hs)

  pair-cases :
      (a b c d : Text)
      → length a ≡ length c
      → sha256 (a ++ b) ≡ sha256 (c ++ d)
      → Collision sha256 ⊎ ((a ≡ c) × (b ≡ d))
  pair-cases a b c d l e = elim (unhash sha256 (a ++ b) (c ++ d) e) [
    | inl x ↦ inl x
    | inr same ↦ inr (cut_left a c b d l same)
  ]

  pair_up-cases :
      (hs gs : List Text)
      → length hs ≡ length gs
      → All IsDigest hs
      → All IsDigest gs
      → pair_up sha256 hs ≡ pair_up sha256 gs
      → Collision sha256 ⊎ (hs ≡ gs)
  unfolding pair_up
  pair_up-cases [] [] l p q e = inr refl
  pair_up-cases [] (g ∷ gs) l p q e = absurd (omega arith)
  pair_up-cases (h ∷ hs) [] l p q e = absurd (omega arith)
  pair_up-cases (h ∷ []) (g ∷ []) l p q e = elim (pair-cases h h g g (p.0 ∙ sym q.0) (cc e)) [
    | inl x ↦ inl x
    | inr (s, _) ↦ inr (cc s)
  ]
  pair_up-cases (h ∷ []) (g ∷ g' ∷ gs) l p q e = absurd (omega arith)
  pair_up-cases (h ∷ h' ∷ hs) (g ∷ []) l p q e = absurd (omega arith)
  pair_up-cases (h ∷ h' ∷ hs) (g ∷ g' ∷ gs) l (p, (p', ps)) (q, (q', qs)) e =
      elim (pair-cases h h' g g' (p ∙ sym q) (cc e)) [
        | inl x ↦ inl x
        | inr (s, t) ↦ elim (pair_up-cases hs gs (omega arith) ps qs (cc e)) [
          | inl x ↦ inl x
          | inr r ↦ inr (cc (s, t, r))
        ]
      ]

  -- Two lists of digests of one length with one root are equal, or show a collision.
  merkle_root-cases :
      (f : ℕ) (hs gs : List Text)
      → length hs ≤ f
      → length hs ≡ length gs
      → All IsDigest hs
      → All IsDigest gs
      → merkle_root sha256 hs ≡ merkle_root sha256 gs
      → Collision sha256 ⊎ (hs ≡ gs)
  merkle_root-cases f [] [] b l p q e = inr refl
  merkle_root-cases f [] (g ∷ gs) b l p q e = absurd (omega arith)
  merkle_root-cases f (h ∷ hs) [] b l p q e = absurd (omega arith)
  merkle_root-cases f (h ∷ []) (g ∷ []) b l p q e = inr (ap (λ t. t ∷ []) (unfold merkle_root in e))
  merkle_root-cases f (h ∷ []) (g ∷ g' ∷ gs) b l p q e = absurd (omega arith)
  merkle_root-cases f (h ∷ h' ∷ hs) (g ∷ []) b l p q e = absurd (omega arith)
  merkle_root-cases zero (h ∷ h' ∷ hs) (g ∷ g' ∷ gs) b l p q e = absurd (omega arith)
  merkle_root-cases (suc f) (h ∷ h' ∷ hs) (g ∷ g' ∷ gs) b l p q e =
      let xs : List Text = h ∷ h' ∷ hs in
      let ys : List Text = g ∷ g' ∷ gs in
      let rx = merkle_root-round sha256 xs (omega arith) in
      let ry = merkle_root-round sha256 ys (omega arith) in
      elim (merkle_root-cases f (pair_up sha256 xs) (pair_up sha256 ys) (omega (arith, rx.1))
        (omega (arith, length-pair_up sha256 xs, length-pair_up sha256 ys)) (pair_up-IsDigest xs)
        (pair_up-IsDigest ys) (sym rx.0 ∙ e ∙ ry.0)) [
          | inl x ↦ inl x
          | inr same ↦ pair_up-cases xs ys l p q same
        ]

  module _ (json : Json) where
    entry_hashes-IsDigest :
        (previous : Text) (es : List TransparencyEntry) (h : Text)
        → verify_loop sha256 json previous (hashed es) ≡ ok h
        → All IsDigest (entry_hashes es)
    unfolding entry_hashes
    entry_hashes-IsDigest previous [] h v = tt
    entry_hashes-IsDigest previous (e ∷ es) h v = elim (Option-cases e.entry_hash) [
      | inl z ↦
          let t : hashed (e ∷ es) ≡ hashed es = ground arith in
          rw z (entry_hashes-IsDigest previous es h (rw t at v))
      | inr (x, p) ↦
          let t : hashed (e ∷ es) ≡ e ∷ hashed es = ground arith in
          let s = verify_loop-step sha256 json previous e (hashed es) h (rw t at v) in
          rw s.0 (
            unfold hash_entry in digest_length _,
            entry_hashes-IsDigest (hash_entry sha256 json previous (payload_of e)) es h s.1,
          )
    ]

    -- A checkpoint is made of a log that verifies.
    checkpoint-inv :
        (file : Text) (c : TransparencyCheckpoint)
        → checkpoint sha256 json file ≡ ok c
        → (verify_chain sha256 json file ≡ ok tt)
          × (c.entry_count ≡ length (entry_hashes (read_all sha256 json file)))
          × (c.merkle_root ≡ merkle_root sha256 (entry_hashes (read_all sha256 json file)))
    unfolding checkpoint
    checkpoint-inv file c e = (ground arith, ground arith, ground arith)

    -- For a digest of 64 characters whose first is never the `G` of the genesis text: two checkpoints
    -- with one entry count and one Merkle root were made of logs that hold the same payloads in the
    -- same order, as far as entries with a hash go, or two different messages have one digest.
    pub checkpoint-commits :
        (digest_first : (x d : Text) → sha256 x ≢ b'G' ∷ d) (f g : Text)
        {c d : TransparencyCheckpoint}
        → checkpoint sha256 json f ≡ ok c
        → checkpoint sha256 json g ≡ ok d
        → c.entry_count ≡ d.entry_count
        → c.merkle_root ≡ d.merkle_root
        → Collision sha256 ⊎ (payloads sha256 json f ≡ payloads sha256 json g)
    checkpoint-commits digest_first f g {c} {d} v w n r =
        let hs = entry_hashes (read_all sha256 json f) in
        let gs = entry_hashes (read_all sha256 json g) in
        let (vf, nf, rf) = checkpoint-inv f c v in
        let (vg, ng, rg) = checkpoint-inv g d w in
        let (hf, lf) = verify_chain-inv sha256 json f vf in
        let (hg, lg) = verify_chain-inv sha256 json g vg in
        elim (merkle_root-cases (length hs) hs gs (omega arith) (sym nf ∙ n ∙ ng)
          (entry_hashes-IsDigest genesis_hash (read_all sha256 json f) hf lf)
          (entry_hashes-IsDigest genesis_hash (read_all sha256 json g) hg lg) (sym rf ∙ r ∙ rg)) [
            | inl x ↦ inl x
            | inr same ↦ last_hash-commits sha256 digest_length digest_first json f g vf vg (
                last_hash-last (read_all sha256 json f)
                ∙ ap last same
                ∙ sym (last_hash-last (read_all sha256 json g)))
          ]
