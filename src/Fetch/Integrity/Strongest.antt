-- ===== src/Fetch/Integrity/Strongest.antt =====
-- Integrity metadata is decided by its strongest algorithm.
use mathlib.Core.List.{append_assoc, append-nil}
use oath.Prelude.{
  ◌≡◌, ◌↔◌, refl, inl, inr, ◌&&◌, Bool, true, false, not, arith, all, if◌then◌else◌, Option, none,
  some, List, [], ◌∷◌, ◌++◌, Text, codes, text_eq, text_eq_iff, contains_text, Bool-cases,
  Option-cases,
}
use oath.Fetch.Integrity.{
  Algorithm, sha512, sha256, sha1, invalid_format, ok, err, split_whitespace, split_once, Listed,
  add_digest, collect_digests, is_empty, strongest, new_verifier, finish, verify_integrity,
}

-- The token `name-digest` with a digest that is not empty.
abbrev pub is_well_formed : Text → Bool
is_well_formed token = elim (split_once token) [
  | none ↦ false
  | some (algo, d) ↦ not (text_eq d [])
]

-- The digests that the tokens list for an algorithm.
abbrev digest_of : Text → Option (Text × Text) → List Text
digest_of name none = []
digest_of name (some (algo, d)) = if text_eq algo name then d ∷ [] else []

pub digests_of : Text → List Text → List Text
digests_of name [] = []
digests_of name (t ∷ ts) = digest_of name (split_once t) ++ digests_of name ts

-- What the loop has collected after the tokens.
abbrev with_tokens : List Text → Listed → Listed
with_tokens ts l = record {
  sha512 = l.sha512 ++ digests_of (codes "sha512") ts;
  sha256 = l.sha256 ++ digests_of (codes "sha256") ts;
  sha1 = l.sha1 ++ digests_of (codes "sha1") ts;
}

add_digest-sha512 :
    (algo d : Text) (l : Listed)
    → (add_digest algo d l).sha512 ≡ l.sha512 ++ digest_of (codes "sha512") (some (algo, d))
unfolding add_digest
add_digest-sha512 algo d l = ground (arith, append-nil l.sha512)

add_digest-sha256 :
    (algo d : Text) (l : Listed)
    → (add_digest algo d l).sha256 ≡ l.sha256 ++ digest_of (codes "sha256") (some (algo, d))
unfolding add_digest
add_digest-sha256 algo d l = elim (Bool-cases (text_eq algo (codes "sha512"))) [
  | inl e ↦
      rw ((text_eq_iff algo (codes "sha512")).0 e)
        (unfold text_eq in ground (arith, append-nil l.sha256))
  | inr e ↦ ground (arith, e, append-nil l.sha256)
]

add_digest-sha1 :
    (algo d : Text) (l : Listed)
    → (add_digest algo d l).sha1 ≡ l.sha1 ++ digest_of (codes "sha1") (some (algo, d))
unfolding add_digest
add_digest-sha1 algo d l = elim (Bool-cases (text_eq algo (codes "sha512"))) [
  | inl e ↦
      rw ((text_eq_iff algo (codes "sha512")).0 e)
        (unfold text_eq in ground (arith, append-nil l.sha1))
  | inr e ↦ elim (Bool-cases (text_eq algo (codes "sha256"))) [
    | inl f ↦
        rw ((text_eq_iff algo (codes "sha256")).0 f)
          (unfold text_eq in ground (arith, append-nil l.sha1))
    | inr f ↦ ground (arith, e, f, append-nil l.sha1)
  ]
]

with_tokens-add_digest :
    (t algo d : Text) (ts : List Text) (l : Listed)
    → split_once t ≡ some (algo, d)
    → with_tokens ts (add_digest algo d l) ≡ with_tokens (t ∷ ts) l
unfolding digests_of
with_tokens-add_digest t algo d ts l q =
    rw (q, add_digest-sha512 algo d l, add_digest-sha256 algo d l, add_digest-sha1 algo d l)
      (rw
        (
          append_assoc l.sha512 (digest_of (codes "sha512") (some (algo, d)))
              (digests_of (codes "sha512") ts),
          append_assoc l.sha256 (digest_of (codes "sha256") (some (algo, d)))
              (digests_of (codes "sha256") ts),
          append_assoc l.sha1 (digest_of (codes "sha1") (some (algo, d)))
              (digests_of (codes "sha1") ts),
        )
        refl)

collect_digests-tokens :
    (ts : List Text) (l : Listed)
    → collect_digests ts l
      ≡ (if all is_well_formed ts then ok (with_tokens ts l) else err invalid_format)
unfolding collect_digests digests_of
collect_digests-tokens [] l = rw (append-nil l.sha512, append-nil l.sha256, append-nil l.sha1) refl
collect_digests-tokens (t ∷ ts) l = elim (Option-cases (split_once t)) [
  | inl q ↦ ground (arith, q)
  | inr ((algo, d), q) ↦ elim (Bool-cases (text_eq d [])) [
    | inl e ↦ ground (arith, q, e)
    | inr e ↦
        let h = collect_digests-tokens ts (add_digest algo d l) in
        let w = with_tokens-add_digest t algo d ts l q in ground (arith, q, e, h, w)
  ]
]

-- Whether data is what the metadata says: every token is well formed, and the data's digest by the
-- strongest algorithm that a token names is one of those listed for it.
pub matches_strongest : (Algorithm → Text → Text) → Text → Text → Bool
matches_strongest digest bytes sri =
    let ts = split_whitespace [] sri in
    all is_well_formed ts
    && (if not (is_empty (digests_of (codes "sha512") ts))
        then contains_text (digests_of (codes "sha512") ts) (digest sha512 bytes)
        else if not (is_empty (digests_of (codes "sha256") ts))
        then contains_text (digests_of (codes "sha256") ts) (digest sha256 bytes)
        else contains_text (digests_of (codes "sha1") ts) (digest sha1 bytes))

-- `verify_integrity` accepts exactly the data that matches the strongest algorithm listed: a digest
-- of a weaker one never makes up for it.
pub verify_integrity_iff :
    (digest : Algorithm → Text → Text) (bytes sri : Text)
    → (verify_integrity digest bytes sri ≡ ok tt) ↔ (matches_strongest digest bytes sri ≡ true)
unfolding verify_integrity new_verifier finish strongest matches_strongest contains_text
verify_integrity_iff digest bytes sri =
    let c =
      collect_digests-tokens (split_whitespace [] sri)
        (record { sha512 = []; sha256 = []; sha1 = [] }) in
    (λ h. ground (arith, c, h), λ h. ground (arith, c, h))
