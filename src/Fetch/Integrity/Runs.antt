-- ===== src/Fetch/Integrity/Runs.antt =====
-- Runs of the integrity check with toy digests.
use oath.Prelude.{◌≡◌, ◌↔◌, refl, true, ◌∷◌, Text, codes, text_eq, contains_text}
use oath.Fetch.Integrity.{
  Algorithm, sha512, sha256, sha1, ok, err, integrity_failed, split_whitespace, split_once,
  add_digest, collect_digests, strongest, new_verifier, finish, verify_integrity,
}
use oath.Fetch.Integrity.Strongest.{matches_strongest, verify_integrity_iff}

-- Each digest is the data behind the algorithm's letter.
abbrev toy : Algorithm → Text → Text
toy sha512 x = b'A' ∷ x
toy sha256 x = b'B' ∷ x
toy sha1 x = b'C' ∷ x

abbrev metadata : Text
metadata = codes "sha1-Cdata  sha512-Aother sha512-Adata"

verify_integrity_iff_example :
    (verify_integrity toy (codes "data") metadata ≡ ok tt)
    ↔ (matches_strongest toy (codes "data") metadata ≡ true)
verify_integrity_iff_example = verify_integrity_iff toy (codes "data") metadata

-- The digest of the weaker algorithm is right, that of the stronger is not.
weaker_is_refused :
    verify_integrity toy (codes "data") (codes "sha1-Cdata sha512-Aother") ≡ err integrity_failed
unfolding verify_integrity new_verifier finish strongest collect_digests add_digest split_once
    split_whitespace text_eq contains_text
weaker_is_refused = refl

stronger_is_accepted : verify_integrity toy (codes "data") metadata ≡ ok tt
unfolding verify_integrity new_verifier finish strongest collect_digests add_digest split_once
    split_whitespace text_eq contains_text
stronger_is_accepted = refl
