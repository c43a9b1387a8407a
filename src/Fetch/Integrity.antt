-- ===== src/Fetch/Integrity.antt =====
-- `IntegrityVerifier` and `verify_integrity` of crates/oath-fetch/src/tarball.rs. The three digests,
-- each with its base64 form, are parameters.
mod Strongest
mod Runs
use oath.Prelude.{
  ℕ, ◌==◌, ◌&&◌, ◌||◌, Bool, true, false, not, leb, if◌then◌else◌, Option, none, some, List, [],
  ◌∷◌, ◌++◌, Text, codes, text_eq, contains_text,
}

pub data Algorithm : Type 0 where
  sha512 sha256 sha1 : Algorithm

pub data SriError : Type 0 where
  invalid_format no_supported_digest integrity_failed : SriError

pub data Result (A : Type 0) : Type 0 where
  ok : A → Result A
  err : SriError → Result A

-- `char::is_whitespace`: the characters of Unicode's White_Space.
is_whitespace : ℕ → Bool
is_whitespace c =
    (leb 9 c && leb c 13)
    || c == 32
    || c == 0x85
    || c == 0xa0
    || c == 0x1680
    || (leb 0x2000 c && leb c 0x200a)
    || c == 0x2028
    || c == 0x2029
    || c == 0x202f
    || c == 0x205f
    || c == 0x3000

-- `sri.split_whitespace()`, on a text of characters: `word` is the token that is being read.
pub split_whitespace : Text → Text → List Text
unfolding text_eq is_whitespace
split_whitespace word [] = if text_eq word [] then [] else word ∷ []
split_whitespace word (c ∷ cs) =
    let after = split_whitespace [] cs in
    let longer = split_whitespace (word ++ c ∷ []) cs in
    if is_whitespace c then (if text_eq word [] then after else word ∷ after) else longer

-- `token.split_once('-')`
pub split_once : Text → Option (Text × Text)
split_once [] = none
split_once (c ∷ cs) =
    let rest = split_once cs in
    if c == b'-'
    then some ([], cs)
    else elim rest [ none ↦ none | some (before, after) ↦ some (c ∷ before, after) ]

-- The digests that the tokens list, by algorithm, each in the order of the tokens.
pub record Listed : Type 0 where
  pub sha512 : List Text
  pub sha256 : List Text
  pub sha1 : List Text

pub add_digest : Text → Text → Listed → Listed
unfolding text_eq
add_digest algo expected l =
    if text_eq algo (codes "sha512")
    then record l { sha512 = l.sha512 ++ expected ∷ [] }
    else if text_eq algo (codes "sha256")
    then record l { sha256 = l.sha256 ++ expected ∷ [] }
    else if text_eq algo (codes "sha1")
    then record l { sha1 = l.sha1 ++ expected ∷ [] }
    else l

-- The loop over the tokens.
pub collect_digests : List Text → Listed → Result Listed
unfolding text_eq
collect_digests [] l = ok l
collect_digests (token ∷ ts) l = elim (split_once token) [
  | none ↦ err invalid_format
  | some (algo, expected) ↦
      if text_eq expected []
      then err invalid_format
      else collect_digests ts (add_digest algo expected l)
]

-- `is_empty()` of a list of digests.
abbrev pub is_empty : List Text → Bool
is_empty [] = true
is_empty (x ∷ xs) = false

-- The strongest algorithm that is listed, with its digests.
pub strongest : Listed → Result (Algorithm × List Text)
strongest l =
    if not (is_empty l.sha512)
    then ok (sha512, l.sha512)
    else if not (is_empty l.sha256)
    then ok (sha256, l.sha256)
    else if not (is_empty l.sha1)
    then ok (sha1, l.sha1)
    else err no_supported_digest

-- `IntegrityVerifier::new`, without the state of the hasher.
pub new_verifier : Text → Result (Algorithm × List Text)
new_verifier sri =
    elim (collect_digests (split_whitespace [] sri)
      (record { sha512 = []; sha256 = []; sha1 = [] })) [ ok l ↦ strongest l | err e ↦ err e ]

-- `digest` is the base64 form of an algorithm's digest of the data.
module _ (digest : Algorithm → Text → Text) where
  pub finish : Text → Algorithm × List Text → Result (Unit {0})
  finish bytes (algo, expected) =
      if not (contains_text expected (digest algo bytes)) then err integrity_failed else ok tt

  pub verify_integrity : Text → Text → Result (Unit {0})
  verify_integrity bytes sri = elim (new_verifier sri) [ ok v ↦ finish bytes v | err e ↦ err e ]
