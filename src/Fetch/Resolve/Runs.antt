-- ===== src/Fetch/Resolve/Runs.antt =====
-- Ranges of versions that are bytes.
use oath.Prelude.Maps.{lookup}
use oath.Prelude.{
  strip_prefix, ℕ, ◌≡◌, refl, leb, ◌==◌, if◌then◌else◌, Option, none, some, [], ◌∷◌, Text, codes,
  text_eq, arith, all,
}
use oath.Prelude.Results.{ok}
use oath.Fetch.Resolve.{
  RangeSemver, Packument, after_first_at, last_at, unscoped_version, alias_version, strip_alias,
  tagged, candidates, insert, sort_candidates, last, highest, resolve_range, resolve_exact,
  resolve_named, resolve_version, parse_ranges, resolve_intersection,
}
use oath.Fetch.Resolve.Sorted.{IsOrder}
use oath.Fetch.Resolve.Highest.{IsAnswer, resolve_version-IsAnswer, resolve_intersection-IsAnswer}

abbrev parse_byte : Text → Option ℕ
parse_byte [] = none
parse_byte (c ∷ cs) = some c

abbrev parse_least : Text → Option ℕ
parse_least (mark ∷ c ∷ cs) = if mark == b'>' then some c else none
parse_least _ = none

abbrev byte_semver : RangeSemver
byte_semver = record {
  Version = ℕ;
  Range = ℕ;
  parse = parse_byte;
  parse_range = parse_least;
  satisfies = λ r v. leb r v;
  le = leb;
}

leb-IsOrder : IsOrder byte_semver
leb-IsOrder = record {
  total = λ v w h. ground (arith, h);
  trans = λ u v w h k. ground (arith, h, k);
}

abbrev demo : Packument ℕ
demo = record {
  name = codes "demo";
  dist_tags = (codes "latest", codes "2") ∷ [];
  versions = (codes "3", 30) ∷ (codes "5", 50) ∷ (codes "2", 20) ∷ [];
}

resolve_version-IsAnswer_example :
    IsAnswer byte_semver ℕ
      (λ v. leb 51 v)
      demo.versions
      (resolve_version byte_semver ℕ demo (codes "npm:x@>3"))
unfolding strip_alias strip_prefix alias_version unscoped_version last_at lookup tagged text_eq
resolve_version-IsAnswer_example =
    resolve_version-IsAnswer byte_semver ℕ leb-IsOrder demo (codes "npm:x@>3") 51 refl refl refl

resolve_intersection-IsAnswer_example :
    IsAnswer byte_semver ℕ
      (λ v. all (λ r. leb r v) (51 ∷ 50 ∷ []))
      demo.versions
      (resolve_intersection byte_semver ℕ demo (codes ">3" ∷ codes ">2" ∷ []))
unfolding parse_ranges
resolve_intersection-IsAnswer_example =
    resolve_intersection-IsAnswer byte_semver ℕ leb-IsOrder demo (codes ">3" ∷ codes ">2" ∷ [])
      (51 ∷ 50 ∷ []) refl

scoped_alias_run :
    resolve_version byte_semver ℕ demo (codes "npm:@acme/x@latest")
    ≡ ok (record { version = codes "2"; info = 20 })
unfolding strip_alias strip_prefix alias_version after_first_at lookup tagged text_eq resolve_named
    resolve_version
scoped_alias_run = refl

highest_run :
    resolve_version byte_semver ℕ demo (codes ">3") ≡ ok (record { version = codes "5"; info = 50 })
unfolding strip_alias strip_prefix alias_version lookup tagged text_eq resolve_named resolve_version
    resolve_exact resolve_range highest candidates insert sort_candidates last
highest_run = refl
