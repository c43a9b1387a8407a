-- ===== src/Resolve/Names.antt =====
-- crates/oath-resolve/src/lockfile.rs: the name of a package, from the key of its entry or from the URL
-- of its tarball.
use oath.Prelude.{
  strip_prefix, ℕ, zero, suc, ◌+◌, ◌==◌, ◌&&◌, ◌||◌, Bool, false, if◌then◌else◌, Option, none, some,
  [], ◌∷◌, ◌++◌, ◌≡◌, refl, take, length, Text, codes, starts_with,
}

-- `rsplit_once`, the part behind
unfoldable pub after_last : Text → Text → Option Text
after_last pattern [] = none
after_last pattern (c ∷ cs) = elim (after_last pattern cs) [
  | some rest ↦ some rest
  | none ↦ strip_prefix pattern (c ∷ cs)
]

-- `split_once` at a byte, both parts.
unfoldable pub split_first : ℕ → Text → Option (Text × Text)
split_first b [] = none
split_first b (c ∷ cs) = elim (split_first b cs) [
  | none ↦ if c == b then some ([], cs) else none
  | some parts ↦ if c == b then some ([], cs) else some (c ∷ parts.0, parts.1)
]

-- `split(b).next()`
unfoldable pub first_part : ℕ → Text → Text
first_part b t = elim (split_first b t) [ none ↦ t | some parts ↦ parts.0 ]

-- Split at the last `b`.
unfoldable pub split_last : ℕ → Text → Option (Text × Text)
split_last b [] = none
split_last b (c ∷ cs) = elim (split_last b cs) [
  | none ↦ if c == b then some ([], cs) else none
  | some parts ↦ some (c ∷ parts.0, parts.1)
]

-- The name in what follows `node_modules/`. The bytes of a scope and a name are counted without the
-- leading `@`.
unfoldable pub scoped_name : Text → Text → Option Text
scoped_name rest scope_rest = elim (split_first b'/' scope_rest) [
  | none ↦ none
  | some parts ↦ some (take (length parts.0 + 1 + length (first_part b'/' parts.1)) rest)
]

unfoldable pub placed_name : Text → Text
placed_name rest = elim (strip_prefix (codes "@") rest) [
  | none ↦ first_part b'/' rest
  | some scope_rest ↦ elim (scoped_name rest scope_rest) [
    | none ↦ first_part b'/' rest
    | some name ↦ name
  ]
]

-- `&key[..at]`, where the last `@` is there and not at the start.
abbrev name_before : Text → Option (Text × Text) → Text
name_before key none = key
name_before key (some ([], version)) = key
name_before key (some (c ∷ cs, version)) = c ∷ cs

-- The name in a key `name@version`.
unfoldable pub canonical_name : Text → Text
canonical_name key = name_before key (split_last b'@' key)

abbrev key_name : Text → Option Text → Text
key_name key none = canonical_name key
key_name key (some rest) = placed_name rest

unfoldable pub lock_key_package_name : Text → Text
lock_key_package_name key = key_name key (after_last (codes "node_modules/") key)

-- `split(['?', '#']).next()`
unfoldable pub before_query : Text → Text
before_query [] = []
before_query (c ∷ cs) =
    let rest = before_query cs in if c == b'?' || c == b'#' then [] else c ∷ rest

-- `split(pattern).next()`, or nothing where the pattern is not there.
unfoldable pub before_pattern : Text → Text → Option Text
before_pattern pattern [] = none
before_pattern pattern (c ∷ cs) = elim (before_pattern pattern cs) [
  | none ↦ if starts_with pattern (c ∷ cs) then some [] else none
  | some rest ↦ if starts_with pattern (c ∷ cs) then some [] else some (c ∷ rest)
]

-- `replace(pattern, "/")` for a pattern of three bytes, of which `skip` are still to be passed over.
unfoldable pub replace_escape : Text → ℕ → Text → Text
replace_escape pattern skip [] = []
replace_escape pattern zero (c ∷ cs) =
    let found = replace_escape pattern 2 cs in
    let rest = replace_escape pattern 0 cs in
    if starts_with pattern (c ∷ cs) then b'/' ∷ found else c ∷ rest
replace_escape pattern (suc skip) (c ∷ cs) = replace_escape pattern skip cs

-- `rsplit('/')`: the last segment, and the one before it or nothing.
unfoldable pub last_segments : Text → Text × Text
last_segments t = elim (split_last b'/' t) [
  | none ↦ (t, [])
  | some parts ↦
      (parts.1, elim (split_last b'/' parts.0) [ none ↦ parts.0 | some before ↦ before.1 ])
]

unfoldable pub has_slash : Text → Bool
has_slash [] = false
has_slash (c ∷ cs) = let rest = has_slash cs in c == b'/' || rest

unfoldable pub segment_name : Text → Text → Text
segment_name previous last =
    if starts_with (codes "@") last && has_slash last
    then last
    else if starts_with (codes "@") previous
    then previous ++ codes "/" ++ last
    else last

unfoldable pub npm_tarball_package_name : Text → Option Text
npm_tarball_package_name resolved = elim (before_pattern (codes "/-/") (before_query resolved)) [
  | none ↦ none
  | some before_tarball ↦
      let segments = last_segments before_tarball in
      some (
        segment_name segments.1
          (replace_escape (codes "%2F") 0 (replace_escape (codes "%2f") 0 segments.0)))
]

canonical_run : lock_key_package_name (codes "@acme/x@1.0.0") ≡ codes "@acme/x"
unfolding lock_key_package_name after_last strip_prefix canonical_name split_last
canonical_run = refl

-- The last byte of a scoped name is lost.
scoped_run : lock_key_package_name (codes "node_modules/@babel/core") ≡ codes "@babel/cor"
unfolding lock_key_package_name after_last strip_prefix placed_name scoped_name first_part
    split_first
scoped_run = refl

tarball_run :
    npm_tarball_package_name (codes "https://r/@acme%2fx/-/x-1.tgz?a=/-/") ≡ some (codes "@acme/x")
unfolding npm_tarball_package_name before_query before_pattern starts_with last_segments split_last
    replace_escape segment_name has_slash
tarball_run = refl
