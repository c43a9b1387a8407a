-- ===== src/Fetch/Resolve.antt =====
-- crates/oath-fetch/src/resolve.rs: the version of a package that a specifier names. The semver crate is
-- a parameter; a map is the list of its entries in the order in which it is walked.
mod Sorted
mod Highest
mod Runs
use oath.Prelude.Maps.{lookup}
use oath.Prelude.{
  strip_prefix, ℕ, zero, suc, ◌+◌, ◌==◌, ltb, ◌&&◌, Bool, true, false, if◌then◌else◌, Option, none,
  some, List, [], ◌∷◌, all, drop, Text, codes, text_eq,
}
use oath.Prelude.Results.{Result, ok, err}

pub data ResolveError : Type 0 where
  invalid_range no_version : ResolveError

-- The versions and ranges of the semver crate.
pub record RangeSemver : Type 1 where
  pub Version : Type 0
  pub Range : Type 0
  pub parse : Text → Option Version
  pub parse_range : Text → Option Range
  pub satisfies : Range → Version → Bool
  pub le : Version → Version → Bool

pub record Packument (VersionInfo : Type 0) : Type 0 where
  pub name : Text
  pub dist_tags : List (Text × Text)
  pub versions : List (Text × VersionInfo)

-- What stands behind the first `@`.
unfoldable pub after_first_at : Text → Option Text
after_first_at [] = none
after_first_at (c ∷ cs) = let rest = after_first_at cs in if c == b'@' then some cs else rest

-- The position of the last `@`.
unfoldable pub last_at : Text → Option ℕ
last_at [] = none
last_at (c ∷ cs) = elim (last_at cs) [
  | some i ↦ some (suc i)
  | none ↦ if c == b'@' then some 0 else none
]

abbrev or_latest : Option Text → Text
or_latest none = codes "latest"
or_latest (some t) = t

-- The version part of `pkg@version`.
unfoldable pub unscoped_version : Text → Text
unscoped_version rest = elim (last_at rest) [
  | some at_pos ↦ if ltb 0 at_pos then drop (at_pos + 1) rest else codes "latest"
  | none ↦ codes "latest"
]

-- The version part of what follows `npm:`.
unfoldable pub alias_version : Text → Text
alias_version rest = elim (strip_prefix (codes "@") rest) [
  | some stripped ↦ or_latest (after_first_at stripped)
  | none ↦ unscoped_version rest
]

unfoldable pub strip_alias : Text → Text
strip_alias specifier = elim (strip_prefix (codes "npm:") specifier) [
  | some rest ↦ alias_version rest
  | none ↦ specifier
]

module _ (semver : RangeSemver) (VersionInfo : Type 0) where
  open semver use {Version, Range, parse, parse_range, satisfies, le}

  pub record ResolvedVersion : Type 0 where
    pub version : Text
    pub info : VersionInfo

  pub record Candidate : Type 0 where
    pub version : Text
    pub info : VersionInfo
    pub parsed : Version

  -- `filter_map`: the versions that parse and pass the test.
  unfoldable pub candidates : (Version → Bool) → List (Text × VersionInfo) → List Candidate
  candidates test [] = []
  candidates test (x ∷ xs) =
      let rest = candidates test xs in
      elim (parse x.0) [
        | none ↦ rest
        | some v ↦ if test v then record { version = x.0; info = x.1; parsed = v } ∷ rest else rest
      ]

  -- `sort_by`, which keeps the order of what compares equal.
  unfoldable pub insert : Candidate → List Candidate → List Candidate
  insert x [] = x ∷ []
  insert x (y ∷ ys) =
      let rest = insert x ys in if le x.parsed y.parsed then x ∷ y ∷ ys else y ∷ rest

  unfoldable pub sort_candidates : List Candidate → List Candidate
  sort_candidates [] = []
  sort_candidates (x ∷ xs) = insert x (sort_candidates xs)

  unfoldable pub last : List Candidate → Option Candidate
  last [] = none
  last (x ∷ []) = some x
  last (x ∷ y ∷ ys) = last (y ∷ ys)

  -- The highest version that passes the test.
  unfoldable pub highest :
      (Version → Bool) → List (Text × VersionInfo) → Result ResolveError ResolvedVersion
  highest test versions = elim (last (sort_candidates (candidates test versions))) [
    | none ↦ err no_version
    | some c ↦ ok (record { version = c.version; info = c.info })
  ]

  unfoldable pub resolve_range : Packument VersionInfo → Text → Result ResolveError ResolvedVersion
  resolve_range packument specifier = elim (parse_range specifier) [
    | none ↦ err invalid_range
    | some range ↦ highest (satisfies range) packument.versions
  ]

  unfoldable pub resolve_exact : Packument VersionInfo → Text → Result ResolveError ResolvedVersion
  resolve_exact packument specifier = elim (lookup specifier packument.versions) [
    | some info ↦ ok (record { version = specifier; info = info })
    | none ↦ resolve_range packument specifier
  ]

  -- The version that a dist-tag points to, where both are there.
  unfoldable pub tagged : Packument VersionInfo → Text → Option ResolvedVersion
  tagged packument specifier = elim (lookup specifier packument.dist_tags) [
    | none ↦ none
    | some version ↦ elim (lookup version packument.versions) [
      | none ↦ none
      | some info ↦ some (record { version = version; info = info })
    ]
  ]

  unfoldable pub resolve_named : Packument VersionInfo → Text → Result ResolveError ResolvedVersion
  resolve_named packument specifier = elim (tagged packument specifier) [
    | some resolved ↦ ok resolved
    | none ↦ resolve_exact packument specifier
  ]

  unfoldable pub resolve_version :
      Packument VersionInfo → Text → Result ResolveError ResolvedVersion
  resolve_version packument specifier = resolve_named packument (strip_alias specifier)

  -- Every range must parse.
  unfoldable pub parse_ranges : List Text → Option (List Range)
  parse_ranges [] = some []
  parse_ranges (s ∷ ss) = elim (parse_range s) [
    | none ↦ none
    | some r ↦ elim (parse_ranges ss) [ none ↦ none | some rs ↦ some (r ∷ rs) ]
  ]

  unfoldable pub resolve_intersection :
      Packument VersionInfo → List Text → Result ResolveError ResolvedVersion
  resolve_intersection packument specifiers = elim (parse_ranges specifiers) [
    | none ↦ err invalid_range
    | some ranges ↦ highest (λ v. all (λ r. satisfies r v) ranges) packument.versions
  ]
