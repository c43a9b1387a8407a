-- ===== src/Fetch/Resolve/Highest.antt =====
-- A range resolves to its highest version.
use oath.Prelude.Maps.{lookup}
use oath.Prelude.{
  All, ℕ, zero, suc, ◌≡◌, refl, ap, ◌∙◌, inl, inr, Bool, true, none, some, List, [], ◌∷◌, get_elem?,
  all, Text, Bool-cases, Option-cases,
}
use mathlib.Core.Path.{subst}
use oath.Prelude.Results.{Result, ok, err}
use oath.Prelude.Tables.{All-map}
use oath.Fetch.Resolve.{
  RangeSemver, ResolveError, no_version, Packument, Candidate, ResolvedVersion, candidates,
  sort_candidates, last, highest, strip_alias, tagged, resolve_range, resolve_exact, resolve_named,
  resolve_version, parse_ranges, resolve_intersection,
}
use oath.Fetch.Resolve.Sorted.{IsOrder, last_sorted-All, last_sorted-greatest, last_sorted-none}

module _ (semver : RangeSemver) (VersionInfo : Type 0) where
  abbrev C : Type 0
  C = Candidate semver VersionInfo

  -- An entry of the versions, with what its text parses to, that passes the test.
  pub record IsPassing (test : semver.Version → Bool) (versions : List (Text × VersionInfo)) (c : C)
      : Type 0 where
    pub place : ℕ
    pub entry : get_elem? versions place ≡ some (c.version, c.info)
    pub parses : semver.parse c.version ≡ some c.parsed
    pub passes : test c.parsed ≡ true

  behind :
      (test : semver.Version → Bool) (x : Text × VersionInfo) (versions : List (Text × VersionInfo))
      (c : C)
      → IsPassing test versions c
      → IsPassing test (x ∷ versions) c
  behind test x versions c h = record {
    place = suc h.place;
    entry = h.entry;
    parses = h.parses;
    passes = h.passes;
  }

  candidates-IsPassing :
      (test : semver.Version → Bool) (versions : List (Text × VersionInfo))
      → All (IsPassing test versions) (candidates semver VersionInfo test versions)
  unfolding candidates
  candidates-IsPassing test [] = tt
  candidates-IsPassing test (x ∷ xs) =
      let rest =
        All-map (IsPassing test xs) (IsPassing test (x ∷ xs)) _ (behind test x xs)
          (candidates-IsPassing test xs) in
      elim (Option-cases (semver.parse x.0)) [
        | inl e ↦ rw (e, All) rest
        | inr (v, e) ↦ elim (Bool-cases (test v)) [
          | inl t ↦
              rw (e, t, All) (record { place = 0; entry = refl; parses = e; passes = t }, rest)
          | inr t ↦ rw (e, t, All) rest
        ]
      ]

  -- What holds of the candidates of a list holds of those of its tail.
  candidates-tail :
      (P : C → Type 0) (test : semver.Version → Bool) (x : Text × VersionInfo)
      (versions : List (Text × VersionInfo))
      → All P (candidates semver VersionInfo test (x ∷ versions))
      → All P (candidates semver VersionInfo test versions)
  unfolding candidates
  candidates-tail P test x xs h = elim (Option-cases (semver.parse x.0)) [
    | inl e ↦ rw (e, All) at h
    | inr (v, e) ↦ elim (Bool-cases (test v)) [
      | inl t ↦ (rw (e, t, All) at h).1
      | inr t ↦ rw (e, t, All) at h
    ]
  ]

  candidates-first :
      (P : C → Type 0) (test : semver.Version → Bool) (x : Text × VersionInfo)
      (versions : List (Text × VersionInfo)) (v : semver.Version)
      → semver.parse x.0 ≡ some v
      → test v ≡ true
      → All P (candidates semver VersionInfo test (x ∷ versions))
      → P (record { version = x.0; info = x.1; parsed = v })
  unfolding candidates
  candidates-first P test x xs v e t h = (rw (e, t, All) at h).0

  -- What holds of all candidates holds of each version that passes.
  All-candidates :
      (P : C → Type 0) (test : semver.Version → Bool) (versions : List (Text × VersionInfo))
      (place : ℕ) (c : C)
      → get_elem? versions place ≡ some (c.version, c.info)
      → semver.parse c.version ≡ some c.parsed
      → test c.parsed ≡ true
      → All P (candidates semver VersionInfo test versions)
      → P c
  All-candidates P test [] place c e p t h = cc
  All-candidates P test (x ∷ xs) zero c e p t h =
      let same : x ≡ (c.version, c.info) = cc in
      let first = candidates-first P test x xs c.parsed (ap (λ y. semver.parse y.0) same ∙ p) t h in
      subst
        (λ (y : Text × VersionInfo). P (record { version = y.0; info = y.1; parsed = c.parsed }))
        same first
  All-candidates P test (x ∷ xs) (suc place) c e p t h =
      All-candidates P test xs place c e p t (candidates-tail P test x xs h)

  -- The version is one that passes, and no other that passes is above it.
  pub record IsHighest (test : semver.Version → Bool) (versions : List (Text × VersionInfo))
      (r : ResolvedVersion semver VersionInfo) : Type 0 where
    pub candidate : C
    pub version : candidate.version ≡ r.version
    pub info : candidate.info ≡ r.info
    pub passing : IsPassing test versions candidate
    pub greatest : (c : C) → IsPassing test versions c → semver.le c.parsed candidate.parsed ≡ true

  abbrev IsNone : (semver.Version → Bool) → List (Text × VersionInfo) → Type 0
  IsNone test versions = (c : C) → ¬ IsPassing test versions c

  pub IsAnswer :
      (semver.Version → Bool)
      → List (Text × VersionInfo)
      → Result ResolveError (ResolvedVersion semver VersionInfo)
      → Type 0
  IsAnswer test versions (ok r) = IsHighest test versions r
  IsAnswer test versions (err e) = IsNone test versions × (e ≡ no_version)

  highest-none :
      (test : semver.Version → Bool) (versions : List (Text × VersionInfo))
      → last semver VersionInfo
          (sort_candidates semver VersionInfo (candidates semver VersionInfo test versions))
        ≡ none
      → highest semver VersionInfo test versions ≡ err no_version
  unfolding highest
  highest-none test versions e = rw (e, highest) refl

  highest-some :
      (test : semver.Version → Bool) (versions : List (Text × VersionInfo)) (c : C)
      → last semver VersionInfo
          (sort_candidates semver VersionInfo (candidates semver VersionInfo test versions))
        ≡ some c
      → highest semver VersionInfo test versions
        ≡ ok (record { version = c.version; info = c.info })
  unfolding highest
  highest-some test versions c e = rw (e, highest) refl

  pub highest-IsAnswer :
      (order : IsOrder semver) (test : semver.Version → Bool) (versions : List (Text × VersionInfo))
      → IsAnswer test versions (highest semver VersionInfo test versions)
  unfolding IsAnswer
  highest-IsAnswer order test versions =
      let cs = candidates semver VersionInfo test versions in
      elim (Option-cases (last semver VersionInfo (sort_candidates semver VersionInfo cs))) [
        | inl e ↦
            let none_passes = last_sorted-none semver VersionInfo order (λ c. ⊥) cs e in
            rw (highest-none test versions e) (
              (λ c h.
                  All-candidates (λ d. ⊥) test versions h.place c h.entry h.parses h.passes
                    none_passes),
              refl,
            )
        | inr (c, e) ↦
            let above = last_sorted-greatest semver VersionInfo order cs c e in
            rw (highest-some test versions c e) (record {
              candidate = c;
              version = refl;
              info = refl;
              passing =
                  last_sorted-All semver VersionInfo order (IsPassing test versions) cs c e
                    (candidates-IsPassing test versions);
              greatest = λ d h.
                  All-candidates (λ u. semver.le u.parsed c.parsed ≡ true) test versions h.place d
                    h.entry h.parses h.passes above;
            })
      ]

  resolve_version-range :
      (packument : Packument VersionInfo) (specifier : Text) (range : semver.Range)
      → tagged semver VersionInfo packument (strip_alias specifier) ≡ none
      → lookup (strip_alias specifier) packument.versions ≡ none
      → semver.parse_range (strip_alias specifier) ≡ some range
      → resolve_version semver VersionInfo packument specifier
        ≡ highest semver VersionInfo (semver.satisfies range) packument.versions
  unfolding resolve_version resolve_named resolve_exact resolve_range
  resolve_version-range packument specifier range t e p =
      rw (t, e, p, resolve_version, resolve_named, resolve_exact, resolve_range) refl

  resolve_intersection-ranges :
      (packument : Packument VersionInfo) (specifiers : List Text) (ranges : List semver.Range)
      → parse_ranges semver VersionInfo specifiers ≡ some ranges
      → resolve_intersection semver VersionInfo packument specifiers
        ≡ highest semver VersionInfo
            (λ v. all (λ r. semver.satisfies r v) ranges)
            packument.versions
  unfolding resolve_intersection
  resolve_intersection-ranges packument specifiers ranges p = rw (p, resolve_intersection) refl

  -- Where the order of versions is total and transitive, and the specifier, without the package of an
  -- alias, is a range and neither a tag of a version nor a version: the answer is a version that
  -- satisfies the range and that no satisfying one is above, or an error where none satisfies it.
  pub resolve_version-IsAnswer :
      (order : IsOrder semver) (packument : Packument VersionInfo) (specifier : Text)
      (range : semver.Range)
      → tagged semver VersionInfo packument (strip_alias specifier) ≡ none
      → lookup (strip_alias specifier) packument.versions ≡ none
      → semver.parse_range (strip_alias specifier) ≡ some range
      → IsAnswer
          (semver.satisfies range)
          packument.versions
          (resolve_version semver VersionInfo packument specifier)
  resolve_version-IsAnswer order packument specifier range t e p =
      rw (resolve_version-range packument specifier range t e p)
        (highest-IsAnswer order (semver.satisfies range) packument.versions)

  -- Where the order of versions is total and transitive, and all specifiers are ranges: the answer is a
  -- version that satisfies every range and that no such version is above, or an error where none does.
  pub resolve_intersection-IsAnswer :
      (order : IsOrder semver) (packument : Packument VersionInfo) (specifiers : List Text)
      (ranges : List semver.Range)
      → parse_ranges semver VersionInfo specifiers ≡ some ranges
      → IsAnswer
          (λ v. all (λ r. semver.satisfies r v) ranges)
          packument.versions
          (resolve_intersection semver VersionInfo packument specifiers)
  resolve_intersection-IsAnswer order packument specifiers ranges p =
      rw (resolve_intersection-ranges packument specifiers ranges p)
        (highest-IsAnswer order (λ v. all (λ r. semver.satisfies r v) ranges) packument.versions)
