-- ===== src/Fetch/Resolve/Sorted.antt =====
-- The last of the sorted candidates is the highest.
use oath.Prelude.{
  All, ◌≡◌, refl, sym, ap, ◌∙◌, inl, inr, true, false, none, some, List, [], ◌∷◌, Bool-cases,
}
use oath.Prelude.Tables.{All-map}
use oath.Fetch.Resolve.{RangeSemver, Candidate, insert, sort_candidates, last}

-- The order of versions is total and transitive.
pub record IsOrder (semver : RangeSemver) : Type 0 where
  pub total : (v w : semver.Version) → semver.le v w ≡ false → semver.le w v ≡ true
  pub trans :
      (u v w : semver.Version) → semver.le u v ≡ true → semver.le v w ≡ true → semver.le u w ≡ true

module _ (semver : RangeSemver) (VersionInfo : Type 0) (order : IsOrder semver) where
  abbrev C : Type 0
  C = Candidate semver VersionInfo

  abbrev IsBelow : C → C → Type 0
  IsBelow x y = semver.le x.parsed y.parsed ≡ true

  abbrev IsSorted : List C → Type 0
  IsSorted [] = Unit
  IsSorted (x ∷ xs) = All (IsBelow x) xs × IsSorted xs

  pub All-insert :
      (P : C → Type 0) (x : C) (xs : List C)
      → P x
      → All P xs
      → All P (insert semver VersionInfo x xs)
  unfolding insert
  All-insert P x [] p h = (p, tt)
  All-insert P x (y ∷ ys) p (q, h) = elim (Bool-cases (semver.le x.parsed y.parsed)) [
    | inl e ↦ rw (e, All) (p, (q, h))
    | inr e ↦ rw (e, All) (q, All-insert P x ys p h)
  ]

  insert-IsSorted : (x : C) (xs : List C) → IsSorted xs → IsSorted (insert semver VersionInfo x xs)
  unfolding insert
  insert-IsSorted x [] s = (tt, tt)
  insert-IsSorted x (y ∷ ys) (b, s) = elim (Bool-cases (semver.le x.parsed y.parsed)) [
    | inl e ↦
        let above =
          All-map (IsBelow y) (IsBelow x) ys (λ z k. order.trans x.parsed y.parsed z.parsed e k)
            b in
        rw (e, IsSorted) ((e, above), (b, s))
    | inr e ↦
        rw (e, IsSorted)
          (All-insert (IsBelow y) x ys (order.total x.parsed y.parsed e) b, insert-IsSorted x ys s)
  ]

  pub All-sort :
      (P : C → Type 0) (xs : List C) → All P xs → All P (sort_candidates semver VersionInfo xs)
  unfolding sort_candidates
  All-sort P [] h = tt
  All-sort P (x ∷ xs) (p, h) =
      All-insert P x (sort_candidates semver VersionInfo xs) p (All-sort P xs h)

  pub sort-IsSorted : (xs : List C) → IsSorted (sort_candidates semver VersionInfo xs)
  unfolding sort_candidates
  sort-IsSorted [] = tt
  sort-IsSorted (x ∷ xs) =
      insert-IsSorted x (sort_candidates semver VersionInfo xs) (sort-IsSorted xs)

  last-All :
      (P : C → Type 0) (xs : List C) (c : C) → last semver VersionInfo xs ≡ some c → All P xs → P c
  unfolding last
  last-All P [] c e h = cc
  last-All P (x ∷ []) c e (p, h) = let same : x ≡ c = cc in rw same at p
  last-All P (x ∷ y ∷ ys) c e (p, h) = last-All P (y ∷ ys) c e h

  pub last_sorted-All :
      (P : C → Type 0) (xs : List C) (c : C)
      → last semver VersionInfo (sort_candidates semver VersionInfo xs) ≡ some c
      → All P xs
      → P c
  last_sorted-All P xs c e h =
      last-All P (sort_candidates semver VersionInfo xs) c e (All-sort P xs h)

  le_refl : (v : semver.Version) → semver.le v v ≡ true
  le_refl v = elim (Bool-cases (semver.le v v)) [ inl e ↦ e | inr e ↦ order.total v v e ]

  last-greatest :
      (xs : List C) (c : C)
      → IsSorted xs
      → last semver VersionInfo xs ≡ some c
      → All (λ y. IsBelow y c) xs
  unfolding last
  last-greatest [] c s e = tt
  last-greatest (x ∷ []) c s e =
      let same : x ≡ c = cc in
      (ap (λ z. semver.le x.parsed z.parsed) (sym same) ∙ le_refl x.parsed, tt)
  last-greatest (x ∷ y ∷ ys) c (b, s) e =
      (last-All (IsBelow x) (y ∷ ys) c e b, last-greatest (y ∷ ys) c s e)

  -- A predicate of all sorted candidates is one of all candidates.
  All-insert_back :
      (P : C → Type 0) (x : C) (xs : List C)
      → All P (insert semver VersionInfo x xs)
      → P x × All P xs
  unfolding insert
  All-insert_back P x [] h = h
  All-insert_back P x (y ∷ ys) h = elim (Bool-cases (semver.le x.parsed y.parsed)) [
    | inl e ↦ rw (e, All) at h
    | inr e ↦ let (q, k) = rw (e, All) at h in let (p, l) = All-insert_back P x ys k in (p, (q, l))
  ]

  All-sort_back :
      (P : C → Type 0) (xs : List C) → All P (sort_candidates semver VersionInfo xs) → All P xs
  unfolding sort_candidates
  All-sort_back P [] h = tt
  All-sort_back P (x ∷ xs) h =
      let (p, k) = All-insert_back P x (sort_candidates semver VersionInfo xs) h in
      (p, All-sort_back P xs k)

  pub last_sorted-greatest :
      (xs : List C) (c : C)
      → last semver VersionInfo (sort_candidates semver VersionInfo xs) ≡ some c
      → All (λ y. IsBelow y c) xs
  last_sorted-greatest xs c e =
      All-sort_back (λ y. IsBelow y c) xs
        (last-greatest (sort_candidates semver VersionInfo xs) c (sort-IsSorted xs) e)

  last-none : (xs : List C) → last semver VersionInfo xs ≡ none → xs ≡ []
  unfolding last
  last-none [] e = refl
  last-none (x ∷ []) e = cc
  last-none (x ∷ y ∷ ys) e = let f = last-none (y ∷ ys) e in cc

  pub last_sorted-none :
      (P : C → Type 0) (xs : List C)
      → last semver VersionInfo (sort_candidates semver VersionInfo xs) ≡ none
      → All P xs
  last_sorted-none P xs e =
      All-sort_back P xs (rw (last-none (sort_candidates semver VersionInfo xs) e) tt)
