-- ===== src/Fetch/Tarball/Paths.antt =====
-- Which paths `sanitize_tar_path` accepts.
use oath.Prelude.{
  ℕ, zero, ◌⊎◌, inl, inr, length-drop, suc, ◌≤◌, ◌<◌, ◌≡◌, refl, ◌&&◌, ◌==◌, Bool, true, false, not,
  arith, all, if◌then◌else◌, some, List, [], ◌∷◌, length, drop, Text, codes, text_eq,
}
use oath.Fetch.Tarball.{
  TarballLimits, Component, root_dir, cur_dir, parent_dir, normal, Result, ok, err, TarError,
  push_first, split_path, later_components, components, collect_parts, relative_path,
  sanitize_tar_path,
}

abbrev no_slash : Text → Bool
no_slash = all (λ c. not (c == b'/'))

-- A name of a file in a directory: not empty, without a slash, neither `.` nor `..`.
abbrev pub is_plain : Text → Bool
is_plain p =
    not (text_eq p []) && not (text_eq p (codes ".")) && not (text_eq p (codes "..")) && no_slash p

abbrev plain_component : Component → Bool
plain_component (normal p) = is_plain p
plain_component _ = true

push_first-no_slash :
    (c : ℕ) (ps : List Text)
    → (c == b'/') ≡ false
    → all no_slash ps ≡ true
    → all no_slash (push_first c ps) ≡ true
push_first-no_slash c [] h k = ground (arith, h)
push_first-no_slash c (p ∷ ps) h k = ground (arith, h, k)

split_path-no_slash : (path : Text) → all no_slash (split_path path) ≡ true
unfolding split_path
split_path-no_slash [] = refl
split_path-no_slash (c ∷ cs) =
    ground (arith, split_path-no_slash cs, push_first-no_slash c (split_path cs))

later_components-plain :
    (ps : List Text) → all no_slash ps ≡ true → all plain_component (later_components ps) ≡ true
unfolding later_components
later_components-plain [] h = refl
later_components-plain (p ∷ ps) h = ground (arith, h, later_components-plain ps)

components-plain : (path : Text) → all plain_component (components path) ≡ true
unfolding components
components-plain path = go (split_path path) (split_path-no_slash path)
  where
    go :
        (pieces : List Text)
        → all no_slash pieces ≡ true
        → all plain_component (elim pieces [
          | [] ↦ []
          | p ∷ ps ↦
              if text_eq p [] && not (text_eq path [])
              then root_dir ∷ later_components ps
              else if text_eq p (codes ".")
              then cur_dir ∷ later_components ps
              else later_components (p ∷ ps)
        ])
          ≡ true
    go [] h = refl
    go (p ∷ ps) h = ground (arith, h, later_components-plain ps, later_components-plain (p ∷ ps))

pub Result-cases :
    {A : Type 0} (r : Result A) → ((a : A) × (r ≡ ok a)) ⊎ ((x : TarError) × (r ≡ err x))
Result-cases (ok a) = inl (a, refl)
Result-cases (err x) = inr (x, refl)

collect_parts-plain :
    (cs : List Component) (parts : List Text)
    → all plain_component cs ≡ true
    → collect_parts cs ≡ ok parts
    → all is_plain parts ≡ true
unfolding collect_parts
collect_parts-plain [] parts h e = ground (arith, e)
collect_parts-plain (normal p ∷ cs) parts h e = elim (Result-cases (collect_parts cs)) [
  | inl (rest, k) ↦ ground (arith, h, e, k, collect_parts-plain cs rest (ground (arith, h)) k)
  | inr (x, k) ↦ ground (arith, e, k)
]
collect_parts-plain (cur_dir ∷ cs) parts h e = collect_parts-plain cs parts h e
collect_parts-plain (parent_dir ∷ cs) parts h e = ground (arith, e)
collect_parts-plain (root_dir ∷ cs) parts h e = ground (arith, e)

all-drop : (p : Text → Bool) (n : ℕ) (xs : List Text) → all p xs ≡ true → all p (drop n xs) ≡ true
all-drop p zero xs h = h
all-drop p (suc n) [] h = refl
all-drop p (suc n) (x ∷ xs) h = all-drop p n xs (ground (arith, h))

-- A path that is accepted: every component is a plain name, and there are some, but not too many.
pub record IsSafe (limits : TarballLimits) (relative : List Text) : Type 0 where
  pub plain : all is_plain relative ≡ true
  pub some_part : 0 < length relative
  pub few_parts : length relative ≤ limits.max_path_components

relative_path-IsSafe :
    (limits : TarballLimits) (parts relative : List Text)
    → all is_plain parts ≡ true
    → relative_path limits parts ≡ ok (some relative)
    → IsSafe limits relative
unfolding relative_path
relative_path-IsSafe limits parts relative h e =
    let l = length-drop 1 parts in
    let d = all-drop is_plain 1 parts h in
    record {
      plain = ground (arith, e, d);
      some_part = ground (arith, e);
      few_parts = ground (arith, e);
    }

-- Whatever bytes a tarball has for a path, the path that comes out is safe: it cannot leave the
-- destination, and it is within the limits.
pub sanitize_tar_path-IsSafe :
    (utf8 : Text → Bool) (limits : TarballLimits) (path : Text) (relative : List Text)
    → sanitize_tar_path utf8 limits path ≡ ok (some relative)
    → IsSafe limits relative × (length path ≤ limits.max_path_bytes)
unfolding sanitize_tar_path
sanitize_tar_path-IsSafe utf8 limits path relative e =
    elim (Result-cases (collect_parts (components path))) [
      | inl (parts, k) ↦
          let p = collect_parts-plain (components path) parts (components-plain path) k in
          (relative_path-IsSafe limits parts relative p (ground (arith, e, k)), ground (arith, e))
      | inr (x, k) ↦ ground (arith, e, k)
    ]
