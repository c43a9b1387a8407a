-- ===== src/Fetch/Tarball/Refusals.antt =====
-- Archives whose extraction fails.
use oath.Prelude.{
  ℕ, ◌⊎◌, inl, inr, ◌+◌, ◌≤◌, ◌<◌, ◌≡◌, refl, Bool, true, false, arith, any, Option, none, some,
  List, [], ◌∷◌, length, Text, Option-cases,
}
use oath.Fetch.Tarball.Safety.{Step-cases}
use oath.Fetch.Tarball.{
  TarballLimits, Component, root_dir, cur_dir, parent_dir, normal, Result, ok, err, components,
  collect_parts, sanitize_tar_path, TarEntry, File, Outcome, done, failed, Progress, Write, Step,
  next, stop, extract_sanitized, extract_entry, read_entry, extract_loop, extract_archive,
}

abbrev is_ok : {A : Type 0} → Result A → Bool
is_ok (ok a) = true
is_ok (err e) = false

abbrev is_next : Step → Bool
is_next (next s) = true
is_next (stop e fs) = false

abbrev pub is_done : Outcome → Bool
is_done (done fs) = true
is_done (failed e fs) = false

-- A component that leads out of the directory it is joined to.
abbrev pub escapes : Component → Bool
escapes root_dir = true
escapes parent_dir = true
escapes _ = false

-- An entry that is corrupt, without a readable path, or with a path that has such a component.
abbrev pub is_unsafe_entry : Option TarEntry → Bool
is_unsafe_entry none = true
is_unsafe_entry (some e) = elim e.path [ none ↦ true | some path ↦ any escapes (components path) ]

collect_parts-escapes :
    (cs : List Component) → any escapes cs ≡ true → is_ok (collect_parts cs) ≡ false
unfolding collect_parts
collect_parts-escapes [] h = absurd (ground (arith, h))
collect_parts-escapes (normal p ∷ cs) h = ground (arith, h, collect_parts-escapes cs h)
collect_parts-escapes (cur_dir ∷ cs) h = collect_parts-escapes cs h
collect_parts-escapes (parent_dir ∷ cs) h = refl
collect_parts-escapes (root_dir ∷ cs) h = refl

sanitize_tar_path-escapes :
    (utf8 : Text → Bool) (limits : TarballLimits) (path : Text)
    → any escapes (components path) ≡ true
    → is_ok (sanitize_tar_path utf8 limits path) ≡ false
unfolding sanitize_tar_path
sanitize_tar_path-escapes utf8 limits path h =
    ground (arith, collect_parts-escapes (components path) h)

module _ (utf8 : Text → Bool) (writes : List File → List Text → Text → Write)
    (limits : TarballLimits) where
  read_entry-unsafe :
      (e : Option TarEntry) (s : Progress)
      → is_unsafe_entry e ≡ true
      → is_next (read_entry utf8 writes limits e s) ≡ false
  unfolding read_entry extract_entry extract_sanitized
  read_entry-unsafe none s h = refl
  read_entry-unsafe (some e) s h = elim (Option-cases e.path) [
    | inl q ↦ rw q refl
    | inr (path, q) ↦ ground (arith, h, q, sanitize_tar_path-escapes utf8 limits path)
  ]

  extract_loop-unsafe :
      (es : List (Option TarEntry)) (n : ℕ) (s : Progress)
      → any is_unsafe_entry es ≡ true
      → is_done (extract_loop utf8 writes limits es n s) ≡ false
  unfolding extract_loop
  extract_loop-unsafe [] n s h = absurd (ground (arith, h))
  extract_loop-unsafe (e ∷ es) n s h = elim (Step-cases (read_entry utf8 writes limits e s)) [
    | inl (x, fs, q) ↦ ground (arith, q)
    | inr (t, q) ↦ ground (arith, q, h, read_entry-unsafe e s, extract_loop-unsafe es (n + 1) t)
  ]

  extract_loop-many :
      (es : List (Option TarEntry)) (n : ℕ) (s : Progress)
      → n ≤ limits.max_entries
      → limits.max_entries < n + length es
      → is_done (extract_loop utf8 writes limits es n s) ≡ false
  unfolding extract_loop
  extract_loop-many [] n s m h = absurd (omega (arith, h, m))
  extract_loop-many (e ∷ es) n s m h = elim (Step-cases (read_entry utf8 writes limits e s)) [
    | inl (x, fs, q) ↦ ground (arith, q)
    | inr (t, q) ↦ ground (arith, q, h, m, extract_loop-many es (n + 1) t)
  ]

-- An archive with a corrupt entry, an entry whose path has `..` or starts at the root, or more than
-- `max_entries` entries is never extracted with success, wherever the entry stands.
pub extract_archive-refuses :
    (utf8 : Text → Bool) (writes : List File → List Text → Text → Write) (limits : TarballLimits)
    (entries : List (Option TarEntry))
    → (any is_unsafe_entry entries ≡ true) ⊎ (limits.max_entries < length entries)
    → is_done (extract_archive utf8 writes limits entries) ≡ false
unfolding extract_archive
extract_archive-refuses utf8 writes limits entries (inl h) =
    extract_loop-unsafe utf8 writes limits entries 0 _ h
extract_archive-refuses utf8 writes limits entries (inr h) =
    extract_loop-many utf8 writes limits entries 0 _ (omega arith) (omega (arith, h))
