-- ===== src/Fetch/Tarball.antt =====
-- The extraction of crates/oath-fetch/src/tarball.rs, on Unix. The gzip and tar crates give the
-- entries; `utf8` tells which bytes are UTF-8, and `writes` how the writing of a file ends, given the
-- files that are there, its path and its bytes.
mod Paths
mod Written
mod Safety
mod Refusals
mod Runs
use oath.Prelude.{
  ℕ, zero, suc, ◌+◌, ◌*◌, ◌/◌, ◌%◌, ◌^◌, ◌&&◌, ◌||◌, ◌==◌, Bool, true, false, not, ltb, leb,
  if◌then◌else◌, Option, none, some, List, [], ◌∷◌, ◌++◌, length, take, drop, Text, codes, text_eq,
}

pub record TarballLimits : Type 0 where
  pub max_archive_bytes : ℕ
  pub max_unpacked_bytes : ℕ
  pub max_entries : ℕ
  pub max_path_bytes : ℕ
  pub max_path_components : ℕ

abbrev pub default_limits : TarballLimits
default_limits = record {
  max_archive_bytes = 512 * 1024 * 1024;
  max_unpacked_bytes = 2 * 1024 * 1024 * 1024;
  max_entries = 200_000;
  max_path_bytes = 4096;
  max_path_components = 64;
}

pub data TarError : Type 0 where
  archive_too_large corrupt_entry invalid_path not_utf8 path_too_long empty_component unsafe_path
        too_many_components count_overflow too_many_entries size_overflow unpacked_too_large
        unsupported_entry write_failed :
      TarError

pub data Result (A : Type 0) : Type 0 where
  ok : A → Result A
  err : TarError → Result A

-- `std::path::Component`; a prefix stands on Windows alone.
pub data Component : Type 0 where
  root_dir cur_dir parent_dir : Component
  normal : Text → Component

-- A path split at its slashes.
abbrev push_first : ℕ → List Text → List Text
push_first c [] = (c ∷ []) ∷ []
push_first c (p ∷ ps) = (c ∷ p) ∷ ps

pub split_path : Text → List Text
split_path [] = [] ∷ []
split_path (c ∷ cs) = let rest = split_path cs in if c == b'/' then [] ∷ rest else push_first c rest

-- The components of the pieces after the first: an empty one and `.` are skipped.
pub later_components : List Text → List Component
unfolding text_eq
later_components [] = []
later_components (p ∷ ps) =
    let rest = later_components ps in
    if text_eq p [] || text_eq p (codes ".")
    then rest
    else if text_eq p (codes "..")
    then parent_dir ∷ rest
    else normal p ∷ rest

-- `Path::components`: a slash in front is the root, a `.` in front is kept.
pub components : Text → List Component
components path = elim (split_path path) [
  | [] ↦ []
  | p ∷ ps ↦
      if text_eq p [] && not (text_eq path [])
      then root_dir ∷ later_components ps
      else if text_eq p (codes ".")
      then cur_dir ∷ later_components ps
      else later_components (p ∷ ps)
]

-- The loop over the components.
pub collect_parts : List Component → Result (List Text)
collect_parts [] = ok []
collect_parts (normal part ∷ cs) =
    let rest = collect_parts cs in
    if text_eq part []
    then err empty_component
    else elim rest [ ok parts ↦ ok (part ∷ parts) | err e ↦ err e ]
collect_parts (cur_dir ∷ cs) = collect_parts cs
collect_parts (parent_dir ∷ cs) = err unsafe_path
collect_parts (root_dir ∷ cs) = err unsafe_path

-- The first component, which npm calls `package`, is left out.
pub relative_path : TarballLimits → List Text → Result (Option (List Text))
relative_path limits parts =
    let relative_parts = drop 1 parts in
    if length relative_parts == 0
    then ok none
    else if ltb limits.max_path_components (length relative_parts)
    then err too_many_components
    else ok (some relative_parts)

pub sanitize_tar_path : (Text → Bool) → TarballLimits → Text → Result (Option (List Text))
sanitize_tar_path utf8 limits path =
    if not (utf8 path)
    then err not_utf8
    else if ltb limits.max_path_bytes (length path)
    then err path_too_long
    else elim (collect_parts (components path)) [
      | ok parts ↦ relative_path limits parts
      | err e ↦ err e
    ]

pub data EntryType : Type 0 where
  directory regular other : EntryType

-- An entry: `path` is nothing where `entry.path()` fails, `mode` where the header's is unreadable.
pub record TarEntry : Type 0 where
  pub path : Option Text
  pub entry_type : EntryType
  pub size : ℕ
  pub mode : Option ℕ
  pub content : Text

-- `.gitignore` in the last place becomes `.npmignore`.
pub rename_gitignore : List Text → List Text
rename_gitignore [] = []
rename_gitignore (p ∷ []) = (if text_eq p (codes ".gitignore") then codes ".npmignore" else p) ∷ []
rename_gitignore (p ∷ q ∷ ps) = p ∷ rename_gitignore (q ∷ ps)

-- A file under the destination, by its path from there.
pub record File : Type 0 where
  pub path : List Text
  pub content : Text
  pub executable : Bool

-- Two lists of components, compared.
pub path_eq : List Text → List Text → Bool
path_eq [] [] = true
path_eq [] (y ∷ ys) = false
path_eq (x ∷ xs) [] = false
path_eq (x ∷ xs) (y ∷ ys) = text_eq x y && path_eq xs ys

-- `mode & 0o111 != 0`
abbrev pub has_executable_bit : ℕ → Bool
has_executable_bit mode = mode % 2 == 1 || mode / 8 % 2 == 1 || mode / 64 % 2 == 1

-- `File::create`, the copy and the permissions: an existing file gets the new content and keeps an
-- executable bit.
pub write_file : List Text → Text → Bool → List File → List File
write_file path content executable [] =
    record { path = path; content = content; executable = executable } ∷ []
write_file path content executable (f ∷ fs) =
    let rest = write_file path content executable fs in
    if path_eq f.path path
    then record f { content = content; executable = f.executable || executable } ∷ fs
    else f ∷ rest

-- What the extraction leaves: the files under the destination, and the error if there was one.
pub data Outcome : Type 0 where
  done : List File → Outcome
  failed : TarError → List File → Outcome

pub record Progress : Type 0 where
  pub unpacked_bytes : ℕ
  pub files : List File

-- How the writing of one file ends: before `File::create` is through; after it and so many bytes,
-- where the copy, the flush or the permissions fail; or well.
pub data Write : Type 0 where
  not_created : Write
  cut_short : ℕ → Write
  written : Write

-- What an entry leads to: the next one, or the error with the files that are left.
pub data Step : Type 0 where
  next : Progress → Step
  stop : TarError → List File → Step

-- The file is created or cut to nothing before its bytes are copied, so an error in the middle leaves
-- what was copied until then.
pub put_file : TarEntry → List Text → ℕ → List File → Write → Step
put_file e relative unpacked files not_created = stop write_failed files
put_file e relative unpacked files (cut_short n) =
    stop write_failed (write_file relative (take n e.content) false files)
put_file e relative unpacked files written = next (record {
  unpacked_bytes = unpacked;
  files =
      write_file relative e.content (has_executable_bit (elim e.mode [ none ↦ 0o644 | some m ↦ m ]))
        files;
})

module _ (utf8 : Text → Bool) (writes : List File → List Text → Text → Write)
    (limits : TarballLimits) where
  -- The arm of the match on the entry's type for a regular file.
  pub write_regular : TarEntry → List Text → Progress → Step
  write_regular e relative s =
      let unpacked = s.unpacked_bytes + e.size in
      if leb (2 ^ 64) unpacked
      then stop size_overflow s.files
      else if ltb limits.max_unpacked_bytes unpacked
      then stop unpacked_too_large s.files
      else put_file e relative unpacked s.files (writes s.files relative e.content)

  pub extract_at : TarEntry → List Text → Progress → Step
  extract_at e relative s = elim e.entry_type [
    | directory ↦ next s
    | regular ↦ write_regular e relative s
    | other ↦ stop unsupported_entry s.files
  ]

  -- One entry once its path is sanitized.
  pub extract_sanitized : TarEntry → Result (Option (List Text)) → Progress → Step
  extract_sanitized e (err x) s = stop x s.files
  extract_sanitized e (ok none) s = next s
  extract_sanitized e (ok (some relative)) s = extract_at e (rename_gitignore relative) s

  -- One entry of the loop, after its count.
  pub extract_entry : TarEntry → Progress → Step
  extract_entry e s = elim e.path [
    | none ↦ stop invalid_path s.files
    | some path ↦ extract_sanitized e (sanitize_tar_path utf8 limits path) s
  ]

  -- An entry is nothing where it is corrupt.
  pub read_entry : Option TarEntry → Progress → Step
  read_entry none s = stop corrupt_entry s.files
  read_entry (some e) s = extract_entry e s

  pub extract_loop : List (Option TarEntry) → ℕ → Progress → Outcome
  extract_loop [] entry_count s = done s.files
  extract_loop (e ∷ es) entry_count s =
      if leb (2 ^ 64) (entry_count + 1)
      then failed count_overflow s.files
      else if ltb limits.max_entries (entry_count + 1)
      then failed too_many_entries s.files
      else elim (read_entry e s) [
        | stop x files ↦ failed x files
        | next t ↦ extract_loop es (entry_count + 1) t
      ]

  pub extract_archive : List (Option TarEntry) → Outcome
  extract_archive entries = extract_loop entries 0 (record { unpacked_bytes = 0; files = [] })

  -- `entries` is what the gzip and tar crates read from the bytes.
  unfoldable pub extract_tarball_limited : (Text → List (Option TarEntry)) → Text → Outcome
  extract_tarball_limited entries bytes =
      if ltb limits.max_archive_bytes (length bytes)
      then failed archive_too_large []
      else extract_archive (entries bytes)
