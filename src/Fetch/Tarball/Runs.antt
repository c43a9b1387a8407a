-- ===== src/Fetch/Tarball/Runs.antt =====
-- Runs of the extraction, where every path is UTF-8 and every write succeeds.
use oath.Prelude.{
  inl, ◌≤◌, ◌≡◌, refl, Bool, true, false, Option, some, List, [], ◌∷◌, length, Text, codes, text_eq,
}
use oath.Fetch.Tarball.{
  default_limits, Write, cut_short, written, put_file, failed, write_failed, File, TarEntry,
  regular, ok, done, sanitize_tar_path, extract_archive, extract_loop, read_entry, extract_entry,
  extract_sanitized, collect_parts, components, split_path, later_components, relative_path,
  extract_at, write_regular, write_file, path_eq, rename_gitignore,
}
use oath.Fetch.Tarball.Paths.{IsSafe, sanitize_tar_path-IsSafe}
use oath.Fetch.Tarball.Safety.{files_of, IsContained, extract_archive-IsContained}
use oath.Fetch.Tarball.Refusals.{is_done, extract_archive-refuses}

abbrev utf8 : Text → Bool
utf8 t = true

abbrev writes : List File → List Text → Text → Write
writes fs path content = written

abbrev entry : Text → Text → Option TarEntry
entry path content = some (record {
  path = some path;
  entry_type = regular;
  size = length content;
  mode = some 0o755;
  content = content;
})

abbrev tarball : List (Option TarEntry)
tarball =
    entry (codes "package/./index.js") (codes "hi")
    ∷ entry (codes "package/sub/.gitignore") (codes "x")
    ∷ []

abbrev evil : List (Option TarEntry)
evil = entry (codes "package/a") [] ∷ entry (codes "package/../escape.txt") (codes "owned") ∷ []

clean_path :
    sanitize_tar_path utf8 default_limits (codes "package/./index.js")
    ≡ ok (some (codes "index.js" ∷ []))
unfolding sanitize_tar_path collect_parts components split_path text_eq later_components
    relative_path
clean_path = refl

sanitize_tar_path-IsSafe_example :
    IsSafe default_limits (codes "index.js" ∷ []) × (length (codes "package/./index.js") ≤ 4096)
sanitize_tar_path-IsSafe_example =
    sanitize_tar_path-IsSafe utf8 default_limits (codes "package/./index.js")
      (codes "index.js" ∷ []) clean_path

extract_archive-IsContained_example :
    IsContained default_limits (files_of (extract_archive utf8 writes default_limits tarball))
extract_archive-IsContained_example =
    extract_archive-IsContained utf8 writes default_limits tarball (refl, (refl, tt))

extract_archive-refuses_example : is_done (extract_archive utf8 writes default_limits evil) ≡ false
unfolding components split_path text_eq later_components
extract_archive-refuses_example = extract_archive-refuses utf8 writes default_limits evil (inl refl)

-- The `.gitignore` is renamed, and the directories are those of the paths.
tarball_extracts :
    extract_archive utf8 writes default_limits tarball
    ≡ done (
        record { path = codes "index.js" ∷ []; content = codes "hi"; executable = true }
        ∷ record {
          path = codes "sub" ∷ codes ".npmignore" ∷ [];
          content = codes "x";
          executable = true;
        }
        ∷ [])
unfolding extract_archive extract_loop read_entry extract_entry extract_sanitized sanitize_tar_path
    collect_parts components split_path text_eq later_components relative_path extract_at
    write_regular put_file write_file path_eq rename_gitignore
tarball_extracts = refl

-- The second file is cut short: what was written of it stays.
abbrev short_writes : List File → List Text → Text → Write
short_writes [] path content = written
short_writes (f ∷ fs) path content = cut_short 0

tarball_is_cut_short :
    extract_archive utf8 short_writes default_limits tarball
    ≡ failed write_failed (
        record { path = codes "index.js" ∷ []; content = codes "hi"; executable = true }
        ∷ record { path = codes "sub" ∷ codes ".npmignore" ∷ []; content = []; executable = false }
        ∷ [])
unfolding extract_archive extract_loop read_entry extract_entry extract_sanitized sanitize_tar_path
    collect_parts components split_path text_eq later_components relative_path extract_at
    write_regular put_file write_file path_eq rename_gitignore
tarball_is_cut_short = refl
