-- ===== src/Fetch/Tarball/Safety.antt =====
-- What an extraction writes, whether it succeeds or fails, files that were cut short included.
use oath.Prelude.{
  ℕ, ◌⊎◌, inl, inr, ◌+◌, ◌≤◌, ◌≡◌, refl, ◌^◌, Bool, false, arith, ltb, leb, All, Option, none, some,
  List, [], ◌∷◌, length, take, Text, Bool-cases, Option-cases,
}
use oath.Fetch.Tarball.{
  TarballLimits, TarError, Result, ok, err, sanitize_tar_path, EntryType, directory, regular, other,
  TarEntry, rename_gitignore, File, write_file, unsupported_entry, Outcome, done, failed, Progress,
  Step, next, stop, Write, not_created, cut_short, written, put_file, write_regular, extract_at,
  extract_sanitized, extract_entry, read_entry, extract_loop, extract_archive,
}
use oath.Fetch.Tarball.Written.{
  total_bytes, IsTarget, rename_gitignore-IsTarget, write_file-All, length-write_file,
  total_bytes-write_file, length-take,
}
use oath.Fetch.Tarball.Paths.{IsSafe, sanitize_tar_path-IsSafe}

-- The files that an extraction leaves.
abbrev pub files_of : Outcome → List File
files_of (done fs) = fs
files_of (failed e fs) = fs

-- What holds after `entry_count` entries.
pub record IsWithin (limits : TarballLimits) (entry_count : ℕ) (s : Progress) : Type 0 where
  pub targets : All (λ f. IsTarget limits f.path) s.files
  pub counted : length s.files ≤ entry_count
  pub measured : total_bytes s.files ≤ s.unpacked_bytes
  pub bounded : s.unpacked_bytes ≤ limits.max_unpacked_bytes

pub Step-cases :
    (r : Step)
    → ((x : TarError) × (fs : List File) × (r ≡ stop x fs)) ⊎ ((t : Progress) × (r ≡ next t))
Step-cases (stop x fs) = inl (x, fs, refl)
Step-cases (next t) = inr (t, refl)

-- The tar crate gives an entry as many bytes as its header announces.
abbrev pub HasSize : Option TarEntry → Type 0
HasSize none = Unit
HasSize (some e) = length e.content ≡ e.size

-- The files that an extraction may leave.
pub record IsContained (limits : TarballLimits) (fs : List File) : Type 0 where
  pub targets : All (λ f. IsTarget limits f.path) fs
  pub files : length fs ≤ limits.max_entries
  pub bytes : total_bytes fs ≤ limits.max_unpacked_bytes

-- What holds after an entry, be it the last one read or not.
IsLeft : TarballLimits → ℕ → Step → Type 0
IsLeft limits n (next t) = IsWithin limits n t
IsLeft limits n (stop x fs) =
    (b : ℕ) × IsWithin limits n (record { unpacked_bytes = b; files = fs })

module _ (limits : TarballLimits) where
  later : (n : ℕ) (s : Progress) → IsWithin limits n s → IsWithin limits (n + 1) s
  later n s h = record {
    targets = h.targets;
    counted = omega (arith, h);
    measured = h.measured;
    bounded = h.bounded;
  }

  same_files :
      (n : ℕ) (x : TarError) (s : Progress)
      → IsWithin limits n s
      → IsLeft limits (n + 1) (stop x s.files)
  unfolding IsLeft
  same_files n x s h = (s.unpacked_bytes, later n s h)

  write_file-IsWithin :
      (n u : ℕ) (relative : List Text) (content : Text) (x : Bool) (s : Progress)
      → s.unpacked_bytes + length content ≤ u
      → u ≤ limits.max_unpacked_bytes
      → IsTarget limits relative
      → IsWithin limits n s
      → IsWithin limits
          (n + 1)
          (record { unpacked_bytes = u; files = write_file relative content x s.files })
  write_file-IsWithin n u relative content x s z b p h = record {
    targets = write_file-All (IsTarget limits) relative content x s.files p h.targets;
    counted = omega (arith, h, length-write_file relative content x s.files);
    measured = omega (arith, h, z, total_bytes-write_file relative content x s.files);
    bounded = b;
  }

  put_file-IsLeft :
      (n u : ℕ) (e : TarEntry) (relative : List Text) (s : Progress) (w : Write)
      → s.unpacked_bytes + length e.content ≤ u
      → u ≤ limits.max_unpacked_bytes
      → IsTarget limits relative
      → IsWithin limits n s
      → IsLeft limits (n + 1) (put_file e relative u s.files w)
  unfolding IsLeft put_file
  put_file-IsLeft n u e relative s not_created z b p h = (s.unpacked_bytes, later n s h)
  put_file-IsLeft n u e relative s (cut_short k) z b p h = (
    u,
    write_file-IsWithin n u relative (take k e.content) false s
        (omega (arith, z, length-take k e.content)) b p h,
  )
  put_file-IsLeft n u e relative s written z b p h =
      write_file-IsWithin n u relative e.content _ s z b p h

module _ (utf8 : Text → Bool) (writes : List File → List Text → Text → Write)
    (limits : TarballLimits) where
  write_regular-IsLeft :
      (n : ℕ) (e : TarEntry) (relative : List Text) (s : Progress)
      → length e.content ≡ e.size
      → IsTarget limits relative
      → IsWithin limits n s
      → IsLeft limits (n + 1) (write_regular utf8 writes limits e relative s)
  unfolding write_regular
  write_regular-IsLeft n e relative s z p h =
      let u = s.unpacked_bytes + e.size in
      elim (Bool-cases (leb (2 ^ 64) u)) [
        | inl a ↦ rw a (same_files limits n _ s h)
        | inr a ↦ elim (Bool-cases (ltb limits.max_unpacked_bytes u)) [
          | inl b ↦ rw (a, b) (same_files limits n _ s h)
          | inr b ↦
              rw (a, b)
                (put_file-IsLeft limits n u e relative s _ (omega (arith, z)) (ground (arith, b)) p
                  h)
        ]
      ]

  extract_at-IsLeft :
      (n : ℕ) (e : TarEntry) (relative : List Text) (s : Progress)
      → length e.content ≡ e.size
      → IsTarget limits relative
      → IsWithin limits n s
      → IsLeft limits (n + 1) (extract_at utf8 writes limits e relative s)
  unfolding extract_at
  extract_at-IsLeft n e relative s z p h = go e.entry_type
    where
      go :
          (x : EntryType)
          → IsLeft limits (n + 1) (elim x [
            | directory ↦ next s
            | regular ↦ write_regular utf8 writes limits e relative s
            | other ↦ stop unsupported_entry s.files
          ])
      go directory = unfold IsLeft in later limits n s h
      go regular = write_regular-IsLeft n e relative s z p h
      go other = same_files limits n _ s h

  extract_sanitized-IsLeft :
      (n : ℕ) (e : TarEntry) (r : Result (Option (List Text))) (s : Progress)
      → ((relative : List Text) → r ≡ ok (some relative) → IsSafe limits relative)
      → length e.content ≡ e.size
      → IsWithin limits n s
      → IsLeft limits (n + 1) (extract_sanitized utf8 writes limits e r s)
  unfolding extract_sanitized
  extract_sanitized-IsLeft n e (err x) s p z h = same_files limits n x s h
  extract_sanitized-IsLeft n e (ok none) s p z h = unfold IsLeft in later limits n s h
  extract_sanitized-IsLeft n e (ok (some relative)) s p z h =
      extract_at-IsLeft n e (rename_gitignore relative) s z
        (rename_gitignore-IsTarget limits relative (p relative refl)) h

  read_entry-IsLeft :
      (n : ℕ) (e : Option TarEntry) (s : Progress)
      → HasSize e
      → IsWithin limits n s
      → IsLeft limits (n + 1) (read_entry utf8 writes limits e s)
  unfolding read_entry extract_entry extract_sanitized extract_at write_regular put_file
  read_entry-IsLeft n none s z h = same_files limits n _ s h
  read_entry-IsLeft n (some e) s z h = elim (Option-cases e.path) [
    | inl q ↦ rw q (same_files limits n _ s h)
    | inr (path, q) ↦ rw q (
        extract_sanitized-IsLeft n e (sanitize_tar_path utf8 limits path) s
          (λ relative r. (sanitize_tar_path-IsSafe utf8 limits path relative r).0) z h)
  ]

  stopped :
      (n : ℕ) (s : Progress)
      → n ≤ limits.max_entries
      → IsWithin limits n s
      → IsContained limits s.files
  stopped n s m h = record {
    targets = h.targets;
    files = omega (arith, h, m);
    bytes = omega (arith, h);
  }

  extract_loop-IsContained :
      (es : List (Option TarEntry)) (n : ℕ) (s : Progress)
      → All HasSize es
      → n ≤ limits.max_entries
      → IsWithin limits n s
      → IsContained limits (files_of (extract_loop utf8 writes limits es n s))
  unfolding extract_loop IsLeft
  extract_loop-IsContained [] n s z m h = stopped n s m h
  extract_loop-IsContained (e ∷ es) n s (z, zs) m h = elim (Bool-cases (leb (2 ^ 64) (n + 1))) [
    | inl b ↦ rw b (stopped n s m h)
    | inr b ↦ elim (Bool-cases (ltb limits.max_entries (n + 1))) [
      | inl c ↦ rw (b, c) (stopped n s m h)
      | inr c ↦
          let m' : n + 1 ≤ limits.max_entries = ground (arith, c) in
          let left = read_entry-IsLeft n e s z h in
          rw (b, c)
            (elim (Step-cases (read_entry utf8 writes limits e s)) [
              | inl (x, fs, q) ↦
                  let (u, k) = rw q at left in
                  rw q (stopped (n + 1) (record { unpacked_bytes = u; files = fs }) m' k)
              | inr (t, q) ↦
                  let k = rw q at left in rw q (extract_loop-IsContained es (n + 1) t zs m' k)
            ])
    ]
  ]

-- Whatever entries a tarball has, the files that its extraction leaves, be it done or failed, have
-- plain names all the way down, so lie under the destination; none is a `.gitignore`; there are at
-- most `max_entries` of them, and at most `max_unpacked_bytes` bytes in them.
pub extract_archive-IsContained :
    (utf8 : Text → Bool) (writes : List File → List Text → Text → Write) (limits : TarballLimits)
    (entries : List (Option TarEntry))
    → All HasSize entries
    → IsContained limits (files_of (extract_archive utf8 writes limits entries))
unfolding extract_archive
extract_archive-IsContained utf8 writes limits entries z =
    extract_loop-IsContained utf8 writes limits entries 0 _ z (omega arith) (record {
      targets = tt;
      counted = omega arith;
      measured = unfold total_bytes in omega arith;
      bounded = omega arith;
    })
