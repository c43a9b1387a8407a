-- ===== src/Fetch/Tarball/Written.antt =====
-- The paths that an extraction writes to, and what `write_file` does to the list of files.
use oath.Prelude.{
  ℕ, inl, inr, ◌+◌, ◌≤◌, ◌≡◌, refl, Bool, true, false, arith, all, All, if◌then◌else◌, List, [],
  ◌∷◌, length, take, zero, suc, Text, codes, text_eq, Bool-cases,
}
use oath.Fetch.Tarball.{TarballLimits, rename_gitignore, File, path_eq, write_file}
use oath.Fetch.Tarball.Paths.{is_plain, IsSafe}

-- Whether the last component is `.gitignore`.
pub ends_in_gitignore : List Text → Bool
ends_in_gitignore [] = false
ends_in_gitignore (p ∷ []) = text_eq p (codes ".gitignore")
ends_in_gitignore (p ∷ q ∷ ps) = ends_in_gitignore (q ∷ ps)

-- The bytes of all files.
unfoldable pub total_bytes : List File → ℕ
total_bytes [] = 0
total_bytes (f ∷ fs) = length f.content + total_bytes fs

-- A path that may be written: safe, and no `.gitignore`.
pub record IsTarget (limits : TarballLimits) (path : List Text) : Type 0 where
  pub safe : IsSafe limits path
  pub no_gitignore : ends_in_gitignore path ≡ false

rename_gitignore-plain :
    (ps : List Text) → all is_plain ps ≡ true → all is_plain (rename_gitignore ps) ≡ true
unfolding rename_gitignore text_eq
rename_gitignore-plain [] h = refl
rename_gitignore-plain (p ∷ []) h = ground (arith, h)
rename_gitignore-plain (p ∷ q ∷ ps) h = ground (arith, h, rename_gitignore-plain (q ∷ ps))

length-rename_gitignore : (ps : List Text) → length (rename_gitignore ps) ≡ length ps
unfolding rename_gitignore
length-rename_gitignore [] = refl
length-rename_gitignore (p ∷ []) = refl
length-rename_gitignore (p ∷ q ∷ ps) = omega (arith, length-rename_gitignore (q ∷ ps))

gone :
    (p : Text)
    → text_eq
        (if text_eq p (codes ".gitignore") then codes ".npmignore" else p)
        (codes ".gitignore")
      ≡ false
gone p = elim (Bool-cases (text_eq p (codes ".gitignore"))) [
  | inl e ↦ rw e (unfold text_eq in refl)
  | inr e ↦ rw (e, e) refl
]

rename_gitignore-ends : (ps : List Text) → ends_in_gitignore (rename_gitignore ps) ≡ false
unfolding rename_gitignore ends_in_gitignore text_eq
rename_gitignore-ends [] = refl
rename_gitignore-ends (p ∷ []) = gone p
rename_gitignore-ends (p ∷ q ∷ []) = gone q
rename_gitignore-ends (p ∷ q ∷ r ∷ ps) = rename_gitignore-ends (q ∷ r ∷ ps)

pub rename_gitignore-IsTarget :
    (limits : TarballLimits) (ps : List Text)
    → IsSafe limits ps
    → IsTarget limits (rename_gitignore ps)
rename_gitignore-IsTarget limits ps h =
    let l = length-rename_gitignore ps in
    record {
      safe = record {
        plain = rename_gitignore-plain ps h.plain;
        some_part = omega (arith, l, h);
        few_parts = omega (arith, l, h);
      };
      no_gitignore = rename_gitignore-ends ps;
    }

pub write_file-All {κ} :
    (P : List Text → Type κ) (path : List Text) (content : Text) (x : Bool) (fs : List File)
    → P path
    → All (λ f. P f.path) fs
    → All (λ f. P f.path) (write_file path content x fs)
unfolding write_file
write_file-All P path content x [] p h = (p, h)
write_file-All P path content x (f ∷ fs) p (q, h) = elim (Bool-cases (path_eq f.path path)) [
  | inl e ↦ rw e (q, h)
  | inr e ↦ rw e (q, write_file-All P path content x fs p h)
]

pub length-write_file :
    (path : List Text) (content : Text) (x : Bool) (fs : List File)
    → length (write_file path content x fs) ≤ length fs + 1
unfolding write_file
length-write_file path content x [] = omega arith
length-write_file path content x (f ∷ fs) = ground (arith, length-write_file path content x fs)

pub total_bytes-write_file :
    (path : List Text) (content : Text) (x : Bool) (fs : List File)
    → total_bytes (write_file path content x fs) ≤ total_bytes fs + length content
unfolding write_file total_bytes
total_bytes-write_file path content x [] = omega arith
total_bytes-write_file path content x (f ∷ fs) =
    ground (arith, total_bytes-write_file path content x fs)

pub length-take : (n : ℕ) (t : Text) → length (take n t) ≤ length t
length-take zero t = omega arith
length-take (suc n) [] = omega arith
length-take (suc n) (c ∷ t) = omega (arith, length-take n t)
