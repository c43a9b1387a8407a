-- ===== src/Transparency.antt =====
-- The transparency log of crates/oath-transparency/src/lib.rs: a hash chain of install records in a
-- file of JSON lines, and its checkpoint.
pub mod Chain
pub mod Binding
pub mod Checkpoint
pub mod Sample
mod Runs
use oath.Prelude.{
  ℕ, zero, suc, Bool, true, false, not, ◌&&◌, Option, none, some, List, [], ◌∷◌, ◌++◌, map, leb,
  ltb, length, drop, ◌-◌, if◌then◌else◌, Text, text_eq, ◌≡◌, ◌==◌, ◌||◌, all,
}

pub record PackageEntry : Type 0 where
  pub name : Text
  pub version : Text
  pub integrity : Option Text

-- The fields that a hash covers (`HashPayload`).
pub record HashPayload : Type 0 where
  pub ts : ℕ
  pub project : Text
  pub pkg_count : ℕ
  pub packages : List PackageEntry
  pub duration_ms : ℕ

pub record TransparencyEntry : Type 0 where
  pub ts : ℕ
  pub project : Text
  pub pkg_count : ℕ
  pub packages : List PackageEntry
  pub duration_ms : ℕ
  pub previous_hash : Option Text
  pub entry_hash : Option Text

pub record TransparencyCheckpoint : Type 0 where
  pub version : ℕ
  pub entry_count : ℕ
  pub merkle_root : Text
  pub latest_entry_hash : Option Text

-- The payload of `verify_chain`: the entry without its hashes.
pub payload_of : TransparencyEntry → HashPayload
payload_of e = record {
  ts = e.ts;
  project = e.project;
  pkg_count = e.pkg_count;
  packages = e.packages;
  duration_ms = e.duration_ms;
}

-- "GENESIS"
abbrev pub genesis_hash : Text
genesis_hash = b'G' ∷ b'E' ∷ b'N' ∷ b'E' ∷ b'S' ∷ b'I' ∷ b'S' ∷ []

-- No line feed and no carriage return.
abbrev pub no_break : Text → Bool
no_break = all (λ c. not (c == b'\n' || c == b'\r'))

-- serde_json, and `str::trim`, which the source calls: a payload's JSON, an entry's line, the line
-- read back, and whether a line is blank. The laws are the round trips of serde_json, and that its
-- compact form is one line.
pub record Json : Type 0 where
  pub to_vec : HashPayload → Text
  pub from_vec : Text → Option HashPayload
  pub to_string : TransparencyEntry → Text
  pub from_str : Text → Option TransparencyEntry
  pub is_blank : Text → Bool
  pub from_vec-to_vec : (p : HashPayload) → from_vec (to_vec p) ≡ some p
  pub from_str-to_string : (e : TransparencyEntry) → from_str (to_string e) ≡ some e
  pub is_blank-to_string : (e : TransparencyEntry) → is_blank (to_string e) ≡ false
  pub no_break-to_string : (e : TransparencyEntry) → no_break (to_string e) ≡ true

pub data ChainError : Type 0 where
  previous_hash_mismatch entry_hash_mismatch : ChainError

pub data Result {ℓ} (A : Type ℓ) : Type ℓ where
  ok : A → Result A
  err : ChainError → Result A

-- `entry.entry_hash.is_some()`
abbrev pub is_hashed : TransparencyEntry → Bool
is_hashed e = elim e.entry_hash [ none ↦ false | some h ↦ true ]

abbrev pub hashed : List TransparencyEntry → List TransparencyEntry
hashed [] = []
hashed (e ∷ es) = if is_hashed e then e ∷ hashed es else hashed es

-- `iter().rev().find_map(|entry| entry.entry_hash.clone())`: the last hash that is there.
pub last_hash : List TransparencyEntry → Option Text
last_hash [] = none
last_hash (e ∷ es) = elim (last_hash es) [ none ↦ e.entry_hash | some h ↦ some h ]

-- `unwrap_or_else(|| GENESIS_HASH.into())`
pub or_genesis : Option Text → Text
or_genesis none = genesis_hash
or_genesis (some h) = h

-- `option.as_deref() == Some(text)`
is_some_text : Option Text → Text → Bool
is_some_text none t = false
is_some_text (some s) t = text_eq s t

abbrev starts_line_feed : Text → Bool
starts_line_feed [] = false
starts_line_feed (c ∷ cs) = c == b'\n'

abbrev pub push_first : ℕ → List Text → List Text
push_first c [] = (c ∷ []) ∷ []
push_first c (l ∷ ls) = (c ∷ l) ∷ ls

-- `str::lines`: a line ends at a line feed, and a carriage return before it is dropped; the last
-- line may have neither.
pub lines : Text → List Text
lines [] = []
lines (c ∷ cs) =
    let rest = lines cs in
    if c == b'\n'
    then [] ∷ rest
    else if c == b'\r' && starts_line_feed cs
    then rest
    else push_first c rest

-- The log file is its text; a file that is not there is empty.
module _ (sha256 : Text → Text) (json : Json) where
  open json use {to_vec, to_string, from_str, is_blank}

  pub hash_entry : Text → HashPayload → Text
  hash_entry previous payload = sha256 (previous ++ to_vec payload)

  -- `filter_map(|l| from_str(l).ok())` on the lines that are not blank
  pub read_lines : List Text → List TransparencyEntry
  read_lines [] = []
  read_lines (l ∷ ls) = elim (if is_blank l then none else from_str l) [
    | none ↦ read_lines ls
    | some e ↦ e ∷ read_lines ls
  ]

  pub read_all : Text → List TransparencyEntry
  unfolding lines read_lines
  read_all file = read_lines (lines file)

  pub read_recent : ℕ → Text → List TransparencyEntry
  read_recent tail file =
      let entries = read_all file in
      let len = length entries in if leb len tail then entries else drop (len - tail) entries

  -- The entry that `log` writes after the entries `existing`.
  pub new_entry : ℕ → Text → List PackageEntry → ℕ → List TransparencyEntry → TransparencyEntry
  unfolding last_hash or_genesis
  new_entry ts project packages duration_ms existing =
      let previous = or_genesis (last_hash existing) in
      let payload : HashPayload = record {
        ts = ts;
        project = project;
        pkg_count = length packages;
        packages = packages;
        duration_ms = duration_ms;
      } in
      record {
        ts = ts;
        project = project;
        pkg_count = length packages;
        packages = packages;
        duration_ms = duration_ms;
        previous_hash = some previous;
        entry_hash = some (hash_entry previous payload);
      }

  -- `ts` is the clock's reading. `writeln!` appends at the end of the file, be that in a line.
  pub log : ℕ → Text → List PackageEntry → ℕ → Text → Text
  log ts project packages duration_ms file =
      file ++ (to_string (new_entry ts project packages duration_ms (read_all file)) ++ b'\n' ∷ [])

  -- The loop of `verify_chain`; it gives back the last `previous`.
  pub verify_loop : Text → List TransparencyEntry → Result Text
  unfolding is_some_text
  verify_loop previous [] = ok previous
  verify_loop previous (e ∷ es) =
      let expected = hash_entry previous (payload_of e) in
      let rest = verify_loop expected es in
      if not (is_some_text e.previous_hash previous)
      then err previous_hash_mismatch
      else if not (is_some_text e.entry_hash expected)
      then err entry_hash_mismatch
      else rest

  pub verify_chain : Text → Result (Unit {0})
  unfolding verify_loop
  verify_chain file = elim (verify_loop genesis_hash (hashed (read_all file))) [
    | ok h ↦ ok tt
    | err e ↦ err e
  ]
