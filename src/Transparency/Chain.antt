-- ===== src/Transparency/Chain.antt =====
-- `log` keeps the chain: what it appends is read back, and verifies after what verified before.
use oath.Prelude.{
  ℕ, ◌≡◌, ◌≢◌, refl, ◌∙◌, ap, Option, none, some, List, [], ◌∷◌, ◌++◌, arith, Text, text_eq_refl,
  inl, inr, Option-cases, text_eq_iff, ◌==◌, Bool, true,
}
use oath.Transparency.{
  TransparencyEntry, PackageEntry, Json, Result, ok, err, payload_of, hashed, last_hash, or_genesis,
  is_some_text, genesis_hash, hash_entry, no_break, push_first, lines, read_lines, read_all,
  new_entry, log, verify_loop, verify_chain,
}

pub or_else : Text → Option Text → Text
or_else d none = d
or_else d (some h) = h

hashed-append : (es fs : List TransparencyEntry) → hashed (es ++ fs) ≡ hashed es ++ hashed fs
hashed-append [] fs = refl
hashed-append (e ∷ es) fs = ground (arith, hashed-append es fs)

-- The file is empty, or its last line has its line feed.
unfoldable pub ends_line : Text → Bool
ends_line [] = true
ends_line (c ∷ []) = c == b'\n'
ends_line (c ∷ d ∷ cs) = ends_line (d ∷ cs)

ends_line-append : (f t : Text) → ends_line (f ++ (t ++ b'\n' ∷ [])) ≡ true
unfolding ends_line
ends_line-append [] [] = refl
ends_line-append [] (c ∷ []) = refl
ends_line-append [] (c ∷ d ∷ cs) = ends_line-append [] (d ∷ cs)
ends_line-append (c ∷ []) [] = refl
ends_line-append (c ∷ []) (d ∷ cs) = ends_line-append [] (d ∷ cs)
ends_line-append (c ∷ d ∷ cs) t = ends_line-append (d ∷ cs) t

push_first-append :
    (c : ℕ) (ls ms : List Text) → ls ≢ [] → push_first c (ls ++ ms) ≡ push_first c ls ++ ms
push_first-append c [] ms h = absurd (h refl)
push_first-append c (l ∷ ls) ms h = refl

lines-some : (c : ℕ) (cs : Text) → lines (c ∷ cs) ≢ []
unfolding lines
lines-some c [] = ground arith
lines-some c (d ∷ cs) = ground (arith, lines-some d cs)

lines-append : (f g : Text) → ends_line f ≡ true → lines (f ++ g) ≡ lines f ++ lines g
unfolding lines ends_line
lines-append [] g h = refl
lines-append (c ∷ []) g h = ground arith
lines-append (c ∷ d ∷ cs) g h = ground (
  arith,
  lines-append (d ∷ cs) g h,
  push_first-append c (lines (d ∷ cs)) (lines g) (lines-some d cs),
)

lines-one : (t : Text) → no_break t ≡ true → lines (t ++ b'\n' ∷ []) ≡ t ∷ []
unfolding lines
lines-one [] h = refl
lines-one (c ∷ cs) h = ground (arith, lines-one cs)

module _ (sha256 : Text → Text) (json : Json) where
  read_lines-append :
      (f g : List Text)
      → read_lines sha256 json (f ++ g) ≡ read_lines sha256 json f ++ read_lines sha256 json g
  unfolding read_lines
  read_lines-append [] g = refl
  read_lines-append (l ∷ f) g = ground (arith, read_lines-append f g)

  read_lines-to_string :
      (e : TransparencyEntry) → read_lines sha256 json (json.to_string e ∷ []) ≡ e ∷ []
  unfolding read_lines
  read_lines-to_string e = ground (arith, json.is_blank-to_string e, json.from_str-to_string e)

  read_all-append :
      (f : Text) (e : TransparencyEntry)
      → ends_line f ≡ true
      → read_all sha256 json (f ++ (json.to_string e ++ b'\n' ∷ []))
        ≡ read_all sha256 json f ++ e ∷ []
  unfolding read_all
  read_all-append f e h =
      ap (read_lines sha256 json) (
        lines-append f _ h
        ∙ ap (λ t. lines f ++ t) (lines-one (json.to_string e) (json.no_break-to_string e)))
      ∙ read_lines-append (lines f) (json.to_string e ∷ [])
      ∙ ap (λ t. read_lines sha256 json (lines f) ++ t) (read_lines-to_string e)

  -- One accepted entry: its hashes are what the chain wants.
  pub verify_loop-step :
      (previous : Text) (e : TransparencyEntry) (es : List TransparencyEntry) (h : Text)
      → verify_loop sha256 json previous (e ∷ es) ≡ ok h
      → (e.entry_hash ≡ some (hash_entry sha256 json previous (payload_of e)))
        × (verify_loop sha256 json (hash_entry sha256 json previous (payload_of e)) es ≡ ok h)
  unfolding verify_loop is_some_text
  verify_loop-step previous e es h v = elim (Option-cases e.entry_hash) [
    | inl z ↦ absurd (ground arith)
    | inr (x, p) ↦
        let x' = hash_entry sha256 json previous (payload_of e) in
        (ground (arith, text_eq_iff x x'), ground arith)
  ]

  -- The loop ends with the last hash of the entries, or with what it started from.
  pub verify_loop-last_hash :
      (previous : Text) (es : List TransparencyEntry) (h : Text)
      → verify_loop sha256 json previous (hashed es) ≡ ok h
      → h ≡ or_else previous (last_hash es)
  unfolding or_else last_hash
  verify_loop-last_hash previous [] h v = unfold verify_loop in ground arith
  verify_loop-last_hash previous (e ∷ es) h v = elim (Option-cases e.entry_hash) [
    | inl z ↦
        let t : hashed (e ∷ es) ≡ hashed es = ground arith in
        ground (arith, verify_loop-last_hash previous es h (rw t at v))
    | inr (x, p) ↦
        let t : hashed (e ∷ es) ≡ e ∷ hashed es = ground arith in
        let s = verify_loop-step previous e (hashed es) h (rw t at v) in
        ground (
          arith,
          verify_loop-last_hash (hash_entry sha256 json previous (payload_of e)) es h s.1,
          s.0,
        )
  ]

  verify_loop-append :
      (previous : Text) (es fs : List TransparencyEntry) (h : Text)
      → verify_loop sha256 json previous es ≡ ok h
      → verify_loop sha256 json previous (es ++ fs) ≡ verify_loop sha256 json h fs
  unfolding verify_loop
  verify_loop-append previous [] fs h v = ground arith
  verify_loop-append previous (e ∷ es) fs h v =
      ground (arith, verify_loop-append (hash_entry sha256 json previous (payload_of e)) es fs h)

  verify_loop-new_entry :
      (h : Text) (ts : ℕ) (project : Text) (packages : List PackageEntry) (ms : ℕ)
      (es : List TransparencyEntry)
      → h ≡ or_genesis (last_hash es)
      → let e = new_entry sha256 json ts project packages ms es in
        verify_loop sha256 json h (e ∷ []) ≡ ok (hash_entry sha256 json h (payload_of e))
  unfolding verify_loop new_entry is_some_text payload_of
  verify_loop-new_entry h ts project packages ms es p = rw (← p) (simp text_eq_refl)

  pub verify_chain-inv :
      (file : Text)
      → verify_chain sha256 json file ≡ ok tt
      → (h : Text) × (verify_loop sha256 json genesis_hash (hashed (read_all sha256 json file))
          ≡ ok h)
  unfolding verify_chain
  verify_chain-inv file v =
      go (verify_loop sha256 json genesis_hash (hashed (read_all sha256 json file))) refl
    where
      go :
          (r : Result Text)
          → verify_loop sha256 json genesis_hash (hashed (read_all sha256 json file)) ≡ r
          → (h : Text) × (verify_loop sha256 json genesis_hash (hashed (read_all sha256 json file))
              ≡ ok h)
      go (ok h) e = (h, e)
      go (err x) e = absurd (ground arith)

  verify_chain-intro :
      (file : Text) (h : Text)
      → verify_loop sha256 json genesis_hash (hashed (read_all sha256 json file)) ≡ ok h
      → verify_chain sha256 json file ≡ ok tt
  unfolding verify_chain
  verify_chain-intro file h v = ground arith

  or_else-genesis : (o : Option Text) → or_else genesis_hash o ≡ or_genesis o
  unfolding or_else or_genesis
  or_else-genesis none = refl
  or_else-genesis (some h) = refl

  module _ (ts : ℕ) (project : Text) (packages : List PackageEntry) (ms : ℕ) (file : Text) where
    read_all-log :
        ends_line file ≡ true
        → read_all sha256 json (log sha256 json ts project packages ms file)
          ≡ read_all sha256 json file
            ++ new_entry sha256 json ts project packages ms (read_all sha256 json file) ∷ []
    unfolding log
    read_all-log = read_all-append file _

    ends_line-log : ends_line (log sha256 json ts project packages ms file) ≡ true
    unfolding log
    ends_line-log = ends_line-append file _

    hashed-new_entry :
        (es : List TransparencyEntry)
        → hashed (new_entry sha256 json ts project packages ms es ∷ [])
          ≡ new_entry sha256 json ts project packages ms es ∷ []
    unfolding new_entry
    hashed-new_entry es = refl

    -- Where the file is empty or its last line has its line feed, and the log verifies: what `log`
    -- appends is read back after the entries that were there, the longer log verifies, and its
    -- last line has its line feed again.
    pub verify_chain-log :
        ends_line file ≡ true
        → verify_chain sha256 json file ≡ ok tt
        → (read_all sha256 json (log sha256 json ts project packages ms file)
            ≡ read_all sha256 json file
              ++ new_entry sha256 json ts project packages ms (read_all sha256 json file) ∷ [])
          × (verify_chain sha256 json (log sha256 json ts project packages ms file) ≡ ok tt)
          × (ends_line (log sha256 json ts project packages ms file) ≡ true)
    verify_chain-log l v =
        let es = read_all sha256 json file in
        let e = new_entry sha256 json ts project packages ms es in
        let (h, r) = verify_chain-inv file v in
        let last : h ≡ or_genesis (last_hash es) =
          verify_loop-last_hash genesis_hash es h r ∙ or_else-genesis (last_hash es) in
        let whole : hashed (read_all sha256 json (log sha256 json ts project packages ms file))
            ≡ hashed es ++ e ∷ [] =
          ap hashed (read_all-log l)
          ∙ hashed-append es (e ∷ [])
          ∙ ap (λ t. hashed es ++ t) (hashed-new_entry es) in
        (
          read_all-log l,
          verify_chain-intro (log sha256 json ts project packages ms file) _ (
              ap (verify_loop sha256 json genesis_hash) whole
              ∙ verify_loop-append genesis_hash (hashed es) (e ∷ []) h r
              ∙ verify_loop-new_entry h ts project packages ms es last),
          ends_line-log,
        )
