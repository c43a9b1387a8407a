-- ===== src/Transparency/Sample.antt =====
-- A serialisation that meets the laws of `Json`: texts behind their lengths, lists behind their
-- counts. It stands in for serde_json where a theorem is applied to data.
use oath.Prelude.{
  ℕ, zero, suc, ◌≡◌, refl, Bool, false, Option, none, some, List, [], ◌∷◌, ◌++◌, length, take, drop,
  arith, Text, true, ◌+◌, ◌-◌,
}
use oath.Transparency.{PackageEntry, HashPayload, TransparencyEntry, Json, payload_of, no_break}

abbrev pub Reader : Type 0 → Type 0
Reader A = Text → Option (A × Text)

infixl 5 ◌>>=◌
abbrev pub ◌>>=◌ : {A B : Type 0} → Reader A → (A → Reader B) → Reader B
◌>>=◌ m f s = elim (m s) [ none ↦ none | some (a, r) ↦ f a r ]

abbrev pub pure : {A : Type 0} → A → Reader A
pure a s = some (a, s)

unfoldable pub get_nat : Reader ℕ
get_nat [] = none
get_nat (n ∷ r) = some (n, r)

unfoldable pub put_text : Text → Text → Text
put_text t r = length t ∷ (t ++ r)

unfoldable pub get_text : Reader Text
get_text [] = none
get_text (n ∷ r) = some (take n r, drop n r)

take-append : (t r : Text) → take (length t) (t ++ r) ≡ t
take-append [] r = refl
take-append (x ∷ t) r = rw (take-append t r)

drop-append : (t r : Text) → drop (length t) (t ++ r) ≡ r
drop-append [] r = refl
drop-append (x ∷ t) r = drop-append t r

pub get-put_text : (t r : Text) → get_text (put_text t r) ≡ some (t, r)
unfolding get_text put_text
get-put_text t r = cc (take-append t r, drop-append t r)

put_option : Option Text → Text → Text
put_option none r = 0 ∷ r
put_option (some t) r = 1 ∷ put_text t r

get_option : Reader (Option Text)
get_option [] = none
get_option (zero ∷ r) = some (none, r)
get_option (suc n ∷ r) = (do t ← get_text; pure (some t)) r

get-put_option : (o : Option Text) (r : Text) → get_option (put_option o r) ≡ some (o, r)
unfolding get_option put_option
get-put_option none r = refl
get-put_option (some t) r = ground (arith, get-put_text t r)

put_package : PackageEntry → Text → Text
put_package p r = put_text p.name (put_text p.version (put_option p.integrity r))

get_package : Reader PackageEntry
get_package = do
  name ← get_text
  version ← get_text
  integrity ← get_option
  pure (record { name = name; version = version; integrity = integrity })

get-put_package : (p : PackageEntry) (r : Text) → get_package (put_package p r) ≡ some (p, r)
unfolding get_package put_package
get-put_package p r = ground (
  arith,
  get-put_text p.name (put_text p.version (put_option p.integrity r)),
  get-put_text p.version (put_option p.integrity r),
  get-put_option p.integrity r,
)

put_packages : List PackageEntry → Text → Text
put_packages [] r = r
put_packages (p ∷ ps) r = put_package p (put_packages ps r)

get_packages : ℕ → Reader (List PackageEntry)
get_packages zero = pure []
get_packages (suc n) = do p ← get_package; ps ← get_packages n; pure (p ∷ ps)

get-put_packages :
    (ps : List PackageEntry) (r : Text)
    → get_packages (length ps) (put_packages ps r) ≡ some (ps, r)
unfolding get_packages put_packages
get-put_packages [] r = refl
get-put_packages (p ∷ ps) r =
    ground (arith, get-put_package p (put_packages ps r), get-put_packages ps r)

pub put_payload : HashPayload → Text → Text
put_payload p r =
    p.ts
    ∷ p.pkg_count
    ∷ p.duration_ms
    ∷ length p.packages
    ∷ put_text p.project (put_packages p.packages r)

pub get_payload : Reader HashPayload
get_payload = do
  ts ← get_nat
  pkg_count ← get_nat
  duration_ms ← get_nat
  n ← get_nat
  project ← get_text
  packages ← get_packages n
  pure (record {
    ts = ts;
    project = project;
    pkg_count = pkg_count;
    packages = packages;
    duration_ms = duration_ms;
  })

get-put_payload : (p : HashPayload) (r : Text) → get_payload (put_payload p r) ≡ some (p, r)
unfolding get_payload put_payload get_nat
get-put_payload p r =
    ground
      (arith, get-put_text p.project (put_packages p.packages r), get-put_packages p.packages r)

pub put_entry : TransparencyEntry → Text → Text
unfolding payload_of
put_entry e r = put_payload (payload_of e) (put_option e.previous_hash (put_option e.entry_hash r))

pub get_entry : Reader TransparencyEntry
get_entry = do
  p ← get_payload
  previous_hash ← get_option
  entry_hash ← get_option
  pure (record {
    ts = p.ts;
    project = p.project;
    pkg_count = p.pkg_count;
    packages = p.packages;
    duration_ms = p.duration_ms;
    previous_hash = previous_hash;
    entry_hash = entry_hash;
  })

get-put_entry : (e : TransparencyEntry) (r : Text) → get_entry (put_entry e r) ≡ some (e, r)
unfolding get_entry put_entry
get-put_entry e r = ground (
  arith,
  get-put_payload (payload_of e) (put_option e.previous_hash (put_option e.entry_hash r)),
  get-put_option e.previous_hash (put_option e.entry_hash r),
  get-put_option e.entry_hash r,
)

abbrev pub whole : {A : Type 0} → Option (A × Text) → Option A
whole none = none
whole (some (a, r)) = some a

pub is_blank : Text → Bool
is_blank t = false

pub from_vec-to_vec : (p : HashPayload) → whole (get_payload (put_payload p [])) ≡ some p
from_vec-to_vec p = rw (get-put_payload p [])

-- A line has no number that stands for a line break.
pub shift : Text → Text
shift [] = []
shift (c ∷ cs) = (c + 14) ∷ shift cs

pub unshift : Text → Text
unshift [] = []
unshift (c ∷ cs) = (c - 14) ∷ unshift cs

unshift-shift : (t : Text) → unshift (shift t) ≡ t
unfolding shift unshift
unshift-shift [] = refl
unshift-shift (c ∷ cs) = ground (arith, unshift-shift cs)

pub no_break-shift : (t : Text) → no_break (shift t) ≡ true
unfolding shift
no_break-shift [] = refl
no_break-shift (c ∷ cs) = ground (arith, no_break-shift cs)

pub from_str-to_string :
    (e : TransparencyEntry) → whole (get_entry (unshift (shift (put_entry e [])))) ≡ some e
from_str-to_string e = rw (unshift-shift (put_entry e []), get-put_entry e [])

pub is_blank-to_string : (e : TransparencyEntry) → is_blank (shift (put_entry e [])) ≡ false
unfolding is_blank
is_blank-to_string e = refl

unfoldable pub sample_json : Json
unfolding put_payload get_payload put_entry get_entry put_text get_text put_option get_option
    put_package get_package put_packages get_packages get_nat is_blank shift unshift
sample_json = record {
  to_vec = λ p. put_payload p [];
  from_vec = λ t. whole (get_payload t);
  to_string = λ e. shift (put_entry e []);
  from_str = λ t. whole (get_entry (unshift t));
  is_blank = is_blank;
  from_vec-to_vec = from_vec-to_vec;
  from_str-to_string = from_str-to_string;
  is_blank-to_string = is_blank-to_string;
  no_break-to_string = λ e. no_break-shift (put_entry e []);
}
