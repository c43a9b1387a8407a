-- ===== src/Registry/Control/Limits/Allowed.antt =====
-- How many requests a limit lets through.
use oath.Prelude.{
  ℕ, suc, ◌+◌, ◌-◌, ◌==◌, ◌&&◌, ◌≡◌, refl, ap, ◌∙◌, inl, inr, min, Bool, true, false, if◌then◌else◌,
  List, [], ◌∷◌, Text, text_eq, text_eq_iff, text_eq_refl, arith, Bool-cases, &&-eq-true, ==_iff,
}
use oath.Registry.Control.Limits.{RateRow, is_row, upsert, window_start_of, consume_rate_limit}

-- The requests counted so far.
pub current : Text → Text → ℕ → List RateRow → ℕ
current s b w [] = 0
current s b w (r ∷ rs) =
    let rest = current s b w rs in if is_row s b w r then r.request_count else rest

upsert-current :
    (s b : Text) (w : ℕ) (rows : List RateRow) → (upsert s b w rows).0 ≡ current s b w rows + 1
unfolding upsert current
upsert-current s b w [] = refl
upsert-current s b w (r ∷ rs) = ground (arith, upsert-current s b w rs)

is_row_refl :
    (s b : Text) (w n : ℕ)
    → is_row s b w (record { subject_hash = s; bucket = b; window_start = w; request_count = n })
      ≡ true
is_row_refl s b w n = rw (text_eq_refl s, text_eq_refl b, (==_iff w w).1 refl) refl

current-upsert :
    (s b : Text) (w : ℕ) (rows : List RateRow)
    → current s b w (upsert s b w rows).1 ≡ current s b w rows + 1
unfolding upsert current
current-upsert s b w [] = rw (is_row_refl s b w 1) refl
current-upsert s b w (r ∷ rs) = elim (Bool-cases (is_row s b w r)) [
  | inl e ↦ rw (e, e) refl
  | inr e ↦ rw (e, e) (current-upsert s b w rs)
]

-- Whether two requests count in one row.
abbrev pub same_key : Text → ℕ → Text → ℕ → Bool
same_key t v s w = text_eq t s && v == w

and-true : (a c : Bool) → (a && true && c) ≡ (a && c)
and-true true c = refl
and-true false c = refl

other-row :
    (s b t : Text) (w v : ℕ) (r : RateRow)
    → same_key t v s w ≡ false
    → is_row t b v r ≡ true
    → is_row s b w r ≡ false
other-row s b t w v r k e =
    let (a, f) =
      &&-eq-true (text_eq r.subject_hash t && text_eq r.bucket b) (r.window_start == v) e in
    let (c, d) = &&-eq-true (text_eq r.subject_hash t) (text_eq r.bucket b) a in
    rw ((text_eq_iff r.subject_hash t).0 c, (==_iff r.window_start v).0 f, d)
      (and-true (text_eq t s) (v == w) ∙ k)

current-other :
    (s b t : Text) (w v : ℕ) (rows : List RateRow)
    → same_key t v s w ≡ false
    → current s b w (upsert t b v rows).1 ≡ current s b w rows
unfolding current upsert
current-other s b t w v [] k =
    rw
      (other-row s b t w v
        (record { subject_hash = t; bucket = b; window_start = v; request_count = 1 }) k
        (is_row_refl t b v 1))
      refl
current-other s b t w v (r ∷ rs) k = elim (Bool-cases (is_row t b v r)) [
  | inl e ↦ let f = other-row s b t w v r k e in rw (e, f) refl
  | inr e ↦
      rw e (ap (λ n. if is_row s b w r then r.request_count else n) (current-other s b t w v rs k))
]

same-hit :
    (s b t : Text) (w v : ℕ) (rows : List RateRow)
    → same_key t v s w ≡ true
    → ((upsert t b v rows).0 ≡ current s b w rows + 1)
      × (current s b w (upsert t b v rows).1 ≡ current s b w rows + 1)
same-hit s b t w v rows k =
    let (a, c) = &&-eq-true (text_eq t s) (v == w) k in
    rw ((text_eq_iff t s).0 a, (==_iff v w).0 c)
      (upsert-current s b w rows, current-upsert s b w rows)

pub record Request : Type 0 where
  pub subject_hash : Text
  pub now : ℕ

-- How many requests of one subject in one window are among the requests.
pub requested : Text → ℕ → ℕ → List Request → ℕ
requested s w window [] = 0
requested s w window (q ∷ qs) =
    let rest = requested s w window qs in
    if same_key q.subject_hash (window_start_of q.now window) s w then suc rest else rest

-- How many of them are let through, when all are made one after another.
unfoldable pub allowed : Text → ℕ → Text → ℕ → ℕ → List Request → List RateRow → ℕ
allowed s w b maximum window [] rows = 0
allowed s w b maximum window (q ∷ qs) rows =
    let answer = consume_rate_limit q.now q.subject_hash b maximum window rows in
    let rest = allowed s w b maximum window qs answer.1 in
    if same_key q.subject_hash (window_start_of q.now window) s w && answer.0
    then suc rest
    else rest

-- Of the requests that one subject makes in one window, in any interleaving with those of others and of
-- other windows, as many are let through as the limit leaves after the counted ones, and no more.
pub allowed-min :
    (s : Text) (w : ℕ) (b : Text) (maximum window : ℕ) (qs : List Request) (rows : List RateRow)
    → allowed s w b maximum window qs rows
      ≡ min (requested s w window qs) (maximum - current s b w rows)
unfolding allowed requested consume_rate_limit
allowed-min s w b maximum window [] rows = omega arith
allowed-min s w b maximum window (q ∷ qs) rows =
    let v = window_start_of q.now window in
    let t = q.subject_hash in
    let rest = allowed-min s w b maximum window qs (upsert t b v rows).1 in
    elim (Bool-cases (same_key t v s w)) [
      | inl e ↦
          let (hit, after) = same-hit s b t w v rows e in rw (e, hit) (ground (arith, rest, after))
      | inr e ↦ rw e (
          rest
          ∙ ap (λ n. min (requested s w window qs) (maximum - n)) (current-other s b t w v rows e))
    ]
