-- ===== src/Registry/Control/Limits.antt =====
-- The rate limits of control_plane.rs: a counter for each subject, bucket and window of time.
mod Allowed
mod Runs
use oath.Prelude.{
  ℕ, zero, suc, ◌+◌, ◌-◌, ◌%◌, ◌==◌, ◌&&◌, Bool, true, false, ltb, leb, if◌then◌else◌, List, [],
  ◌∷◌, Text, text_eq,
}
use oath.Prelude.Tables.{delete_where}

pub record RateRow : Type 0 where
  pub subject_hash : Text
  pub bucket : Text
  pub window_start : ℕ
  pub request_count : ℕ

abbrev pub is_row : Text → Text → ℕ → RateRow → Bool
is_row subject_hash bucket window_start r =
    text_eq r.subject_hash subject_hash && text_eq r.bucket bucket && r.window_start == window_start

-- `INSERT … ON CONFLICT … DO UPDATE SET request_count=request_count+1 RETURNING request_count`
unfoldable pub upsert : Text → Text → ℕ → List RateRow → ℕ × List RateRow
upsert subject_hash bucket window_start [] = (
  1,
  record {
    subject_hash = subject_hash;
    bucket = bucket;
    window_start = window_start;
    request_count = 1;
  }
      ∷ [],
)
upsert subject_hash bucket window_start (r ∷ rs) =
    let rest = upsert subject_hash bucket window_start rs in
    if is_row subject_hash bucket window_start r
    then (r.request_count + 1, record r { request_count = r.request_count + 1 } ∷ rs)
    else (rest.0, r ∷ rest.1)

abbrev pub window_start_of : ℕ → ℕ → ℕ
window_start_of now window_seconds = now - now % window_seconds

unfoldable pub consume_rate_limit : ℕ → Text → Text → ℕ → ℕ → List RateRow → Bool × List RateRow
consume_rate_limit now subject_hash bucket maximum window_seconds rows =
    let counted = upsert subject_hash bucket (window_start_of now window_seconds) rows in
    (leb counted.0 maximum, counted.1)

pub prune_rate_limits_before : ℕ → List RateRow → List RateRow
prune_rate_limits_before cutoff rows = delete_where (λ r. ltb r.window_start cutoff) rows
