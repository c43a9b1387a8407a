-- ===== src/Analyze/Score/Steps.antt =====
-- How far each group of factors moves the raw score.
use oath.Prelude.{ℕ, ◌+◌, ◌*◌, ◌≤◌, ◌≡◌, Bool, true, false, arith, List, Text, min, ltb, some}
use oath.Prelude.Int.{pos, pos_part, neg_part, sub_ℕ, +ℤ_parts}
use oath.Analyze.Report.{AnalysisReport, Finding, info, high}
use oath.Analyze.Score.{
  PackageDir, Tally, add_factor, capped_penalty, pattern_step, capability_steps, obfuscation_steps,
  directory_steps, floor_step, verdict_floor, tally, clamp_score, compute_safety_score_inner,
  compute_safety_score,
}

-- From `t` to `u` the raw score falls by at most `down` and rises by at most `up`.
pub record Moves (down up : ℕ) (t u : Tally) : Type 0 where
  pub falls :
      pos_part t.raw_score + neg_part u.raw_score
      ≤ pos_part u.raw_score + neg_part t.raw_score + down
  pub rises :
      pos_part u.raw_score + neg_part t.raw_score ≤ pos_part t.raw_score + neg_part u.raw_score + up

pub Moves-trans :
    (d u d' u' : ℕ) (s t v : Tally) → Moves d u s t → Moves d' u' t v → Moves (d + d') (u + u') s v
Moves-trans d u d' u' s t v p q = omega (arith, p, q)

pub add_factor_down :
    (b : Bool) (name : Text) (n k : ℕ) (t : Tally)
    → n ≤ k
    → Moves k 0 t (add_factor b name (sub_ℕ 0 n) t)
unfolding add_factor
add_factor_down true name n k t h = ground (arith, +ℤ_parts t.raw_score (sub_ℕ 0 n))
add_factor_down false name n k t h = omega arith

add_factor_up :
    (b : Bool) (name : Text) (n : ℕ) (t : Tally) → Moves 0 n t (add_factor b name (pos n) t)
unfolding add_factor
add_factor_up true name n t = ground (arith, +ℤ_parts t.raw_score (pos n))
add_factor_up false name n t = omega arith

pattern_step_down :
    (n : ℕ) (name : Text) (each most : ℕ) (t : Tally)
    → Moves most 0 t (pattern_step n name each most t)
unfolding pattern_step capped_penalty
pattern_step_down n name each most t =
    add_factor_down (ltb 0 n) name (min (n * each) most) most t (omega arith)

capability_steps_down : (r : AnalysisReport) (t : Tally) → Moves 40 0 t (capability_steps r t)
unfolding capability_steps
capability_steps_down r t =
    Moves-trans 30 0 10 0 _ _ _
      (Moves-trans 10 0 20 0 _ _ _ (add_factor_down _ _ 10 10 t (omega arith))
        (add_factor_down _ _ 20 20 _ (omega arith)))
      (add_factor_down _ _ 10 10 _ (omega arith))

obfuscation_steps_down : (fs : List Finding) (t : Tally) → Moves 345 0 t (obfuscation_steps fs t)
unfolding obfuscation_steps
obfuscation_steps_down fs t =
    Moves-trans 285 0 60 0 _ _ _
      (Moves-trans 215 0 70 0 _ _ _
        (Moves-trans 135 0 80 0 _ _ _
          (Moves-trans 85 0 50 0 _ _ _
            (Moves-trans 25 0 60 0 _ _ _ (add_factor_down _ _ 25 25 t (omega arith))
              (pattern_step_down _ _ 30 60 _))
            (pattern_step_down _ _ 25 50 _))
          (pattern_step_down _ _ 40 80 _))
        (pattern_step_down _ _ 35 70 _))
      (pattern_step_down _ _ 20 60 _)

directory_steps-Moves : (dir : PackageDir) (t : Tally) → Moves 10 20 t (directory_steps dir t)
unfolding directory_steps
directory_steps-Moves dir t =
    Moves-trans 10 15 0 5 _ _ _
      (Moves-trans 10 10 0 5 _ _ _
        (Moves-trans 10 5 0 5 _ _ _
          (Moves-trans 10 0 0 5 _ _ _
            (Moves-trans 5 0 5 0 _ _ _ (add_factor_down _ _ 5 5 t (omega arith))
              (add_factor_down _ _ 5 5 _ (omega arith)))
            (add_factor_up _ _ 5 _))
          (add_factor_up _ _ 5 _))
        (add_factor_up _ _ 5 _))
      (add_factor_up _ _ 5 _)

-- Everything after the four risk levels, but for the floor: from 395 down to 20 up.
pub later_steps-Moves :
    (r : AnalysisReport) (dir : PackageDir) (t : Tally)
    → Moves 395 20 t (directory_steps dir (obfuscation_steps r.findings (capability_steps r t)))
later_steps-Moves r dir t =
    Moves-trans 385 0 10 20 _ _ _
      (Moves-trans 40 0 345 0 _ _ _ (capability_steps_down r t)
        (obfuscation_steps_down r.findings _))
      (directory_steps-Moves dir _)

floor_step-le : (floor : ℕ) (t : Tally) → floor ≤ pos_part (floor_step (some floor) t).raw_score
unfolding floor_step
floor_step-le floor t = ground arith

-- Where the overall verdict is `Info` the score is at least 75, and where it is `High` at least 60,
-- whatever the findings and the directory are.
pub verdict_floor-le-score :
    (r : AnalysisReport) (dir : PackageDir)
    → (r.overall_risk ≡ info → 75 ≤ (compute_safety_score r dir).score)
      × (r.overall_risk ≡ high → 60 ≤ (compute_safety_score r dir).score)
unfolding compute_safety_score compute_safety_score_inner clamp_score tally verdict_floor
verdict_floor-le-score r dir = (
  (λ e. rw e (omega (arith, floor_step-le 75 _))),
  (λ e. rw e (omega (arith, floor_step-le 60 _))),
)
