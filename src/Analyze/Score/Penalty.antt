-- ===== src/Analyze/Score/Penalty.antt =====
-- What critical findings cost, and where the 16-bit product of their number wraps.
use oath.Prelude.{
  ℕ, zero, suc, ◌+◌, ◌-◌, ◌*◌, ◌%◌, ◌^◌, ◌≤◌, ◌≡◌, ◌≢◌, refl, Bool, arith, List, [], ◌∷◌, length,
  Text, ltb, Option, some, none, codes,
}
use oath.Prelude.Int.{pos, pos_part, pos_part-neg_part, neg_part, sub_ℕ, ◌+ℤ◌, +ℤ_parts}
use oath.Analyze.Report.{AnalysisReport, Finding, RiskLevel, info, low, medium, high, critical}
use oath.Analyze.Score.{
  PackageDir, Tally, add_factor, count, is_risk, risk_penalty, risk_step, risk_steps,
  capability_steps, obfuscation_steps, directory_steps, floor_step, verdict_floor, start, tally,
  clamp_score, compute_safety_score_inner, compute_safety_score,
}
use oath.Analyze.Score.Steps.{later_steps-Moves}

-- The number of findings of a risk level.
abbrev pub risk_count : RiskLevel → List Finding → ℕ
risk_count r fs = count (λ x. is_risk r x.risk) fs

count-le : (p : Finding → Bool) (fs : List Finding) → count p fs ≤ length fs
unfolding count
count-le p [] = omega arith
count-le p (x ∷ fs) = ground (arith, count-le p fs)

-- Up to 1092 findings each product is exact.
risk_penalty_exact : (n each : ℕ) → n ≤ 1092 → each ≤ 30 → risk_penalty n each ≡ sub_ℕ 0 (n * each)
unfolding risk_penalty
risk_penalty_exact n each h k = let b : n * each ≤ 32_760 = grind arith in ground arith

-- From 1093 on the product for critical findings wraps to a reward.
risk_penalty_wraps : (n : ℕ) → 1093 ≤ n → n ≤ 2184 → risk_penalty n 30 ≡ pos (65_536 - n * 30)
unfolding risk_penalty
risk_penalty_wraps n h k = ground arith

-- The step of one risk level lowers the raw score by exactly its count times its weight.
risk_step_exact :
    (r : RiskLevel) (name : Text) (each : ℕ) (fs : List Finding) (t : Tally)
    → length fs ≤ 1092
    → each ≤ 30
    → pos_part (risk_step r name each fs t).raw_score
        + neg_part t.raw_score
        + risk_count r fs * each
      ≡ pos_part t.raw_score + neg_part (risk_step r name each fs t).raw_score
unfolding risk_step add_factor
risk_step_exact r name each fs t h k =
    let n = risk_count r fs in
    let b = count-le (λ x. is_risk r x.risk) fs in
    let e : n % 2 ^ 32 ≡ n = omega (arith, b) in
    rw (e, risk_penalty_exact n each (omega (arith, b)) k) (cases n)
  where
    cases :
        (n : ℕ)
        → let u = add_factor (ltb 0 n) name (sub_ℕ 0 (n * each)) t in
          pos_part u.raw_score + neg_part t.raw_score + n * each
          ≡ pos_part t.raw_score + neg_part u.raw_score
    cases zero = omega arith
    cases (suc m) = ground (arith, +ℤ_parts t.raw_score (sub_ℕ 0 (suc m * each)))

risk_steps-critical :
    (fs : List Finding)
    → length fs ≤ 1092
    → pos_part (risk_steps fs start).raw_score + risk_count critical fs * 30
      ≤ 100 + neg_part (risk_steps fs start).raw_score
unfolding risk_steps
risk_steps-critical fs h =
    let t1 = risk_step critical (codes "critical_findings") 30 fs start in
    let t2 = risk_step high (codes "high_findings") 15 fs t1 in
    let t3 = risk_step medium (codes "medium_findings") 5 fs t2 in
    omega (
      arith,
      risk_step_exact critical (codes "critical_findings") 30 fs start h (omega arith),
      risk_step_exact high (codes "high_findings") 15 fs t1 h (omega arith),
      risk_step_exact medium (codes "medium_findings") 5 fs t2 h (omega arith),
      risk_step_exact low (codes "low_findings") 2 fs t3 h (omega arith),
    )

floor_step_keeps :
    (floor : Option ℕ) (t : Tally) (n : ℕ)
    → n ≤ pos_part t.raw_score
    → n ≤ pos_part (floor_step floor t).raw_score
unfolding floor_step
floor_step_keeps none t n h = h
floor_step_keeps (some floor) t n h = ground arith

no_floor : (r : RiskLevel) (t : Tally) → r ≢ info → r ≢ high → floor_step (verdict_floor r) t ≡ t
unfolding floor_step verdict_floor
no_floor info t h k = absurd (h refl)
no_floor high t h k = absurd (k refl)
no_floor _ t h k = refl

-- Where the verdict sets no floor and there are at most 1092 findings, each critical finding costs
-- 30 points: the score is at most 120 less 30 for each, and 0 from four of them on.
pub critical-score_le :
    (r : AnalysisReport) (dir : PackageDir)
    → r.overall_risk ≢ info
    → r.overall_risk ≢ high
    → length r.findings ≤ 1092
    → (compute_safety_score r dir).score ≤ 120 - 30 * risk_count critical r.findings
unfolding compute_safety_score compute_safety_score_inner clamp_score tally
critical-score_le r dir h k l =
    let t = risk_steps r.findings start in
    let u = directory_steps dir (obfuscation_steps r.findings (capability_steps r t)) in
    let b : pos_part u.raw_score
        ≤ neg_part u.raw_score + (120 - 30 * risk_count critical r.findings) =
      omega (arith, risk_steps-critical r.findings l, later_steps-Moves r dir t) in
    rw (no_floor r.overall_risk _ h k) (omega (arith, pos_part-neg_part u.raw_score _ b))

-- The raw score before the floor, where the product for critical findings has wrapped.
wrapped_steps :
    (fs : List Finding)
    → 1093 ≤ risk_count critical fs
    → risk_count critical fs ≤ 2171
    → risk_count high fs ≡ 0
    → risk_count medium fs ≡ 0
    → risk_count low fs ≡ 0
    → neg_part (risk_steps fs start).raw_score + 495 ≤ pos_part (risk_steps fs start).raw_score
unfolding risk_steps risk_step add_factor ◌+ℤ◌
wrapped_steps fs h k e1 e2 e3 =
    let e : risk_count critical fs % 2 ^ 32 ≡ risk_count critical fs = omega arith in
    rw (e1, e2, e3, e, risk_penalty_wraps (risk_count critical fs) h (omega arith)) (ground arith)

-- A package whose findings of a counted level are all critical, from 1093 to 2171 of them, scores
-- 100: the 16-bit product wraps, and the penalty becomes a reward.
pub many_critical-score :
    (r : AnalysisReport) (dir : PackageDir)
    → 1093 ≤ risk_count critical r.findings
    → risk_count critical r.findings ≤ 2171
    → risk_count high r.findings ≡ 0
    → risk_count medium r.findings ≡ 0
    → risk_count low r.findings ≡ 0
    → (compute_safety_score r dir).score ≡ 100
unfolding compute_safety_score compute_safety_score_inner clamp_score tally
many_critical-score r dir h k e1 e2 e3 =
    let t = risk_steps r.findings start in
    let u = directory_steps dir (obfuscation_steps r.findings (capability_steps r t)) in
    let b : 100 ≤ pos_part u.raw_score =
      omega (arith, wrapped_steps r.findings h k e1 e2 e3, later_steps-Moves r dir t) in
    omega (arith, floor_step_keeps (verdict_floor r.overall_risk) u 100 b)
