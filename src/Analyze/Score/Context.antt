-- ===== src/Analyze/Score/Context.antt =====
-- `compute_safety_score_contextual` of crates/oath-analyze/src/score.rs.
use oath.Prelude.{
  ℕ, ◌+◌, ◌-◌, ◌*◌, ◌/◌, min, Bool, not, ◌&&◌, List, [], ◌∷◌, ◌++◌, codes, ltb, leb, any,
  if◌then◌else◌,
}
use oath.Prelude.Int.{pos, sub_ℕ}
use oath.Analyze.Report.{AnalysisReport, Finding, critical}
use oath.Analyze.Score.{
  PackageDir, SafetyScore, score_to_grade, is_risk, compute_safety_score_inner,
}

pub record ScoreContext : Type 0 where
  pub is_dev : Bool
  pub weekly_downloads : ℕ
  pub age_days : ℕ

-- The discount gives back 40% of what was lost; the sum stays within 0 and 100, so its clamp and
-- its casts change nothing.
unfoldable pub dev_discount : ScoreContext → SafetyScore → SafetyScore
dev_discount ctx s =
    let lost = 100 - s.score in
    let recovered = lost * 40 / 100 in
    let score = min (s.score + recovered) 100 in
    if ctx.is_dev && ltb s.score 100
    then record {
      score = score;
      grade = score_to_grade score;
      factors =
          if ltb 0 recovered
          then s.factors ++ record { name = codes "dev_dependency"; weight = pos recovered } ∷ []
          else s.factors;
    }
    else s

unfoldable pub has_critical : List Finding → Bool
has_critical = any (λ x. is_risk critical x.risk)

unfoldable pub popularity_trust : ScoreContext → List Finding → SafetyScore → SafetyScore
popularity_trust ctx fs s =
    if leb 1_000_000 ctx.weekly_downloads && not (has_critical fs)
    then if ltb s.score 90
      then record {
        score = 90;
        grade = score_to_grade 90;
        factors =
            s.factors
            ++ record { name = codes "trusted_popular"; weight = pos (90 - s.score) } ∷ [];
      }
      else s
    else s

-- `(score - 15).max(0)` is the subtraction that stops at 0.
unfoldable pub suspicion : ScoreContext → SafetyScore → SafetyScore
suspicion ctx s =
    if ltb 0 ctx.weekly_downloads && ltb ctx.weekly_downloads 100 && ltb ctx.age_days 30
    then record {
      score = s.score - 15;
      grade = score_to_grade (s.score - 15);
      factors = s.factors ++ record { name = codes "new_unpopular"; weight = sub_ℕ 0 15 } ∷ [];
    }
    else s

unfoldable pub compute_safety_score_contextual :
    AnalysisReport → PackageDir → ScoreContext → SafetyScore
compute_safety_score_contextual r dir ctx =
    suspicion ctx
      (popularity_trust ctx r.findings (dev_discount ctx (compute_safety_score_inner r dir)))
