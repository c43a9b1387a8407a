-- ===== src/Analyze/Score/Trust.antt =====
-- What the context may do to a score.
use oath.Prelude.{◌≤◌, ◌≡◌, refl, ◌∙◌, true, false, arith, List}
use oath.Analyze.Report.{AnalysisReport, Finding}
use oath.Analyze.Score.{
  PackageDir, SafetyScore, score_to_grade, compute_safety_score_inner, clamp_score,
}
use oath.Analyze.Score.Context.{
  ScoreContext, dev_discount, has_critical, popularity_trust, suspicion,
  compute_safety_score_contextual,
}

-- The score is a percentage, and the grade is the one of the score.
pub record IsGraded (s : SafetyScore) : Type 0 where
  pub bounded : s.score ≤ 100
  pub graded : s.grade ≡ score_to_grade s.score

inner-IsGraded :
    (r : AnalysisReport) (dir : PackageDir) → IsGraded (compute_safety_score_inner r dir)
unfolding compute_safety_score_inner clamp_score
inner-IsGraded r dir = record { bounded = omega arith; graded = refl }

dev_discount-IsGraded :
    (ctx : ScoreContext) (s : SafetyScore) → IsGraded s → IsGraded (dev_discount ctx s)
unfolding dev_discount
dev_discount-IsGraded ctx s h = ground arith

popularity_trust-IsGraded :
    (ctx : ScoreContext) (fs : List Finding) (s : SafetyScore)
    → IsGraded s
    → IsGraded (popularity_trust ctx fs s)
unfolding popularity_trust
popularity_trust-IsGraded ctx fs s h = ground arith

suspicion-IsGraded :
    (ctx : ScoreContext) (s : SafetyScore) → IsGraded s → IsGraded (suspicion ctx s)
unfolding suspicion
suspicion-IsGraded ctx s h = ground arith

-- For every report, directory and context the contextual score is at most 100, and its grade is
-- the grade of that score: no adjustment leaves a stale grade behind.
pub contextual-IsGraded :
    (r : AnalysisReport) (dir : PackageDir) (ctx : ScoreContext)
    → IsGraded (compute_safety_score_contextual r dir ctx)
unfolding compute_safety_score_contextual
contextual-IsGraded r dir ctx = suspicion-IsGraded ctx _ (
    popularity_trust-IsGraded ctx r.findings _ (dev_discount-IsGraded ctx _ (inner-IsGraded r dir)))

not_trusted :
    (ctx : ScoreContext) (fs : List Finding) (s : SafetyScore)
    → has_critical fs ≡ true
    → popularity_trust ctx fs s ≡ s
unfolding popularity_trust
not_trusted ctx fs s h = ground arith

not_suspicious :
    (ctx : ScoreContext) (s : SafetyScore) → 100 ≤ ctx.weekly_downloads → suspicion ctx s ≡ s
unfolding suspicion
not_suspicious ctx s k = ground arith

-- With a critical finding the number of downloads, from 100 on, changes nothing: popularity never
-- rescues such a package.
pub critical_not_rescued :
    (r : AnalysisReport) (dir : PackageDir) (ctx : ScoreContext)
    → has_critical r.findings ≡ true
    → 100 ≤ ctx.weekly_downloads
    → compute_safety_score_contextual r dir ctx
      ≡ compute_safety_score_contextual r dir (record ctx { weekly_downloads = 0 })
unfolding compute_safety_score_contextual
critical_not_rescued r dir ctx h k =
    let s = dev_discount ctx (compute_safety_score_inner r dir) in
    not_suspicious ctx _ (omega arith)
    ∙ not_trusted ctx r.findings s h
    ∙ (unfold suspicion popularity_trust dev_discount in refl)

-- Without a critical finding a package with a million weekly downloads has grade A.
pub popular-grade_a :
    (r : AnalysisReport) (dir : PackageDir) (ctx : ScoreContext)
    → has_critical r.findings ≡ false
    → 1_000_000 ≤ ctx.weekly_downloads
    → (90 ≤ (compute_safety_score_contextual r dir ctx).score)
      × ((compute_safety_score_contextual r dir ctx).grade ≡ b'A')
unfolding compute_safety_score_contextual popularity_trust suspicion score_to_grade
popular-grade_a r dir ctx h k =
    let g = dev_discount-IsGraded ctx _ (inner-IsGraded r dir) in
    (ground (arith, g), ground (arith, g))
