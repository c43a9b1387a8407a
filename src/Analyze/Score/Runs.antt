-- ===== src/Analyze/Score/Runs.antt =====
-- Runs of the safety score on small reports.
use oath.Prelude.{
  ℕ, zero, suc, ◌+◌, ◌-◌, ◌*◌, ◌≤◌, ◌≡◌, ◌≢◌, refl, Bool, true, false, arith, List, [], ◌∷◌, codes,
  none,
}
use oath.Analyze.Report.{
  AnalysisReport, Capabilities, Finding, RiskLevel, info, low, medium, high, critical, network,
}
use oath.Analyze.Score.{PackageDir, SafetyScore, compute_safety_score, count}
use oath.Analyze.Score.Context.{ScoreContext, has_critical, compute_safety_score_contextual}
use oath.Analyze.Score.Steps.{verdict_floor-le-score}
use oath.Analyze.Score.Trust.{IsGraded, contextual-IsGraded, critical_not_rescued, popular-grade_a}
use oath.Analyze.Score.Penalty.{critical-score_le, many_critical-score}

abbrev quiet : Capabilities
quiet = record {
  network = true;
  filesystem = false;
  env_access = false;
  subprocess = false;
  dynamic_exec = false;
  has_install_scripts = false;
  native_addon = false;
}

abbrev sends : RiskLevel → Finding
sends r = record { kind = network; risk = r; message = codes "sends data" }

abbrev report : RiskLevel → List Finding → AnalysisReport
report verdict fs = record {
  package_name = codes "left-pad";
  overall_risk = verdict;
  findings = fs;
  capabilities = quiet;
}

abbrev bare_dir : PackageDir
bare_dir = record { exists = λ p. false; files = none ∷ []; shallow_entries = [] }

abbrev popular : ScoreContext
popular = record { is_dev = true; weekly_downloads = 2_000_000; age_days = 900 }

abbrev two_critical : List Finding
two_critical = sends critical ∷ sends low ∷ sends critical ∷ []

abbrev criticals : ℕ → List Finding
criticals zero = []
criticals (suc n) = sends critical ∷ criticals n

contextual-IsGraded_example :
    IsGraded (compute_safety_score_contextual (report critical two_critical) bare_dir popular)
contextual-IsGraded_example = contextual-IsGraded (report critical two_critical) bare_dir popular

critical_not_rescued_example :
    compute_safety_score_contextual (report critical two_critical) bare_dir popular
    ≡ compute_safety_score_contextual
        (report critical two_critical)
        bare_dir
        (record popular { weekly_downloads = 0 })
unfolding has_critical
critical_not_rescued_example =
    critical_not_rescued (report critical two_critical) bare_dir popular refl (omega arith)

popular-grade_a_example :
    (90
      ≤ (compute_safety_score_contextual (report medium (sends high ∷ [])) bare_dir popular).score)
    × ((compute_safety_score_contextual (report medium (sends high ∷ [])) bare_dir popular).grade
        ≡ b'A')
unfolding has_critical
popular-grade_a_example =
    popular-grade_a (report medium (sends high ∷ [])) bare_dir popular refl (omega arith)

verdict_floor-le-score_example :
    (info ≡ info → 75 ≤ (compute_safety_score (report info two_critical) bare_dir).score)
    × (info ≡ high → 60 ≤ (compute_safety_score (report info two_critical) bare_dir).score)
verdict_floor-le-score_example = verdict_floor-le-score (report info two_critical) bare_dir

critical-score_le_example :
    (compute_safety_score (report critical two_critical) bare_dir).score ≤ 60
unfolding count
critical-score_le_example =
    critical-score_le (report critical two_critical) bare_dir (grind arith) (grind arith)
      (omega arith)

many_critical-score_example :
    (compute_safety_score (report critical (criticals 1200)) bare_dir).score ≡ 100
unfolding count
many_critical-score_example =
    many_critical-score (report critical (criticals 1200)) bare_dir (omega arith) (omega arith) refl
      refl refl

-- Two critical findings and a low one: 100 - 60 - 2, and then the directory's points.
score-two_critical : (compute_safety_score (report critical two_critical) bare_dir).score ≡ 38
unfolding compute_safety_score oath.Analyze.Score.compute_safety_score_inner
    oath.Analyze.Score.clamp_score oath.Analyze.Score.tally oath.Analyze.Score.floor_step
    oath.Analyze.Score.verdict_floor oath.Analyze.Score.directory_steps
    oath.Analyze.Score.add_factor oath.Prelude.Int.◌+ℤ◌ oath.Analyze.Score.obfuscation_steps
    oath.Analyze.Score.pattern_step oath.Analyze.Score.capability_steps
    oath.Analyze.Score.risk_steps oath.Analyze.Score.risk_step oath.Analyze.Score.risk_penalty
score-two_critical = refl
