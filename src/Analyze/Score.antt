-- ===== src/Analyze/Score.antt =====
-- The safety score of crates/oath-analyze/src/score.rs. Factors keep their name and weight; their
-- descriptions are messages for a reader. Arithmetic is that of a release build, where a 16-bit
-- product wraps (`wrap16`); the 32-bit sums stay far from their limits.
pub mod Steps
pub mod Penalty
pub mod Context
pub mod Trust
mod Runs
use oath.Prelude.{
  ℕ, zero, suc, ◌+◌, ◌-◌, ◌*◌, ◌%◌, ◌^◌, min, Bool, true, false, not, ◌&&◌, ◌||◌, Option, none,
  some, List, [], ◌∷◌, ◌++◌, Text, codes, text_eq, contains, ends_with, contains_text, ltb, leb,
  any, length, if◌then◌else◌,
}
use oath.Prelude.Int.{ℤ, pos, negsuc, pos_part, sub_ℕ, ltb_ℤ, wrap16, neg16, ◌+ℤ◌}
use oath.Analyze.Report.{
  AnalysisReport, Finding, FindingKind, RiskLevel, clean, info, low, medium, high, critical,
  obfuscation, data_exfiltration, crypto_miner,
}

pub record ScoreFactor : Type 0 where
  pub name : Text
  pub weight : ℤ

pub record SafetyScore : Type 0 where
  pub score : ℕ
  pub grade : ℕ  -- a character
  pub factors : List ScoreFactor

-- The match on ranges; the last arm also takes what is above 100.
pub score_to_grade : ℕ → ℕ
score_to_grade s =
    if leb 90 s && leb s 100
    then b'A'
    else if leb 75 s && leb s 89
    then b'B'
    else if leb 60 s && leb s 74
    then b'C'
    else if leb 40 s && leb s 59
    then b'D'
    else b'F'

-- `is_known_safe_for_capability` of "network", "env_access" and "dynamic_exec", which the score asks.
abbrev known_network : List Text
known_network =
    codes "axios"
    ∷ codes "node-fetch"
    ∷ codes "undici"
    ∷ codes "got"
    ∷ codes "request"
    ∷ codes "superagent"
    ∷ codes "ky"
    ∷ codes "cross-fetch"
    ∷ codes "isomorphic-fetch"
    ∷ codes "whatwg-fetch"
    ∷ codes "needle"
    ∷ codes "phin"
    ∷ []

abbrev known_fs : List Text
known_fs =
    codes "fs-extra"
    ∷ codes "graceful-fs"
    ∷ codes "glob"
    ∷ codes "globby"
    ∷ codes "chokidar"
    ∷ codes "rimraf"
    ∷ codes "del"
    ∷ codes "mkdirp"
    ∷ codes "make-dir"
    ∷ codes "find-up"
    ∷ codes "locate-path"
    ∷ codes "fast-glob"
    ∷ []

abbrev known_env : List Text
known_env = codes "dotenv" ∷ codes "cross-env" ∷ codes "env-ci" ∷ codes "envinfo" ∷ []

abbrev known_exec : List Text
known_exec = codes "execa" ∷ codes "cross-spawn" ∷ codes "shelljs" ∷ codes "npm-run-all" ∷ []

is_known_safe_for_capability : Text → Text → Bool
is_known_safe_for_capability name capability =
    if text_eq capability (codes "network")
    then contains_text known_network name
    else if text_eq capability (codes "filesystem")
    then contains_text known_fs name
    else if text_eq capability (codes "env_access")
    then contains_text known_env name
    else if text_eq capability (codes "subprocess") || text_eq capability (codes "dynamic_exec")
    then contains_text known_exec name
    else false

-- What the score reads of the package's directory: which paths exist, the names of the files found
-- by a full walk, and the names and extensions of the entries found down to depth 3.
pub record DirEntry : Type 0 where
  pub file_name : Option Text
  pub extension : Option Text

pub record PackageDir : Type 0 where
  pub exists : Text → Bool
  pub files : List (Option Text)
  pub shallow_entries : List DirEntry

-- The variables that the source updates: the factors and the raw score.
pub record Tally : Type 0 where
  pub factors : List ScoreFactor
  pub raw_score : ℤ

-- `if test { factors.push(…); raw_score += weight; }`
pub add_factor : Bool → Text → ℤ → Tally → Tally
add_factor test name weight t =
    if test
    then record {
      factors = t.factors ++ record { name = name; weight = weight } ∷ [];
      raw_score = t.raw_score +ℤ weight;
    }
    else t

-- The number of findings that pass a test, as the loops and `filter(…).count()` find it.
pub count : (Finding → Bool) → List Finding → ℕ
count p [] = 0
count p (x ∷ xs) = (if p x then 1 else 0) + count p xs

abbrev pub is_risk : RiskLevel → RiskLevel → Bool
is_risk low low = true
is_risk medium medium = true
is_risk high high = true
is_risk critical critical = true
is_risk _ _ = false

abbrev is_kind_obfuscation : FindingKind → Bool
is_kind_obfuscation obfuscation = true
is_kind_obfuscation _ = false

abbrev is_kind_exfiltration : FindingKind → Bool
is_kind_exfiltration data_exfiltration = true
is_kind_exfiltration _ = false

abbrev is_kind_miner : FindingKind → Bool
is_kind_miner crypto_miner = true
is_kind_miner _ = false

-- `-(count as i16 * each)`: the count is cut to 16 bits, and product and sign wrap.
pub risk_penalty : ℕ → ℕ → ℤ
unfolding wrap16 neg16
risk_penalty count each =
    let count16 = wrap16 (pos count) in
    neg16 (elim count16 [
      | pos n ↦ wrap16 (pos (n * each))
      | negsuc n ↦ wrap16 (sub_ℕ 0 (suc n * each))
    ])

-- `-(count * each).min(most) as i16`
pub capped_penalty : ℕ → ℕ → ℕ → ℤ
capped_penalty count each most = sub_ℕ 0 (min (count * each) most)

-- The factor of one risk level; its findings are counted in 32 bits.
pub risk_step : RiskLevel → Text → ℕ → List Finding → Tally → Tally
risk_step r name each fs t =
    let n = count (λ x. is_risk r x.risk) fs % 2 ^ 32 in
    add_factor (ltb 0 n) name (risk_penalty n each) t

-- The four risk levels, in the order of the source.
pub risk_steps : List Finding → Tally → Tally
risk_steps fs t =
    let t1 = risk_step critical (codes "critical_findings") 30 fs t in
    let t2 = risk_step high (codes "high_findings") 15 fs t1 in
    let t3 = risk_step medium (codes "medium_findings") 5 fs t2 in
    risk_step low (codes "low_findings") 2 fs t3

pub capability_steps : AnalysisReport → Tally → Tally
unfolding is_known_safe_for_capability
capability_steps r t =
    let safe = is_known_safe_for_capability r.package_name in
    let caps = r.capabilities in
    let t1 = add_factor caps.has_install_scripts (codes "install_scripts") (sub_ℕ 0 10) t in
    let t2 =
      add_factor
        (caps.network
          && caps.env_access
          && not (safe (codes "network"))
          && not (safe (codes "env_access")))
        (codes "network_env_combo") (sub_ℕ 0 20) t1 in
    add_factor (caps.dynamic_exec && not (safe (codes "dynamic_exec"))) (codes "dynamic_exec")
      (sub_ℕ 0 10) t2

-- `n` findings whose message has a phrase, for a kind that `of_kind` tells.
abbrev phrase_count : (FindingKind → Bool) → Text → List Finding → ℕ
phrase_count of_kind phrase = count (λ x. of_kind x.kind && contains phrase x.message)

pub pattern_step : ℕ → Text → ℕ → ℕ → Tally → Tally
pattern_step n name each most t = add_factor (ltb 0 n) name (capped_penalty n each most) t

pub obfuscation_steps : List Finding → Tally → Tally
unfolding count
obfuscation_steps fs t =
    let high_obfuscation =
      any (λ x. is_kind_obfuscation x.kind && (is_risk high x.risk || is_risk critical x.risk))
        fs in
    let t1 = add_factor high_obfuscation (codes "obfuscated_code") (sub_ℕ 0 25) t in
    let t2 =
      pattern_step (phrase_count is_kind_obfuscation (codes "Base64 payload") fs)
        (codes "base64_payload") 30 60 t1 in
    let t3 =
      pattern_step (phrase_count is_kind_obfuscation (codes "Dynamic require") fs)
        (codes "dynamic_require_obfuscation") 25 50 t2 in
    let t4 =
      pattern_step (phrase_count is_kind_obfuscation (codes "Hex string execution") fs)
        (codes "hex_string_execution") 40 80 t3 in
    let t5 =
      pattern_step
        (phrase_count is_kind_exfiltration (codes "Environment variable exfiltration") fs)
        (codes "env_exfiltration_combo") 35 70 t4 in
    pattern_step (phrase_count is_kind_miner (codes "wallet address") fs)
      (codes "crypto_wallet_patterns") 20 60 t5

abbrev is_minified : Option Text → Bool
is_minified none = false
is_minified (some name) = ends_with (codes ".min.js") name || ends_with (codes ".min.cjs") name

abbrev is_types_entry : DirEntry → Bool
is_types_entry e =
    elim e.extension [ none ↦ false | some ext ↦ text_eq ext (codes "d.ts") ]
    || elim e.file_name [ none ↦ false | some n ↦ ends_with (codes ".d.ts") n ]

pub directory_steps : PackageDir → Tally → Tally
directory_steps dir t =
    let has = λ (s : Text). dir.exists s in
    let has_readme =
      has (codes "README.md")
      || has (codes "readme.md")
      || has (codes "README")
      || has (codes "README.txt")
      || has (codes "README.rst") in
    let has_types = has (codes "index.d.ts") || any is_types_entry dir.shallow_entries in
    let has_license =
      has (codes "LICENSE")
      || has (codes "LICENSE.md")
      || has (codes "LICENSE.txt")
      || has (codes "LICENCE")
      || has (codes "license") in
    let has_tests = has (codes "test") || has (codes "tests") || has (codes "__tests__") in
    let t1 = add_factor (not has_readme) (codes "no_readme") (sub_ℕ 0 5) t in
    let t2 = add_factor (ltb 200 (length dir.files)) (codes "large_surface_area") (sub_ℕ 0 5) t1 in
    let t3 = add_factor (not (any is_minified dir.files)) (codes "readable_source") (pos 5) t2 in
    let t4 = add_factor has_types (codes "typescript_types") (pos 5) t3 in
    let t5 = add_factor has_license (codes "has_license") (pos 5) t4 in
    add_factor has_tests (codes "has_tests") (pos 5) t5

-- The floor that the verdict sets, if any.
pub verdict_floor : RiskLevel → Option ℕ
verdict_floor info = some 75
verdict_floor high = some 60
verdict_floor _ = none

-- `floor - raw_score.max(0)` lies between 0 and the floor, so its own clamp changes nothing.
pub floor_step : Option ℕ → Tally → Tally
floor_step none t = t
floor_step (some floor) t =
    if ltb_ℤ t.raw_score (pos floor)
    then record {
      factors =
          t.factors
          ++ record {
            name = codes "behavioral_verdict";
            weight = pos (floor - pos_part t.raw_score);
          }
            ∷ [];
      raw_score = pos floor;
    }
    else t

-- `raw_score.clamp(0, 100) as u8`
pub clamp_score : ℤ → ℕ
clamp_score raw = min (pos_part raw) 100

abbrev pub start : Tally
start = record { factors = []; raw_score = pos 100 }

pub tally : AnalysisReport → PackageDir → Tally
tally r dir = floor_step (verdict_floor r.overall_risk) (
    directory_steps dir
      (obfuscation_steps r.findings (capability_steps r (risk_steps r.findings start))))

-- The context that the source passes here is not read.
pub compute_safety_score_inner : AnalysisReport → PackageDir → SafetyScore
compute_safety_score_inner r dir =
    let t = tally r dir in
    let final_score = clamp_score t.raw_score in
    record { score = final_score; grade = score_to_grade final_score; factors = t.factors }

pub compute_safety_score : AnalysisReport → PackageDir → SafetyScore
compute_safety_score r dir = compute_safety_score_inner r dir
