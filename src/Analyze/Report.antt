-- ===== src/Analyze/Report.antt =====
-- The types of crates/oath-analyze/src/report.rs that the score reads.
use oath.Prelude.{Bool, List, Text}

pub data RiskLevel : Type 0 where
  clean info low medium high critical : RiskLevel

pub data FindingKind : Type 0 where
  network filesystem env_access subprocess dynamic_exec obfuscation install_script typosquatting
        data_exfiltration crypto_miner shadow_dep credential_harvest conditional_payload
        slopsquatting bracket_notation ci_targeting silent_subprocess env_path_overwrite
        module_loader_patch native_addon :
      FindingKind

-- The place of a finding (`file`, `line`, `snippet`) is not read by the score.
pub record Finding : Type 0 where
  pub kind : FindingKind
  pub risk : RiskLevel
  pub message : Text

pub record Capabilities : Type 0 where
  pub network : Bool
  pub filesystem : Bool
  pub env_access : Bool
  pub subprocess : Bool
  pub dynamic_exec : Bool
  pub has_install_scripts : Bool
  pub native_addon : Bool

-- The version, the counts of files and lines and the verdict's reasons are not read by the score.
pub record AnalysisReport : Type 0 where
  pub package_name : Text
  pub overall_risk : RiskLevel
  pub findings : List Finding
  pub capabilities : Capabilities
