-- ===== src/Core/Policy.antt =====
-- crates/oath-core/src/policy.rs. TOML is read by a parameter `parse`, which gives nothing for a
-- text that `toml::from_str` refuses; `home` is the home directory and `read` the file system.
mod Load
mod Risk
mod Runs
use oath.Prelude.{
  ℕ, ◌+◌, ◌&&◌, ◌||◌, Bool, true, false, not, leb, any, if◌then◌else◌, Option, none, some, List, [],
  ◌∷◌, ◌++◌, map, Text, codes, text_eq,
}
use oath.Prelude.Unions.{extend_missing}

pub data RiskLevel : Type 0 where
  clean info low medium high critical : RiskLevel

pub display : RiskLevel → Text
display clean = codes "clean"
display info = codes "info"
display low = codes "low"
display medium = codes "medium"
display high = codes "high"
display critical = codes "critical"

pub record RawPolicy : Type 0 where
  pub banned_packages : List Text
  pub banned_licenses : List Text
  pub require_approval : List Text
  pub allow_install_scripts : List Text
  pub block_install_scripts : Option Bool
  pub max_risk_level : Option Text

pub record OathPolicy : Type 0 where
  pub banned_packages : List Text
  pub banned_licenses : List Text
  pub require_approval : List Text
  pub allow_install_scripts : List Text
  pub block_install_scripts : Bool
  pub max_risk_level : Text

abbrev pub default : OathPolicy
default = record {
  banned_packages = [];
  banned_licenses = [];
  require_approval = [];
  allow_install_scripts = [];
  block_install_scripts = false;
  max_risk_level = codes "critical";
}

-- `if let Some(v) = layer { value = v; }`
abbrev pub override {ℓ} : {A : Type ℓ} → Option A → A → A
override none value = value
override (some v) value = v

pub merge : OathPolicy → RawPolicy → OathPolicy
merge p raw = record {
  banned_packages = extend_missing p.banned_packages raw.banned_packages;
  banned_licenses = extend_missing p.banned_licenses raw.banned_licenses;
  require_approval = extend_missing p.require_approval raw.require_approval;
  allow_install_scripts = extend_missing p.allow_install_scripts raw.allow_install_scripts;
  block_install_scripts = override raw.block_install_scripts p.block_install_scripts;
  max_risk_level = override raw.max_risk_level p.max_risk_level;
}

-- A layer: the file is read, and its text parsed.
unfoldable pub layer : (Text → Option RawPolicy) → Option Text → Option RawPolicy
layer parse none = none
layer parse (some text) = parse text

pub merge_layer : OathPolicy → Option RawPolicy → OathPolicy
merge_layer p none = p
merge_layer p (some raw) = merge p raw

-- The text of the global file, where there is a home directory.
unfoldable pub read_global : Option Text → (Text → Option Text) → Option Text
read_global none read = none
read_global (some home) read = read (home ++ codes "/.oath/policy.toml")

pub load : (Text → Option RawPolicy) → Option Text → (Text → Option Text) → OathPolicy
load parse home read =
    let policy = merge_layer default (layer parse (read_global home read)) in
    merge_layer policy (layer parse (read (codes "oath-policy.toml")))

abbrev pub to_ascii_lowercase : ℕ → ℕ
to_ascii_lowercase c = if leb b'A' c && leb c b'Z' then c + 32 else c

unfoldable pub eq_ignore_ascii_case : Text → Text → Bool
eq_ignore_ascii_case s t = text_eq (map to_ascii_lowercase s) (map to_ascii_lowercase t)

pub is_package_banned : OathPolicy → Text → Bool
is_package_banned p name = any (λ b. eq_ignore_ascii_case b name) p.banned_packages

pub is_license_banned : OathPolicy → Text → Bool
is_license_banned p license = any (λ b. eq_ignore_ascii_case b license) p.banned_licenses

pub allows_install_script : OathPolicy → Text → Bool
allows_install_script p name =
    if any (λ a. eq_ignore_ascii_case a name) p.allow_install_scripts
    then true
    else not p.block_install_scripts

-- The source lowers by Unicode. No character outside ASCII is lowered to a letter of these names, so
-- lowering by ASCII finds the same arm.
pub max_risk : OathPolicy → RiskLevel
max_risk p =
    let level = map to_ascii_lowercase p.max_risk_level in
    if text_eq level (codes "clean")
    then clean
    else if text_eq level (codes "info")
    then info
    else if text_eq level (codes "low")
    then low
    else if text_eq level (codes "medium")
    then medium
    else if text_eq level (codes "high")
    then high
    else if text_eq level (codes "critical")
    then critical
    else critical
