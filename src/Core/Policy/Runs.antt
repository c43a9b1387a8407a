-- ===== src/Core/Policy/Runs.antt =====
-- Runs of the policy: a reader of files that hold a list of banned names, one per text.
use oath.Prelude.{
  ◌≡◌, refl, ◌||◌, true, false, not, Option, none, some, [], ◌∷◌, Text, codes, text_eq,
  if◌then◌else◌,
}
use oath.Core.Policy.{
  RawPolicy, OathPolicy, default, override, load, high, display, eq_ignore_ascii_case,
  is_package_banned, is_license_banned, allows_install_script, max_risk,
}
use oath.Core.Policy.Load.{
  names, listed, set, global, local, banned-load, allows_install_script-load, AllDistinct,
  load-AllDistinct,
}
use oath.Core.Policy.Risk.{max_risk-display}

-- A toy parser: the text is a banned package.
abbrev parse : Text → Option RawPolicy
parse [] = none
parse (x ∷ xs) = some (record {
  banned_packages = (x ∷ xs) ∷ (x ∷ xs) ∷ [];
  banned_licenses = [];
  require_approval = [];
  allow_install_scripts = codes "esbuild" ∷ [];
  block_install_scripts = some true;
  max_risk_level = some (codes "High");
})

abbrev read : Text → Option Text
read path =
    if text_eq path (codes "oath-policy.toml")
    then some (codes "colors")
    else some (codes "node-ipc")

abbrev home : Option Text
home = some (codes "/root")

abbrev loaded : OathPolicy
loaded = load parse home read

banned-load_example :
    (is_package_banned loaded (codes "Colors")
      ≡ names (listed (λ r. r.banned_packages) (global parse home read)) (codes "Colors")
        || names (listed (λ r. r.banned_packages) (local parse home read)) (codes "Colors"))
    × (is_license_banned loaded (codes "Colors")
        ≡ names (listed (λ r. r.banned_licenses) (global parse home read)) (codes "Colors")
          || names (listed (λ r. r.banned_licenses) (local parse home read)) (codes "Colors"))
banned-load_example = banned-load parse home read (codes "Colors")

allows_install_script-load_example :
    allows_install_script loaded (codes "sharp")
    ≡ names (listed (λ r. r.allow_install_scripts) (global parse home read)) (codes "sharp")
      || names (listed (λ r. r.allow_install_scripts) (local parse home read)) (codes "sharp")
      || not (
          override
            (set (λ r. r.block_install_scripts) (local parse home read))
            (override (set (λ r. r.block_install_scripts) (global parse home read)) false))
allows_install_script-load_example = allows_install_script-load parse home read (codes "sharp")

load-AllDistinct_example : AllDistinct loaded
load-AllDistinct_example = load-AllDistinct parse home read

max_risk-display_example : max_risk (record default { max_risk_level = codes "HIGH" }) ≡ high
unfolding eq_ignore_ascii_case display text_eq
max_risk-display_example =
    max_risk-display (record default { max_risk_level = codes "HIGH" }) high refl
