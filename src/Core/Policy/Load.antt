-- ===== src/Core/Policy/Load.antt =====
-- What the layers of `OathPolicy::load` add up to.
use oath.Prelude.{
  ◌||◌, Bool, true, false, not, arith, any, Option, none, some, List, [], Text, codes, ◌≡◌, refl,
}
use oath.Prelude.Unions.{any-extend_missing, all_distinct, extend_missing-distinct}
use oath.Core.Policy.{
  RawPolicy, OathPolicy, default, override, merge, layer, merge_layer, read_global, load,
  eq_ignore_ascii_case, is_package_banned, is_license_banned, allows_install_script,
}

-- Whether one of the texts is the name, but for ASCII case.
abbrev pub names : List Text → Text → Bool
names xs name = any (λ x. eq_ignore_ascii_case x name) xs

-- A list of a layer; a layer that could not be read has none.
abbrev pub listed : (RawPolicy → List Text) → Option RawPolicy → List Text
listed field none = []
listed field (some raw) = field raw

-- A scalar of a layer, where the layer sets it.
abbrev pub set {ℓ} : {A : Type ℓ} → (RawPolicy → Option A) → Option RawPolicy → Option A
set field none = none
set field (some raw) = field raw

module _ (parse : Text → Option RawPolicy) (home : Option Text) (read : Text → Option Text) where
  abbrev pub global : Option RawPolicy
  global = layer parse (read_global home read)

  abbrev pub local : Option RawPolicy
  local = layer parse (read (codes "oath-policy.toml"))

banned_packages-merge_layer :
    (p : OathPolicy) (l : Option RawPolicy) (name : Text)
    → names (merge_layer p l).banned_packages name
      ≡ names p.banned_packages name || names (listed (λ r. r.banned_packages) l) name
unfolding merge_layer merge
banned_packages-merge_layer p none name = ground arith
banned_packages-merge_layer p (some raw) name =
    any-extend_missing _ p.banned_packages raw.banned_packages

banned_licenses-merge_layer :
    (p : OathPolicy) (l : Option RawPolicy) (name : Text)
    → names (merge_layer p l).banned_licenses name
      ≡ names p.banned_licenses name || names (listed (λ r. r.banned_licenses) l) name
unfolding merge_layer merge
banned_licenses-merge_layer p none name = ground arith
banned_licenses-merge_layer p (some raw) name =
    any-extend_missing _ p.banned_licenses raw.banned_licenses

allow_install_scripts-merge_layer :
    (p : OathPolicy) (l : Option RawPolicy) (name : Text)
    → names (merge_layer p l).allow_install_scripts name
      ≡ names p.allow_install_scripts name || names (listed (λ r. r.allow_install_scripts) l) name
unfolding merge_layer merge
allow_install_scripts-merge_layer p none name = ground arith
allow_install_scripts-merge_layer p (some raw) name =
    any-extend_missing _ p.allow_install_scripts raw.allow_install_scripts

block-merge_layer :
    (p : OathPolicy) (l : Option RawPolicy)
    → (merge_layer p l).block_install_scripts
      ≡ override (set (λ r. r.block_install_scripts) l) p.block_install_scripts
unfolding merge_layer merge
block-merge_layer p none = refl
block-merge_layer p (some raw) = refl

-- A package or a license is banned after `load` exactly where the global or the local layer names
-- it: no layer lifts a ban of the other.
pub banned-load :
    (parse : Text → Option RawPolicy) (home : Option Text) (read : Text → Option Text) (name : Text)
    → (is_package_banned (load parse home read) name
        ≡ names (listed (λ r. r.banned_packages) (global parse home read)) name
          || names (listed (λ r. r.banned_packages) (local parse home read)) name)
      × (is_license_banned (load parse home read) name
          ≡ names (listed (λ r. r.banned_licenses) (global parse home read)) name
            || names (listed (λ r. r.banned_licenses) (local parse home read)) name)
unfolding load is_package_banned is_license_banned
banned-load parse home read name =
    let p = merge_layer default (global parse home read) in
    (
      ground (
        arith,
        banned_packages-merge_layer default (global parse home read) name,
        banned_packages-merge_layer p (local parse home read) name,
      ),
      ground (
        arith,
        banned_licenses-merge_layer default (global parse home read) name,
        banned_licenses-merge_layer p (local parse home read) name,
      ),
    )

-- A package may run install scripts after `load` exactly where a layer allows it by name, or where
-- the last layer that sets `block_install_scripts`, the local one first, does not block.
pub allows_install_script-load :
    (parse : Text → Option RawPolicy) (home : Option Text) (read : Text → Option Text) (name : Text)
    → allows_install_script (load parse home read) name
      ≡ names (listed (λ r. r.allow_install_scripts) (global parse home read)) name
        || names (listed (λ r. r.allow_install_scripts) (local parse home read)) name
        || not (
            override
              (set (λ r. r.block_install_scripts) (local parse home read))
              (override (set (λ r. r.block_install_scripts) (global parse home read)) false))
unfolding load allows_install_script
allows_install_script-load parse home read name =
    let p = merge_layer default (global parse home read) in
    ground (
      arith,
      allow_install_scripts-merge_layer default (global parse home read) name,
      allow_install_scripts-merge_layer p (local parse home read) name,
      block-merge_layer default (global parse home read),
      block-merge_layer p (local parse home read),
    )

pub AllDistinct : OathPolicy → Type 0
AllDistinct p =
    (all_distinct p.banned_packages ≡ true)
    × (all_distinct p.banned_licenses ≡ true)
    × (all_distinct p.require_approval ≡ true)
    × (all_distinct p.allow_install_scripts ≡ true)

merge_layer-AllDistinct :
    (p : OathPolicy) (l : Option RawPolicy) → AllDistinct p → AllDistinct (merge_layer p l)
unfolding AllDistinct merge_layer merge
merge_layer-AllDistinct p none h = h
merge_layer-AllDistinct p (some raw) (b, l, a, s) = (
  extend_missing-distinct raw.banned_packages _ b,
  extend_missing-distinct raw.banned_licenses _ l,
  extend_missing-distinct raw.require_approval _ a,
  extend_missing-distinct raw.allow_install_scripts _ s,
)

-- No list of a loaded policy names anything twice.
pub load-AllDistinct :
    (parse : Text → Option RawPolicy) (home : Option Text) (read : Text → Option Text)
    → AllDistinct (load parse home read)
unfolding load
load-AllDistinct parse home read = merge_layer-AllDistinct _ _ (
    merge_layer-AllDistinct default _ (unfold AllDistinct all_distinct in (refl, refl, refl, refl)))
