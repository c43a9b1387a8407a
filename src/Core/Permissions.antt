-- ===== src/Core/Permissions.antt =====
-- crates/oath-core/src/permissions.rs: the permissions that a package declares, and their risk.
mod Laws
mod Runs
use oath.Prelude.{
  ℕ, ◌&&◌, ◌||◌, Bool, true, false, not, if◌then◌else◌, List, [], ◌∷◌, ◌++◌, Text, codes,
}

pub record Permissions : Type 0 where
  pub net : List Text
  pub fs_read : List Text
  pub fs_write : List Text
  pub env : List Text
  pub run : List Text
  pub ffi : Bool
  pub install_scripts : Bool

pub data RiskLevel : Type 0 where
  none low medium high critical : RiskLevel

-- `slice.is_empty()`
abbrev pub is_empty : List Text → Bool
is_empty [] = true
is_empty (x ∷ xs) = false

pub is_sandboxed : Permissions → Bool
is_sandboxed p =
    is_empty p.net
    && is_empty p.fs_read
    && is_empty p.fs_write
    && is_empty p.env
    && is_empty p.run
    && not p.ffi
    && not p.install_scripts

-- `list.join(", ")`
pub join : List Text → Text
join [] = []
join (x ∷ []) = x
join (x ∷ y ∷ ys) = x ++ codes ", " ++ join (y ∷ ys)

-- `if test { lines.push(line); }`
abbrev pub push_if : Bool → Text → List Text → List Text
push_if test line lines = if test then lines ++ line ∷ [] else lines

pub summary : Permissions → List Text
summary p =
    let l1 = push_if (not (is_empty p.net)) (codes "network: " ++ join p.net) [] in
    let l2 = push_if (not (is_empty p.fs_read)) (codes "read: " ++ join p.fs_read) l1 in
    let l3 = push_if (not (is_empty p.fs_write)) (codes "write: " ++ join p.fs_write) l2 in
    let l4 = push_if (not (is_empty p.env)) (codes "env: " ++ join p.env) l3 in
    let l5 = push_if (not (is_empty p.run)) (codes "exec: " ++ join p.run) l4 in
    let l6 = push_if p.ffi (codes "ffi: YES (native code)") l5 in
    let l7 = push_if p.install_scripts (codes "install scripts: YES") l6 in
    if is_empty l7 then l7 ++ codes "pure (no system access)" ∷ [] else l7

pub risk_level : Permissions → RiskLevel
risk_level p =
    if p.ffi || p.install_scripts
    then high
    else if not (is_empty p.net) || not (is_empty p.fs_write) || not (is_empty p.run)
    then medium
    else if not (is_empty p.fs_read) || not (is_empty p.env)
    then low
    else none
