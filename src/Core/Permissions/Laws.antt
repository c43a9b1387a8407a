-- ===== src/Core/Permissions/Laws.antt =====
-- Permissions, their risk and their summary agree.
use oath.Prelude.{ℕ, ◌≤◌, ◌≡◌, ◌↔◌, true, arith, List, [], ◌∷◌, Text, codes}
use oath.Core.Permissions.{
  Permissions, RiskLevel, none, low, medium, high, critical, is_empty, is_sandboxed, summary,
  risk_level,
}

-- The derived order of the levels.
abbrev pub rank : RiskLevel → ℕ
rank none = 0
rank low = 1
rank medium = 2
rank high = 3
rank critical = 4

-- A package without permissions is exactly one without risk.
is_sandboxed-risk : (p : Permissions) → (is_sandboxed p ≡ true) ↔ (risk_level p ≡ none)
unfolding is_sandboxed risk_level
is_sandboxed-risk p = (λ h. ground (arith, h), λ h. ground (arith, h))

-- A list that has something where another has something.
abbrev pub Covers : List Text → List Text → Type 0
Covers xs ys = is_empty ys ≡ true → is_empty xs ≡ true

pub record IsWithin (p q : Permissions) : Type 0 where
  pub net : Covers p.net q.net
  pub fs_read : Covers p.fs_read q.fs_read
  pub fs_write : Covers p.fs_write q.fs_write
  pub env : Covers p.env q.env
  pub run : Covers p.run q.run
  pub ffi : p.ffi ≡ true → q.ffi ≡ true
  pub install_scripts : p.install_scripts ≡ true → q.install_scripts ≡ true

-- Asking for more is never less of a risk: a kind of access that is added cannot lower the level.
pub risk_level-le : (p q : Permissions) → IsWithin p q → rank (risk_level p) ≤ rank (risk_level q)
unfolding risk_level
risk_level-le p q h = ground (arith, h)

-- The summary says that a package is pure exactly where it has no permission.
summary-pure :
    (p : Permissions) → (summary p ≡ codes "pure (no system access)" ∷ []) ↔ (is_sandboxed p ≡ true)
unfolding summary is_sandboxed
summary-pure p = (λ h. ground (arith, h), λ h. ground (arith, h))
