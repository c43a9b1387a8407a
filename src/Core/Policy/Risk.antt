-- ===== src/Core/Policy/Risk.antt =====
-- Reading risk levels and names without regard to case.
use oath.Prelude.{◌≡◌, refl, ap, ◌∙◌, true, any, map, Text, text_eq, text_eq_iff}
use oath.Core.Policy.{
  RiskLevel, clean, info, low, medium, high, critical, display, OathPolicy, to_ascii_lowercase,
  eq_ignore_ascii_case, is_package_banned, is_license_banned, max_risk,
}

max_risk-of :
    (p : OathPolicy) (l : RiskLevel)
    → map to_ascii_lowercase p.max_risk_level ≡ display l
    → max_risk p ≡ l
unfolding max_risk display text_eq
max_risk-of p clean e = rw e refl
max_risk-of p info e = rw e refl
max_risk-of p low e = rw e refl
max_risk-of p medium e = rw e refl
max_risk-of p high e = rw e refl
max_risk-of p critical e = rw e refl

lower-display : (l : RiskLevel) → map to_ascii_lowercase (display l) ≡ display l
unfolding display
lower-display clean = refl
lower-display info = refl
lower-display low = refl
lower-display medium = refl
lower-display high = refl
lower-display critical = refl

-- `max_risk` reads back what `Display` writes, in any case of the letters.
pub max_risk-display :
    (p : OathPolicy) (l : RiskLevel)
    → eq_ignore_ascii_case p.max_risk_level (display l) ≡ true
    → max_risk p ≡ l
unfolding eq_ignore_ascii_case
max_risk-display p l h = max_risk-of p l ((text_eq_iff _ _).0 h ∙ lower-display l)

-- Names that differ in the case of ASCII letters alone are banned alike.
banned-ignores_case :
    (p : OathPolicy) (s t : Text)
    → eq_ignore_ascii_case s t ≡ true
    → (is_package_banned p s ≡ is_package_banned p t)
      × (is_license_banned p s ≡ is_license_banned p t)
unfolding eq_ignore_ascii_case is_package_banned is_license_banned
banned-ignores_case p s t h =
    let e : map to_ascii_lowercase s ≡ map to_ascii_lowercase t = (text_eq_iff _ _).0 h in
    (
      ap (λ u. any (λ b. text_eq (map to_ascii_lowercase b) u) p.banned_packages) e,
      ap (λ u. any (λ b. text_eq (map to_ascii_lowercase b) u) p.banned_licenses) e,
    )
