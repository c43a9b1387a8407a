-- ===== src/Registry/Control/Limits/Runs.antt =====
-- Two subjects and two windows of a minute.
use oath.Prelude.{◌≡◌, refl, min, ◌-◌, List, [], ◌∷◌, codes, text_eq}
use oath.Registry.Control.Limits.{upsert, consume_rate_limit}
use oath.Registry.Control.Limits.Allowed.{Request, requested, allowed, current, allowed-min}

abbrev requests : List Request
requests =
    record { subject_hash = codes "a"; now = 61 }
    ∷ record { subject_hash = codes "b"; now = 62 }
    ∷ record { subject_hash = codes "a"; now = 100 }
    ∷ record { subject_hash = codes "a"; now = 119 }
    ∷ record { subject_hash = codes "a"; now = 120 }
    ∷ []

allowed-min_example :
    allowed (codes "a") 60 (codes "api-minute") 2 60 requests []
    ≡ min
        (requested (codes "a") 60 60 requests)
        (2 - current (codes "a") (codes "api-minute") 60 [])
allowed-min_example = allowed-min (codes "a") 60 (codes "api-minute") 2 60 requests []

allowed_run : allowed (codes "a") 60 (codes "api-minute") 2 60 requests [] ≡ 2
unfolding allowed consume_rate_limit upsert text_eq
allowed_run = refl
