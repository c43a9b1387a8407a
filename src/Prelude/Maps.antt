-- ===== src/Prelude/Maps.antt =====
-- Maps as lists of entries with texts for keys.
use oath.Prelude.{Option, none, some, List, [], ◌∷◌, if◌then◌else◌, Text, text_eq}

abbrev pub Map {ℓ} : Type ℓ → Type ℓ
Map A = List (Text × A)

-- `get`
unfoldable pub lookup {ℓ} : {A : Type ℓ} → Text → Map A → Option A
lookup key [] = none
lookup key (x ∷ xs) = if text_eq x.0 key then some x.1 else lookup key xs
