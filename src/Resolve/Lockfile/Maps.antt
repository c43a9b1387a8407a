-- ===== src/Resolve/Lockfile/Maps.antt =====
-- Lookups in maps that are filled by insertion.
use oath.Prelude.Maps.{lookup, Map}
use oath.Prelude.{
  ◌≡◌, refl, sym, ap, ◌∙◌, inl, inr, Bool, true, false, if◌then◌else◌, Option, none, some, [], ◌∷◌,
  Text, text_eq, text_eq_iff, text_eq_sym, Bool-cases,
}
use oath.Resolve.Lockfile.{insert, insert_all}

-- Each key stands once.
abbrev pub IsMap {ℓ} : {A : Type ℓ} → Map A → Type ℓ
IsMap [] = Unit
IsMap (x ∷ xs) = (lookup x.0 xs ≡ none) × IsMap xs

abbrev pub or_else {ℓ} : {A : Type ℓ} → Option A → Option A → Option A
or_else none o = o
or_else (some a) o = some a

abbrev pub map_some {ℓ κ} : {A : Type ℓ} {B : Type κ} → (A → B) → Option A → Option B
map_some f none = none
map_some f (some a) = some (f a)

module _ {ℓ} {A : Type ℓ} where
  if-twice :
      (test : Bool) (o p q : Option A)
      → (if test then o else q) ≡ (if test then o else (if test then p else q))
  if-twice true o p q = refl
  if-twice false o p q = refl

  pub lookup-insert :
      (j k : Text) (a : A) (m : Map A)
      → lookup j (insert k a m) ≡ (if text_eq k j then some a else lookup j m)
  unfolding lookup insert
  lookup-insert j k a [] = refl
  lookup-insert j k a (x ∷ xs) = elim (Bool-cases (text_eq x.0 k)) [
    | inl e ↦
        rw (e, (text_eq_iff x.0 k).0 e) (if-twice (text_eq k j) (some a) (some x.1) (lookup j xs))
    | inr e ↦ elim (Bool-cases (text_eq x.0 j)) [
      | inl f ↦
          let g = text_eq_sym k j ∙ ap (λ u. text_eq u k) (sym ((text_eq_iff x.0 j).0 f)) ∙ e in
          rw (e, f, g) refl
      | inr f ↦ rw (e, f) (lookup-insert j k a xs)
    ]
  ]

  insert-IsMap : (k : Text) (a : A) (m : Map A) → IsMap m → IsMap (insert k a m)
  unfolding insert lookup
  insert-IsMap k a [] h = (refl, tt)
  insert-IsMap k a (x ∷ xs) (n, h) = elim (Bool-cases (text_eq x.0 k)) [
    | inl e ↦ rw (e, IsMap) (ap (λ u. lookup u xs) (sym ((text_eq_iff x.0 k).0 e)) ∙ n, h)
    | inr e ↦
        rw (e, IsMap)
          (lookup-insert x.0 k a xs ∙ rw (text_eq_sym k x.0 ∙ e) n, insert-IsMap k a xs h)
  ]

module _ {ℓ κ} {A : Type ℓ} {B : Type κ} (f : Text → A → B) where
  pub insert_all-IsMap : (m : Map A) (out : Map B) → IsMap out → IsMap (insert_all f m out)
  unfolding insert_all
  insert_all-IsMap [] out h = h
  insert_all-IsMap (x ∷ xs) out h =
      insert_all-IsMap xs (insert x.0 (f x.0 x.1) out) (insert-IsMap x.0 (f x.0 x.1) out h)

  pub lookup-insert_all :
      (j : Text) (m : Map A) (out : Map B)
      → IsMap m
      → lookup j (insert_all f m out) ≡ or_else (map_some (f j) (lookup j m)) (lookup j out)
  unfolding insert_all lookup
  lookup-insert_all j [] out h = refl
  lookup-insert_all j (x ∷ xs) out (n, h) =
      lookup-insert_all j xs (insert x.0 (f x.0 x.1) out) h ∙ elim (Bool-cases (text_eq x.0 j)) [
        | inl e ↦
            let same = (text_eq_iff x.0 j).0 e in
            let fresh = ap (λ u. lookup u xs) (sym same) ∙ n in
            rw (lookup-insert j x.0 (f x.0 x.1) out, e, fresh) (ap (λ u. some (f u x.1)) same)
        | inr e ↦ rw (lookup-insert j x.0 (f x.0 x.1) out, e) refl
      ]
