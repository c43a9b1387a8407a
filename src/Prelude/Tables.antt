-- ===== src/Prelude/Tables.antt =====
-- Tables as lists of rows: the first row that passes a test, and an update of all that do.
use Prim.Native.Nat.{ℕ, zero, suc}
use mathlib.Core.Path.{◌≡◌, refl, sym, ◌∙◌}
use mathlib.Core.Logic.{◌⊎◌, inl, inr}
use mathlib.Core.Bool.{Bool, true, false}
use mathlib.Core.Option.{Option, none, some}
use mathlib.Core.List.{List, [], ◌∷◌, ◌++◌}
use native.Mathlib.Omega.{arith}
use oath.Prelude.Tests.{Bool-cases, if◌then◌else◌}
use oath.Prelude.Lists.{All, get_elem?}

-- `SELECT … WHERE`, of one row
unfoldable pub find {ℓ} : {A : Type ℓ} → (A → Bool) → List A → Option A
find p [] = none
find p (x ∷ xs) = if p x then some x else find p xs

-- `UPDATE … SET … WHERE`
unfoldable pub update_where {ℓ} : {A : Type ℓ} → (A → Bool) → (A → A) → List A → List A
update_where p f [] = []
update_where p f (x ∷ xs) = (if p x then f x else x) ∷ update_where p f xs

-- `DELETE … WHERE`
unfoldable pub delete_where {ℓ} : {A : Type ℓ} → (A → Bool) → List A → List A
delete_where p [] = []
delete_where p (x ∷ xs) = let rest = delete_where p xs in if p x then rest else x ∷ rest

-- `SELECT … WHERE`, of all rows
unfoldable pub select {ℓ} : {A : Type ℓ} → (A → Bool) → List A → List A
select p [] = []
select p (x ∷ xs) = let rest = select p xs in if p x then x ∷ rest else rest

abbrev pub is_some {ℓ} : {A : Type ℓ} → Option A → Bool
is_some none = false
is_some (some a) = true

-- What an update makes of a row that was found.
abbrev pub updated {ℓ} : {A : Type ℓ} → (A → Bool) → (A → A) → Option A → Option A
updated q f none = none
updated q f (some x) = some (if q x then f x else x)

module _ {ℓ} {A : Type ℓ} where
  -- A row that is found stays the one found when a row is added behind.
  updated-some :
      (q : A → Bool) (f : A → A) (o : Option A) (y : A)
      → updated q f o ≡ some y
      → (x : A) × (o ≡ some x) × ((if q x then f x else x) ≡ y)
  updated-some q f none y h = cc
  updated-some q f (some x) y h = (x, refl, cc)

  pub find-append :
      (p : A → Bool) (xs ys : List A) (x : A) → find p xs ≡ some x → find p (xs ++ ys) ≡ some x
  unfolding find
  find-append p [] ys x h = cc
  find-append p (y ∷ xs) ys x h = ground (arith, find-append p xs ys x)

  pub find-append_none :
      (p : A → Bool) (xs ys : List A) → find p xs ≡ none → find p (xs ++ ys) ≡ find p ys
  unfolding find
  find-append_none p [] ys h = refl
  find-append_none p (y ∷ xs) ys h = ground (arith, find-append_none p xs ys)

  -- A row found after one is added was found before, or is that one.
  pub find-append-cases :
      (p : A → Bool) (xs : List A) (x y : A)
      → find p (xs ++ x ∷ []) ≡ some y
      → (find p xs ≡ some y) ⊎ (x ≡ y)
  unfolding find
  find-append-cases p [] x y h = elim (Bool-cases (p x)) [
    | inl e ↦ let k : x ≡ y = ground (arith, h, e) in inr k
    | inr e ↦ ground (arith, h, e)
  ]
  find-append-cases p (z ∷ xs) x y h = elim (Bool-cases (p z)) [
    | inl e ↦ inl (ground (arith, h, e))
    | inr e ↦ let rest = find-append-cases p xs x y (rw e at h) in rw e rest
  ]

  pub find-one : (p : A → Bool) (x : A) → p x ≡ true → find p (x ∷ []) ≡ some x
  unfolding find
  find-one p x h = rw h refl

  -- An update that does not change what the search asks for updates the row found.
  pub find-update_where :
      (p q : A → Bool) (f : A → A) (xs : List A)
      → ((x : A) → p (f x) ≡ p x)
      → find p (update_where q f xs) ≡ updated q f (find p xs)
  unfolding find update_where
  find-update_where p q f [] h = refl
  find-update_where p q f (x ∷ xs) h = ground (arith, h x, find-update_where p q f xs h)

  pub find-updated :
      (p q : A → Bool) (f : A → A) (xs : List A) (y : A)
      → ((x : A) → p (f x) ≡ p x)
      → find p (update_where q f xs) ≡ some y
      → (x : A) × (find p xs ≡ some x) × ((if q x then f x else x) ≡ y)
  find-updated p q f xs y k h =
      updated-some q f (find p xs) y (sym (find-update_where p q f xs k) ∙ h)

  -- The row found passes the test.
  pub find-passes : (p : A → Bool) (xs : List A) (x : A) → find p xs ≡ some x → p x ≡ true
  unfolding find
  find-passes p [] x h = cc
  find-passes p (y ∷ xs) x h = ground (arith, h, find-passes p xs x)

  -- A row found by one test is not missed by another that it passes.
  pub find-missed :
      (p q : A → Bool) (xs : List A) (x : A)
      → find p xs ≡ some x
      → find q xs ≡ none
      → q x ≡ true
      → ⊥
  unfolding find
  find-missed p q [] x e m t = cc
  find-missed p q (y ∷ xs) x e m t = elim (Bool-cases (q y)) [
    | inl k ↦ let z : some y ≡ none = rw k at m in cc
    | inr k ↦ elim (Bool-cases (p y)) [
      | inl l ↦ let z : y ≡ x = ground (arith, e, l) in absurd (ground (arith, z, t, k))
      | inr l ↦ find-missed p q xs x (rw l at e) (rw k at m) t
    ]
  ]

  pub All-append {κ} :
      (P : A → Type κ) (xs : List A) (x : A) → All P xs → P x → All P (xs ++ x ∷ [])
  All-append P [] x h p = (p, tt)
  All-append P (y ∷ xs) x (q, h) p = (q, All-append P xs x h p)

  pub All-update_where {κ ι} :
      (P : A → Type κ) (Q : A → Type ι) (q : A → Bool) (f : A → A) (xs : List A)
      → ((x : A) → P x → Q (if q x then f x else x))
      → All P xs
      → All Q (update_where q f xs)
  unfolding update_where
  All-update_where P Q q f [] k h = tt
  All-update_where P Q q f (x ∷ xs) k (p, h) = (k x p, All-update_where P Q q f xs k h)

  pub All-delete_where {κ} :
      (P : A → Type κ) (q : A → Bool) (xs : List A)
      → All P xs
      → All (λ x. P x × (q x ≡ false)) (delete_where q xs)
  unfolding delete_where
  All-delete_where P q [] h = tt
  All-delete_where P q (x ∷ xs) (p, h) = elim (Bool-cases (q x)) [
    | inl e ↦ rw e (All-delete_where P q xs h)
    | inr e ↦ rw e ((p, e), All-delete_where P q xs h)
  ]

  -- What a selection holds passes its test.
  pub All-select {κ} :
      (P : A → Type κ) (q : A → Bool) (xs : List A)
      → All P xs
      → All (λ x. P x × (q x ≡ true)) (select q xs)
  unfolding select
  All-select P q [] h = tt
  All-select P q (x ∷ xs) (p, h) = elim (Bool-cases (q x)) [
    | inl e ↦ rw e ((p, e), All-select P q xs h)
    | inr e ↦ rw e (All-select P q xs h)
  ]

  pub All-map {κ ι} :
      (P : A → Type κ) (Q : A → Type ι) (xs : List A) → ((x : A) → P x → Q x) → All P xs → All Q xs
  All-map P Q [] k h = tt
  All-map P Q (x ∷ xs) k (p, h) = (k x p, All-map P Q xs k h)

  pub All-get_elem? {κ} :
      (P : A → Type κ) (xs : List A) (i : ℕ) (x : A) → get_elem? xs i ≡ some x → All P xs → P x
  All-get_elem? P [] i x e h = cc
  All-get_elem? P (y ∷ xs) zero x e (p, h) = let f : y ≡ x = cc in rw f at p
  All-get_elem? P (y ∷ xs) (suc i) x e (p, h) = All-get_elem? P xs i x e h

  pub All-of {κ} : (P : A → Type κ) (xs : List A) → ((x : A) → P x) → All P xs
  All-of P [] h = tt
  All-of P (x ∷ xs) h = (h x, All-of P xs h)

  pub find-All_none : (p : A → Bool) (xs : List A) → All (λ x. p x ≡ false) xs → find p xs ≡ none
  unfolding find
  find-All_none p [] h = refl
  find-All_none p (x ∷ xs) (e, h) = rw e (find-All_none p xs h)

  -- What passes one test passes a weaker one.
  pub find-weaker :
      (p q : A → Bool) (xs : List A) (y : A)
      → ((x : A) → p x ≡ true → q x ≡ true)
      → find p xs ≡ some y
      → is_some (find q xs) ≡ true
  unfolding find
  find-weaker p q [] y w h = cc
  find-weaker p q (x ∷ xs) y w h = elim (Bool-cases (p x)) [
    | inl e ↦ rw (w x e) refl
    | inr e ↦
        let rest = find-weaker p q xs y w (rw e at h) in
        elim (Bool-cases (q x)) [ inl f ↦ rw f refl | inr f ↦ rw f rest ]
  ]
