-- ===== src/Prelude/Unions.antt =====
-- Lists that a loop extends with what is not in them yet, and `any` over joined lists.
use mathlib.Core.Path.{◌≡◌, refl}
use mathlib.Core.Logic.{inl, inr}
use mathlib.Core.Bool.{Bool, true, false, not, ◌&&◌, ◌||◌}
use mathlib.Core.List.{List, [], ◌∷◌, ◌++◌}
use native.Mathlib.Omega.{arith}
use oath.Prelude.Tests.{Bool-cases, if◌then◌else◌}
use oath.Prelude.Lists.{any}
use oath.Prelude.Texts.{Text, text_eq, text_eq_iff, text_eq_sym, contains_text}

-- `for x in xs { if !list.contains(&x) { list.push(x); } }`
pub extend_missing : List Text → List Text → List Text
unfolding contains_text
extend_missing list [] = list
extend_missing list (x ∷ xs) =
    extend_missing (if contains_text list x then list else list ++ x ∷ []) xs

-- No text stands twice.
unfoldable pub all_distinct : List Text → Bool
unfolding contains_text
all_distinct [] = true
all_distinct (x ∷ xs) = not (contains_text xs x) && all_distinct xs

pub any-append {ℓ} :
    {A : Type ℓ} (p : A → Bool) (xs ys : List A) → any p (xs ++ ys) ≡ any p xs || any p ys
any-append p [] ys = refl
any-append p (x ∷ xs) ys = ground (arith, any-append p xs ys)

-- What a list contains passes every test that the list fails for none.
any-contained :
    (p : Text → Bool) (xs : List Text) (x : Text)
    → contains_text xs x ≡ true
    → p x ≡ true
    → any p xs ≡ true
unfolding contains_text
any-contained p [] x h k = cc
any-contained p (y ∷ ys) x h k = elim (Bool-cases (text_eq y x)) [
  | inl e ↦ rw ((text_eq_iff y x).0 e, k) refl
  | inr e ↦ ground (arith, e, any-contained p ys x (ground (arith, e, h)) k)
]

any-push :
    (p : Text → Bool) (list : List Text) (x : Text)
    → any p (if contains_text list x then list else list ++ x ∷ []) ≡ any p list || p x
any-push p list x = elim (Bool-cases (contains_text list x)) [
  | inl e ↦ rw e (ground (arith, any-contained p list x e))
  | inr e ↦ rw e (ground (arith, any-append p list (x ∷ [])))
]

pub any-extend_missing :
    (p : Text → Bool) (list xs : List Text)
    → any p (extend_missing list xs) ≡ any p list || any p xs
unfolding extend_missing
any-extend_missing p list [] = ground arith
any-extend_missing p list (x ∷ xs) = ground (
  arith,
  any-extend_missing p (if contains_text list x then list else list ++ x ∷ []) xs,
  any-push p list x,
)

pub contains-any : (xs : List Text) (x : Text) → contains_text xs x ≡ any (λ y. text_eq y x) xs
unfolding contains_text
contains-any [] x = refl
contains-any (y ∷ ys) x = ground (arith, contains-any ys x)

pub contains-extend_missing :
    (list xs : List Text) (x : Text)
    → contains_text (extend_missing list xs) x ≡ contains_text list x || contains_text xs x
contains-extend_missing list xs x =
    rw (contains-any (extend_missing list xs) x, contains-any list x, contains-any xs x)
      (any-extend_missing (λ y. text_eq y x) list xs)

contains-append :
    (xs ys : List Text) (x : Text)
    → contains_text (xs ++ ys) x ≡ contains_text xs x || contains_text ys x
contains-append xs ys x =
    rw (contains-any (xs ++ ys) x, contains-any xs x, contains-any ys x)
      (any-append (λ y. text_eq y x) xs ys)

distinct-push :
    (list : List Text) (x : Text)
    → all_distinct list ≡ true
    → contains_text list x ≡ false
    → all_distinct (list ++ x ∷ []) ≡ true
unfolding all_distinct contains_text
distinct-push [] x h k = refl
distinct-push (y ∷ ys) x h k =
    ground (arith, h, k, distinct-push ys x, contains-append ys (x ∷ []) y, text_eq_sym y x)

pub extend_missing-distinct :
    (xs list : List Text) → all_distinct list ≡ true → all_distinct (extend_missing list xs) ≡ true
unfolding extend_missing
extend_missing-distinct [] list h = h
extend_missing-distinct (x ∷ xs) list h =
    extend_missing-distinct xs (if contains_text list x then list else list ++ x ∷ [])
      (elim (Bool-cases (contains_text list x)) [
        | inl e ↦ rw e h
        | inr e ↦ rw e (distinct-push list x h e)
      ])
