-- ===== src/Cli/Approvals/Remembered.antt =====
-- What is approved after `remember`.
use oath.Prelude.{
  ◌≡◌, refl, ◌∙◌, inl, inr, ◌||◌, Bool, true, false, arith, any, if◌then◌else◌, Option, some, List,
  [], ◌∷◌, ◌++◌, Text, text_eq_iff, Bool-cases,
}
use oath.Prelude.Unions.{any-append}
use oath.Cli.Approvals.{
  ExecApproval, ApprovalFile, texts_eq, bool_eq, approval_eq, holds, insert, sort, load,
  contains_approval, remember,
}

any-insert :
    (p : ExecApproval → Bool) (x : ExecApproval) (ys : List ExecApproval)
    → any p (insert x ys) ≡ p x || any p ys
unfolding insert
any-insert p x [] = refl
any-insert p x (y ∷ ys) = ground (arith, any-insert p x ys)

any-sort : (p : ExecApproval → Bool) (xs : List ExecApproval) → any p (sort xs) ≡ any p xs
unfolding sort
any-sort p [] = refl
any-sort p (x ∷ xs) = ground (arith, any-insert p x (sort xs), any-sort p xs)

texts_eq-eq : (xs ys : List Text) → texts_eq xs ys ≡ true → xs ≡ ys
unfolding texts_eq
texts_eq-eq [] [] h = refl
texts_eq-eq [] (y ∷ ys) h = absurd (ground (arith, h))
texts_eq-eq (x ∷ xs) [] h = absurd (ground (arith, h))
texts_eq-eq (x ∷ xs) (y ∷ ys) h =
    let e = (text_eq_iff x y).0 (ground (arith, h)) in
    let r = texts_eq-eq xs ys (ground (arith, h)) in rw (e, r) refl

bool_eq-eq : (b c : Bool) → bool_eq b c ≡ true → b ≡ c
bool_eq-eq true c h = ground (arith, h)
bool_eq-eq false c h = ground (arith, h)

approval_eq-eq : (x y : ExecApproval) → approval_eq x y ≡ true → x ≡ y
unfolding approval_eq
approval_eq-eq x y h =
    let p = (text_eq_iff x.package_name y.package_name).0 (ground (arith, h)) in
    let v = (text_eq_iff x.version y.version).0 (ground (arith, h)) in
    let i = (text_eq_iff x.integrity y.integrity).0 (ground (arith, h)) in
    let c = texts_eq-eq x.capabilities y.capabilities (ground (arith, h)) in
    let s = (text_eq_iff x.sandbox_backend y.sandbox_backend).0 (ground (arith, h)) in
    let d = bool_eq-eq x.deny_network y.deny_network (ground (arith, h)) in
    let x1 : ExecApproval = record {
      package_name = x.package_name;
      version = x.version;
      integrity = x.integrity;
      capabilities = x.capabilities;
      sandbox_backend = x.sandbox_backend;
      deny_network = x.deny_network;
    } in
    let y1 : ExecApproval = record {
      package_name = y.package_name;
      version = y.version;
      integrity = y.integrity;
      capabilities = y.capabilities;
      sandbox_backend = y.sandbox_backend;
      deny_network = y.deny_network;
    } in
    let e : x1 ≡ y1 = rw (p, v, i, c, s, d) refl in e

any-held :
    (p : ExecApproval → Bool) (xs : List ExecApproval) (x : ExecApproval)
    → holds xs x ≡ true
    → p x ≡ true
    → any p xs ≡ true
any-held p [] x h k = absurd (ground (arith, h))
any-held p (y ∷ ys) x h k = elim (Bool-cases (approval_eq y x)) [
  | inl e ↦ rw (approval_eq-eq y x e, k) refl
  | inr e ↦ ground (arith, e, any-held p ys x (ground (arith, e, h)) k)
]

any-add :
    (p : ExecApproval → Bool) (xs : List ExecApproval) (x : ExecApproval)
    → any p (if holds xs x then xs else xs ++ x ∷ []) ≡ any p xs || p x
any-add p xs x = elim (Bool-cases (holds xs x)) [
  | inl e ↦ rw e (ground (arith, any-held p xs x e))
  | inr e ↦ rw e (ground (arith, any-append p xs (x ∷ [])))
]

-- Where the store is valid and what is printed is read back, `remember` writes a store that approves
-- exactly what was approved before and what is remembered: an approval for another version,
-- integrity, set of capabilities or sandbox does not count.
pub contains-remember :
    (parse : Text → Option ApprovalFile) (print : ApprovalFile → Text) (store : Option Text)
    (f : ApprovalFile) (x y : ExecApproval)
    → ((g : ApprovalFile) → parse (print g) ≡ some g)
    → load parse print store ≡ some f
    → (t : Text) × (remember parse print store x ≡ some t)
      × (contains_approval parse print (some t) y ≡ some (holds f.approvals y || approval_eq x y))
unfolding remember contains_approval load
contains-remember parse print store f x y r h =
    let added = if holds f.approvals x then f.approvals else f.approvals ++ x ∷ [] in
    let g : ApprovalFile = record f { approvals = sort added } in
    let q = any-sort (λ z. approval_eq z y) added in
    let k = any-add (λ z. approval_eq z y) f.approvals x in
    (print g, ground (arith, h), ground (arith, r g, q ∙ k))
