-- ===== src/Cli/Approvals.antt =====
-- crates/oath-cli/src/approvals.rs: the approvals that a user gave to run a package. The store is the
-- text of its file, nothing where there is none; serde_json is `parse` and `print`. Failures to write
-- the file are not modelled.
mod Remembered
mod Sample
mod Runs
use oath.Prelude.{
  ℕ, ◌==◌, ◌&&◌, ◌||◌, Bool, true, false, not, ltb, any, if◌then◌else◌, Option, none, some, List,
  [], ◌∷◌, ◌++◌, Text, text_eq,
}

pub record ExecApproval : Type 0 where
  pub package_name : Text
  pub version : Text
  pub integrity : Text
  pub capabilities : List Text
  pub sandbox_backend : Text
  pub deny_network : Bool

pub record ApprovalFile : Type 0 where
  pub schema_version : ℕ
  pub approvals : List ExecApproval

-- The derived equality.
pub texts_eq : List Text → List Text → Bool
texts_eq [] [] = true
texts_eq [] (y ∷ ys) = false
texts_eq (x ∷ xs) [] = false
texts_eq (x ∷ xs) (y ∷ ys) = text_eq x y && texts_eq xs ys

abbrev pub bool_eq : Bool → Bool → Bool
bool_eq true c = c
bool_eq false c = not c

pub approval_eq : ExecApproval → ExecApproval → Bool
approval_eq x y =
    text_eq x.package_name y.package_name
    && text_eq x.version y.version
    && text_eq x.integrity y.integrity
    && texts_eq x.capabilities y.capabilities
    && text_eq x.sandbox_backend y.sandbox_backend
    && bool_eq x.deny_network y.deny_network

-- `approvals.contains(&approval)`
abbrev pub holds : List ExecApproval → ExecApproval → Bool
holds xs x = any (λ y. approval_eq y x) xs

-- The order of texts by their bytes, and that of package, version and integrity.
pub le_text : Text → Text → Bool
le_text [] t = true
le_text (x ∷ s) [] = false
le_text (x ∷ s) (y ∷ t) = ltb x y || x == y && le_text s t

pub le_approval : ExecApproval → ExecApproval → Bool
le_approval x y =
    not (le_text y.package_name x.package_name)
    || text_eq x.package_name y.package_name
      && (not (le_text y.version x.version)
          || text_eq x.version y.version && le_text x.integrity y.integrity)

-- `sort_by`, which is stable.
pub insert : ExecApproval → List ExecApproval → List ExecApproval
insert x [] = x ∷ []
insert x (y ∷ ys) = let rest = insert x ys in if le_approval x y then x ∷ y ∷ ys else y ∷ rest

pub sort : List ExecApproval → List ExecApproval
sort [] = []
sort (x ∷ xs) = insert x (sort xs)

module _ (parse : Text → Option ApprovalFile) (print : ApprovalFile → Text) where
  -- `load`: nothing where the file is invalid.
  pub load : Option Text → Option ApprovalFile
  load none = some (record { schema_version = 1; approvals = [] })
  load (some text) = parse text

  pub contains_approval : Option Text → ExecApproval → Option Bool
  contains_approval store x = elim (load store) [
    | none ↦ none
    | some f ↦ some (holds f.approvals x)
  ]

  -- The file's new text, nothing where the old one is invalid.
  pub remember : Option Text → ExecApproval → Option Text
  remember store x = elim (load store) [
    | none ↦ none
    | some f ↦
        let approvals = if holds f.approvals x then f.approvals else f.approvals ++ x ∷ [] in
        some (print (record f { approvals = sort approvals }))
  ]
