-- ===== src/Registry/Control/Tags.antt =====
-- What the tags of a package point to.
use oath.Prelude.{
  All, ◌≡◌, refl, sym, ap, ◌∙◌, inl, inr, ◌&&◌, &&-eq-true, Bool, true, false, if◌then◌else◌,
  Option, none, some, List, [], ◌∷◌, ◌++◌, Text, text_eq, text_eq_iff, text_eq_refl, Bool-cases,
  Option-cases,
}
use oath.Prelude.Tables.{
  find, update_where, select, updated, find-append, find-append_none, find-one, find-update_where,
  All-append, All-update_where, All-delete_where, All-select, All-map,
}
use oath.Registry.Control.{
  is_active, VersionRow, DistTag, Semver, is_version, is_tag, tags_version, set_tag, highest,
  parsed, latest, rollback_version, roll_back,
}

-- An active version is the one found under the name and the version.
abbrev pub IsLive : List VersionRow → Text → Text → Type 0
IsLive vs name version =
    (v : VersionRow) × (find (is_version name version) vs ≡ some v) × (is_active v.status ≡ true)

abbrev pub HasOneEach : List VersionRow → Type 0
HasOneEach vs = All (λ v. find (is_version v.name v.version) vs ≡ some v) vs

abbrev pub AreLive : List VersionRow → List DistTag → Type 0
AreLive vs tags = All (λ t. IsLive vs t.name t.version) tags

pub is_version_refl : (v : VersionRow) → is_version v.name v.version v ≡ true
is_version_refl v = rw (text_eq_refl v.name, text_eq_refl v.version) refl

pub HasOneEach-append :
    (vs : List VersionRow) (v : VersionRow)
    → find (is_version v.name v.version) vs ≡ none
    → HasOneEach vs
    → HasOneEach (vs ++ v ∷ [])
HasOneEach-append vs v e h =
    All-append _ vs v
      (All-map _ _ vs (λ w k. find-append (is_version w.name w.version) vs (v ∷ []) w k) h)
      (find-append_none (is_version v.name v.version) vs (v ∷ []) e
        ∙ find-one _ v (is_version_refl v))

pub IsLive-append :
    (vs ws : List VersionRow) (name version : Text)
    → IsLive vs name version
    → IsLive (vs ++ ws) name version
IsLive-append vs ws name version (v, e, a) = (v, find-append (is_version name version) vs ws v e, a)

-- A change of rows that keeps what names them.
abbrev pub KeepsNames : (VersionRow → VersionRow) → Type 0
KeepsNames f = (v : VersionRow) → ((f v).name ≡ v.name) × ((f v).version ≡ v.version)

find_version-update :
    (q : VersionRow → Bool) (f : VersionRow → VersionRow) (vs : List VersionRow)
    (name version : Text)
    → KeepsNames f
    → find (is_version name version) (update_where q f vs)
      ≡ updated q f (find (is_version name version) vs)
find_version-update q f vs name version k =
    find-update_where (is_version name version) q f vs (λ v. rw ((k v).0, (k v).1) refl)

update-names :
    (q : VersionRow → Bool) (f : VersionRow → VersionRow) (v : VersionRow)
    → ((f v).name ≡ v.name) × ((f v).version ≡ v.version)
    → ((if q v then f v else v).name ≡ v.name) × ((if q v then f v else v).version ≡ v.version)
update-names q f v k = elim (Bool-cases (q v)) [ inl e ↦ rw e k | inr e ↦ rw e (refl, refl) ]

pub HasOneEach-update :
    (q : VersionRow → Bool) (f : VersionRow → VersionRow) (vs : List VersionRow)
    → KeepsNames f
    → HasOneEach vs
    → HasOneEach (update_where q f vs)
HasOneEach-update q f vs k h =
    All-update_where _ _ q f vs
      (λ v e.
        let (n, m) = update-names q f v (k v) in
        rw (n, m) (find_version-update q f vs v.name v.version k ∙ ap (updated q f) e))
      h

-- Tags stay live where the change leaves them so.
pub IsLive-update :
    (q : VersionRow → Bool) (f : VersionRow → VersionRow) (vs : List VersionRow)
    (name version : Text)
    → KeepsNames f
    → ((v : VersionRow)
        → find (is_version name version) vs ≡ some v
        → is_active v.status ≡ true
        → is_active (if q v then f v else v).status ≡ true)
    → IsLive vs name version
    → IsLive (update_where q f vs) name version
IsLive-update q f vs name version k s (v, e, a) = (
  (if q v then f v else v),
  find_version-update q f vs name version k ∙ ap (updated q f) e,
  s v e a,
)

pub AreLive-set_tag :
    (vs : List VersionRow) (name tag version : Text) (tags : List DistTag)
    → IsLive vs name version
    → AreLive vs tags
    → AreLive vs (set_tag name tag version tags)
unfolding set_tag
AreLive-set_tag vs name tag version [] l h = (l, tt)
AreLive-set_tag vs name tag version (t ∷ ts) l (m, h) = elim (Bool-cases (is_tag name tag t)) [
  | inl e ↦ rw e (rw ((text_eq_iff t.name name).0 (&&-eq-true _ _ e).0) l, h)
  | inr e ↦ rw e (m, AreLive-set_tag vs name tag version ts l h)
]

module _ (semver : Semver) where
  open semver use {Version, parse, le}

  latest-All :
      (P : Version × Text → Type 0) (best : Version × Text) (xs : List (Version × Text))
      → P best
      → All P xs
      → P (latest semver best xs)
  unfolding latest
  latest-All P best [] b h = b
  latest-All P best (x ∷ xs) b (p, h) = elim (Bool-cases (le best.0 x.0)) [
    | inl e ↦ rw e (latest-All P x xs p h)
    | inr e ↦ rw e (latest-All P best xs b h)
  ]

  parsed-All :
      (P : Text → Type 0) (vs : List VersionRow)
      → All (λ v. P v.version) vs
      → All (λ x. P x.1) (parsed semver vs)
  unfolding parsed
  parsed-All P [] h = tt
  parsed-All P (v ∷ vs) (p, h) = elim (Option-cases (parse v.version)) [
    | inl e ↦ rw (e, All) (parsed-All P vs h)
    | inr (x, e) ↦ rw (e, All) (p, parsed-All P vs h)
  ]

  highest-All :
      (P : Text → Type 0) (xs : List (Version × Text)) (r : Text)
      → All (λ x. P x.1) xs
      → highest semver xs ≡ some r
      → P r
  unfolding highest
  highest-All P [] r h e = cc
  highest-All P (x ∷ xs) r (p, h) e =
      let same : (latest semver x xs).1 ≡ r = cc in rw same at (latest-All (λ y. P y.1) x xs p h)

  -- The version that tags roll back to is live.
  pub rollback_version-IsLive :
      (name : Text) (vs : List VersionRow) (r : Text)
      → HasOneEach vs
      → rollback_version semver name vs ≡ some r
      → IsLive vs name r
  unfolding rollback_version
  rollback_version-IsLive name vs r h e =
      let rows = select (λ v. text_eq v.name name && is_active v.status) vs in
      highest-All (IsLive vs name) (parsed semver rows) r
        (parsed-All (IsLive vs name) rows (
          All-map _ _ rows
            (λ v (f, t).
              let (n, a) = &&-eq-true _ _ t in
              (
                v,
                ap (λ u. find (is_version u v.version) vs) (sym ((text_eq_iff v.name name).0 n))
                    ∙ f,
                a,
              ))
            (All-select _ _ vs h)))
        e

  moved-IsLive :
      (vs : List VersionRow) (name r : Text) (t : DistTag) (test : Bool)
      → (test ≡ true → t.name ≡ name)
      → (test ≡ false → IsLive vs t.name t.version)
      → IsLive vs name r
      → IsLive vs
          (if test then record t { version = r } else t).name
          (if test then record t { version = r } else t).version
  moved-IsLive vs name r t true n k l = rw (n refl) l
  moved-IsLive vs name r t false n k l = k refl

  -- Tags of a version that is no longer active move to a live one, or go.
  pub AreLive-roll_back :
      (vs : List VersionRow) (name version : Text) (rollback : Option Text) (tags : List DistTag)
      → ((r : Text) → rollback ≡ some r → IsLive vs name r)
      → All (λ t. (tags_version name version t ≡ false) → IsLive vs t.name t.version) tags
      → AreLive vs (roll_back semver name version rollback tags)
  unfolding roll_back
  AreLive-roll_back vs name version none tags l h =
      All-map _ _ _ (λ t (k, e). k e) (All-delete_where _ (tags_version name version) tags h)
  AreLive-roll_back vs name version (some r) tags l h =
      All-update_where _ _ (tags_version name version) _ tags
        (λ t k.
          moved-IsLive vs name r t (tags_version name version t)
            (λ e. (text_eq_iff t.name name).0 (&&-eq-true _ _ e).0) k (l r refl))
        h
