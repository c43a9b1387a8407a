-- ===== src/Registry/Control/Release.antt =====
-- What every version of the registry goes back to: an approved stage of the same content, whose
-- assessment does not deny it, and a package of the same owner and visibility.
use oath.Prelude.{
  ℕ, ◌≡◌, refl, sym, ap, ◌∙◌, ◌≢◌, none, &&-eq-true, Option-cases, text_eq_iff, text_eq_refl, inl,
  inr, Bool, false, some, [], ◌∷◌, ◌++◌, Text,
}
use oath.Prelude.Tables.{find, find-append-cases, find-missed, find-passes}
use oath.Registry.Control.{
  Value, approved, is_release, StageRecord, PackageRecord, VersionRow, Tables, is_stage, is_version,
  find_version, read_stage, find_package, new_version,
}
use oath.Registry.Control.History.{Keeps, SameRelease, SameRelease-refl, with_status}
use oath.Registry.Control.Origin.{ComesFrom}

pub record IsOwned (db : Tables) (name organization : Text) (private : Bool) : Type 0 where
  pub package_row : PackageRecord
  pub found : find_package db name ≡ some package_row
  pub owner : package_row.organization ≡ organization
  pub visibility : package_row.private ≡ private

pub IsOwned-keeps :
    (db out : Tables) (name organization : Text) (private : Bool)
    → Keeps db out
    → IsOwned db name organization private
    → IsOwned out name organization private
IsOwned-keeps db out name organization private k h = record {
  package_row = h.package_row;
  found = k.packages name h.package_row h.found;
  owner = h.owner;
  visibility = h.visibility;
}

module _ (is_denied : Value → Bool) where
  pub record IsRelease (db : Tables) (v : VersionRow) : Type 0 where
    pub stage : StageRecord
    pub found : read_stage db stage.id ≡ some stage
    pub approved : stage.status ≡ approved
    pub name : stage.name ≡ v.name
    pub version : stage.version ≡ v.version
    pub digest : stage.digest ≡ v.digest
    pub documents : stage.documents ≡ v.documents
    pub not_denied : is_denied v.documents.assessment ≡ false
    pub owned : IsOwned db v.name v.organization v.private

  -- Every version is released, every stage is of its package, and no two stages are of one version.
  pub record AreReleased (db : Tables) : Type 0 where
    pub versions :
        (name version : Text) (v : VersionRow)
        → find_version db name version ≡ some v
        → IsRelease db v
    pub stages :
        (id : Text) (s : StageRecord)
        → read_stage db id ≡ some s
        → IsOwned db s.name s.organization s.private
    pub distinct :
        (i j : Text) (s t : StageRecord)
        → read_stage db i ≡ some s
        → read_stage db j ≡ some t
        → s.name ≡ t.name
        → s.version ≡ t.version
        → s.id ≡ t.id

  -- An approved stage stays as it is.
  approved_stays :
      (db out : Tables) (s : StageRecord)
      → Keeps db out
      → s.status ≡ approved
      → read_stage db s.id ≡ some s
      → read_stage out s.id ≡ some s
  approved_stays db out s k a e =
      let (t, f, same) = k.stages s.id s e in
      let status = same.final (rw a refl) in
      f ∙ ap some (same.content ∙ ap (λ u. with_status u s) status)

  pub IsRelease-keeps :
      (db out : Tables) (r v : VersionRow)
      → Keeps db out
      → SameRelease r v
      → IsRelease db r
      → IsRelease out v
  IsRelease-keeps db out r v k same h = record {
    stage = h.stage;
    found = approved_stays db out h.stage k h.approved h.found;
    approved = h.approved;
    name = h.name ∙ sym same.name;
    version = h.version ∙ sym same.version;
    digest = h.digest ∙ sym same.digest;
    documents = h.documents ∙ sym same.documents;
    not_denied = ap (λ d. is_denied d.assessment) same.documents ∙ h.not_denied;
    owned =
        rw (same.name, same.organization, same.private)
          (IsOwned-keeps db out r.name r.organization r.private k h.owned);
  }

  pub AreReleased-keeps :
      (db out : Tables) → Keeps db out → ComesFrom db out → AreReleased db → AreReleased out
  AreReleased-keeps db out k c h = record {
    versions = λ name version v e.
        let (r, f, same) = c.versions name version v e in
        IsRelease-keeps db out r v k same (h.versions name version r f);
    stages = λ id s e.
        let (r, f, same) = c.stages id s e in
        rw same (IsOwned-keeps db out r.name r.organization r.private k (h.stages id r f));
    distinct = λ i j s t e f n v.
        let (r, g, p) = c.stages i s e in
        let (u, l, q) = c.stages j t f in
        ap (λ x. x.id) p
        ∙ h.distinct i j r u g l (sym (ap (λ x. x.name) p) ∙ n ∙ ap (λ x. x.name) q)
            (sym (ap (λ x. x.version) p) ∙ v ∙ ap (λ x. x.version) q)
        ∙ sym (ap (λ x. x.id) q);
  }

  -- A stage that is there is of another version than one that may be added.
  another_version :
      (stage s : StageRecord) (db : Tables) (id : Text)
      → find (is_release stage.name stage.version) db.stages ≡ none
      → read_stage db id ≡ some s
      → s.name ≡ stage.name
      → s.version ≡ stage.version
      → ⊥
  another_version stage s db id m e n v =
      find-missed (is_stage id) (is_release stage.name stage.version) db.stages s e m
        (rw (n, v, text_eq_refl stage.name, text_eq_refl stage.version) refl)

  pub insert_stage-AreReleased :
      (stage : StageRecord) (db out : Tables)
      → (record db { stages = db.stages ++ stage ∷ [] } ≡ out)
      → find (is_release stage.name stage.version) db.stages ≡ none
      → Keeps db out
      → IsOwned db stage.name stage.organization stage.private
      → AreReleased db
      → AreReleased out
  insert_stage-AreReleased stage db out same m k o h = record {
    versions = λ name version v e.
        IsRelease-keeps db out v v k (SameRelease-refl v)
          (h.versions name version v (ap (λ t. find_version t name version) same ∙ e));
    stages = λ id s e.
        elim (find-append-cases (is_stage id) db.stages stage s
          (ap (λ t. read_stage t id) same ∙ e)) [
            | inl f ↦ IsOwned-keeps db out s.name s.organization s.private k (h.stages id s f)
            | inr f ↦ rw f at (IsOwned-keeps db out stage.name stage.organization stage.private k o)
          ];
    distinct = λ i j s t e f n v.
        let first =
          find-append-cases (is_stage i) db.stages stage s (ap (λ t. read_stage t i) same ∙ e) in
        let second =
          find-append-cases (is_stage j) db.stages stage t (ap (λ t. read_stage t j) same ∙ f) in
        elim first [
          | inl g ↦ elim second [
            | inl l ↦ h.distinct i j s t g l n v
            | inr l ↦ absurd (
                another_version stage s db i m g (n ∙ sym (ap (λ x. x.name) l))
                  (v ∙ sym (ap (λ x. x.version) l)))
          ]
          | inr g ↦ elim second [
            | inl l ↦ absurd (
                another_version stage t db j m l (sym n ∙ sym (ap (λ x. x.name) g))
                  (sym v ∙ sym (ap (λ x. x.version) g)))
            | inr l ↦ ap (λ x. x.id) (sym g ∙ l)
          ]
        ];
  }

  -- What a version made of a stage needs: the stage is approved, not denied, and of its package.
  pub insert_version-AreReleased :
      (now : ℕ) (stage : StageRecord) (db out : Tables)
      → (record db { versions = db.versions ++ new_version now stage ∷ [] } ≡ out)
      → Keeps db out
      → read_stage db stage.id ≡ some (with_status approved stage)
      → is_denied stage.documents.assessment ≡ false
      → AreReleased db
      → AreReleased out
  insert_version-AreReleased now stage db out same k f d h =
      let owned = h.stages stage.id (with_status approved stage) f in
      let made : IsRelease db (new_version now stage) = record {
        stage = with_status approved stage;
        found = f;
        approved = refl;
        name = refl;
        version = refl;
        digest = refl;
        documents = refl;
        not_denied = d;
        owned = owned;
      } in
      record {
        versions = λ name version v e.
            elim (find-append-cases (is_version name version) db.versions (new_version now stage) v
              (ap (λ t. find_version t name version) same ∙ e)) [
                | inl g ↦
                    IsRelease-keeps db out v v k (SameRelease-refl v) (h.versions name version v g)
                | inr g ↦ rw g at (
                    IsRelease-keeps db out (new_version now stage) (new_version now stage) k
                      (SameRelease-refl _) made)
              ];
        stages = λ id s e.
            IsOwned-keeps db out s.name s.organization s.private k
              (h.stages id s (ap (λ t. read_stage t id) same ∙ e));
        distinct = λ i j s t e f n v.
            h.distinct i j s t (ap (λ t. read_stage t i) same ∙ e)
              (ap (λ t. read_stage t j) same ∙ f) n v;
      }

  -- A stage that is not approved has no version.
  pub unapproved-none :
      (db : Tables) (s : StageRecord)
      → AreReleased db
      → read_stage db s.id ≡ some s
      → s.status ≢ approved
      → find_version db s.name s.version ≡ none
  unapproved-none db s h e a = elim (Option-cases (find_version db s.name s.version)) [
    | inl n ↦ n
    | inr (v, f) ↦
        let m = h.versions s.name s.version v f in
        let p = find-passes (is_version s.name s.version) db.versions v f in
        let (pn, pv) = &&-eq-true _ _ p in
        let i =
          h.distinct m.stage.id s.id m.stage s m.found e (m.name ∙ (text_eq_iff _ _).0 pn)
            (m.version ∙ (text_eq_iff _ _).0 pv) in
        let same : some m.stage ≡ some s = sym m.found ∙ ap (read_stage db) i ∙ e in
        let z : s.status ≡ m.stage.status = cc same in absurd (a (z ∙ m.approved))
  ]
