-- ===== src/Registry/Control/History.antt =====
-- What no transaction changes: the owner and visibility of a package, the content of a stage and a
-- version, and the decision on a stage.
use oath.Prelude.{
  ℕ, ◌≡◌, refl, sym, ap, ◌∙◌, inl, inr, Bool, true, false, if◌then◌else◌, some, List, [], ◌∷◌, ◌++◌,
  Text, text_eq_iff, Bool-cases,
}
use oath.Prelude.Results.{ok}
use oath.Prelude.Tables.{find, update_where, updated, find-append, find-update_where, find-passes}
use oath.Registry.Control.Effects.{
  push_event-eq-ok, ensure_package-eq-ok, insert_stage-eq-ok, insert_version-eq-ok,
}
use mathlib.Core.List.{append-nil}
use oath.Registry.Control.{
  new_package, new_version, Value, StageStatus, is_staged, VersionStatus, StageRecord,
  PackageRecord, VersionRow, Tables, is_package, is_stage, is_version, find_package, read_stage,
  find_version, push_event, ensure_package, insert_stage, insert_version, set_status, is_undecided,
}

-- Two states of one version: only its status and its downloads may differ.
pub record SameRelease (r s : VersionRow) : Type 0 where
  pub name : s.name ≡ r.name
  pub version : s.version ≡ r.version
  pub organization : s.organization ≡ r.organization
  pub digest : s.digest ≡ r.digest
  pub private : s.private ≡ r.private
  pub documents : s.documents ≡ r.documents
  pub published_at : s.published_at ≡ r.published_at

abbrev pub with_status : StageStatus → StageRecord → StageRecord
with_status status s = record s { status = status }

-- Two states of one stage: only the status may differ, and only while it is undecided.
pub record SameStage (r s : StageRecord) : Type 0 where
  pub content : s ≡ record r { status = s.status }
  pub final : is_staged r.status ≡ false → s.status ≡ r.status

pub record Keeps (db out : Tables) : Type 0 where
  pub packages :
      (name : Text) (p : PackageRecord)
      → find_package db name ≡ some p
      → find_package out name ≡ some p
  pub stages :
      (id : Text) (r : StageRecord)
      → read_stage db id ≡ some r
      → (s : StageRecord) × (read_stage out id ≡ some s) × SameStage r s
  pub versions :
      (name version : Text) (r : VersionRow)
      → find_version db name version ≡ some r
      → (s : VersionRow) × (find_version out name version ≡ some s) × SameRelease r s

pub SameRelease-refl : (r : VersionRow) → SameRelease r r
SameRelease-refl r = record {
  name = refl;
  version = refl;
  organization = refl;
  digest = refl;
  private = refl;
  documents = refl;
  published_at = refl;
}

pub changed :
    (r : VersionRow) (status : VersionStatus) (n : ℕ)
    → SameRelease r (record r { status = status; download_count = n })
changed r status n = record {
  name = refl;
  version = refl;
  organization = refl;
  digest = refl;
  private = refl;
  documents = refl;
  published_at = refl;
}

pub SameRelease-trans : (r s t : VersionRow) → SameRelease r s → SameRelease s t → SameRelease r t
SameRelease-trans r s t h k = record {
  name = k.name ∙ h.name;
  version = k.version ∙ h.version;
  organization = k.organization ∙ h.organization;
  digest = k.digest ∙ h.digest;
  private = k.private ∙ h.private;
  documents = k.documents ∙ h.documents;
  published_at = k.published_at ∙ h.published_at;
}

pub SameStage-refl : (r : StageRecord) → SameStage r r
SameStage-refl r = record { content = refl; final = λ e. refl }

pub SameStage-trans : (r s t : StageRecord) → SameStage r s → SameStage s t → SameStage r t
SameStage-trans r s t h k = record {
  content = k.content ∙ ap (with_status t.status) h.content;
  final = λ e. let f = h.final e in k.final (ap is_staged f ∙ e) ∙ f;
}

pub Keeps_refl : (db : Tables) → Keeps db db
Keeps_refl db = record {
  packages = λ name p e. e;
  stages = λ id r e. (r, e, SameStage-refl r);
  versions = λ name version r e. (r, e, SameRelease-refl r);
}

pub Keeps_trans : (a b c : Tables) → Keeps a b → Keeps b c → Keeps a c
Keeps_trans a b c h k = record {
  packages = λ name p e. k.packages name p (h.packages name p e);
  stages = λ id r e.
      let (s, f, m) = h.stages id r e in
      let (t, g, n) = k.stages id s f in (t, g, SameStage-trans r s t m n);
  versions = λ name version r e.
      let (s, f, m) = h.versions name version r e in
      let (t, g, n) = k.versions name version s f in (t, g, SameRelease-trans r s t m n);
}

-- Tables with the same packages, stages and versions.
pub record SameRows (db out : Tables) : Type 0 where
  pub packages : out.packages ≡ db.packages
  pub stages : out.stages ≡ db.stages
  pub versions : out.versions ≡ db.versions

pub SameRows-Keeps : (db out : Tables) → SameRows db out → Keeps db out
SameRows-Keeps db out h = record {
  packages = λ name p e. ap (find (is_package name)) h.packages ∙ e;
  stages = λ id r e. (r, ap (find (is_stage id)) h.stages ∙ e, SameStage-refl r);
  versions = λ name version r e.
      (r, ap (find (is_version name version)) h.versions ∙ e, SameRelease-refl r);
}

-- Rows added behind.
pub record Adds (db out : Tables) : Type 0 where
  pub more_packages : (xs : List PackageRecord) × (out.packages ≡ db.packages ++ xs)
  pub more_stages : (xs : List StageRecord) × (out.stages ≡ db.stages ++ xs)
  pub more_versions : (xs : List VersionRow) × (out.versions ≡ db.versions ++ xs)

pub Adds-Keeps : (db out : Tables) → Adds db out → Keeps db out
Adds-Keeps db out h = record {
  packages = λ name p e.
      ap (find (is_package name)) h.more_packages.1
      ∙ find-append (is_package name) db.packages h.more_packages.0 p e;
  stages = λ id r e. (
    r,
    ap (find (is_stage id)) h.more_stages.1
        ∙ find-append (is_stage id) db.stages h.more_stages.0 r e,
    SameStage-refl r,
  );
  versions = λ name version r e. (
    r,
    ap (find (is_version name version)) h.more_versions.1
        ∙ find-append (is_version name version) db.versions h.more_versions.0 r e,
    SameRelease-refl r,
  );
}

pub push_event-Keeps :
    (now : ℕ) (key : Text) (event : Value) (db out : Tables)
    → push_event now key event db ≡ ok out
    → Keeps db out
push_event-Keeps now key event db out h =
    rw (← push_event-eq-ok now key event db out h)
      (SameRows-Keeps db _ record { packages = refl; stages = refl; versions = refl })

pub ensure_package-Keeps :
    (stage : StageRecord) (db out : Tables) → ensure_package stage db ≡ ok out → Keeps db out
ensure_package-Keeps stage db out h = elim (ensure_package-eq-ok stage db out h) [
  | inl (e, _) ↦ rw (← e) (Keeps_refl db)
  | inr (e, _) ↦ rw (← e) (
      Adds-Keeps db _ record {
        more_packages = (new_package stage ∷ [], refl);
        more_stages = ([], sym (append-nil db.stages));
        more_versions = ([], sym (append-nil db.versions));
      })
]

pub insert_stage-Keeps :
    (stage : StageRecord) (db out : Tables) → insert_stage stage db ≡ ok out → Keeps db out
insert_stage-Keeps stage db out h = rw (← (insert_stage-eq-ok stage db out h).0) (
    Adds-Keeps db _ record {
      more_packages = ([], sym (append-nil db.packages));
      more_stages = (stage ∷ [], refl);
      more_versions = ([], sym (append-nil db.versions));
    })

pub insert_version-Keeps :
    (now : ℕ) (stage : StageRecord) (db out : Tables)
    → insert_version now stage db ≡ ok out
    → Keeps db out
insert_version-Keeps now stage db out h = rw (← (insert_version-eq-ok now stage db out h).0) (
    Adds-Keeps db _ record {
      more_packages = ([], sym (append-nil db.packages));
      more_stages = ([], sym (append-nil db.stages));
      more_versions = (new_version now stage ∷ [], refl);
    })

pub with_status-content :
    (test : Bool) (status : StageStatus) (r : StageRecord)
    → (if test then with_status status r else r)
      ≡ record r { status = (if test then with_status status r else r).status }
with_status-content true status r = refl
with_status-content false status r = refl

pub absurd_test {ℓ} : {A : Type ℓ} → false ≡ true → A
absurd_test h = cc

status_final :
    (id other : Text) (status : StageStatus) (db : Tables) (r : StageRecord)
    → is_undecided (read_stage db id) ≡ true
    → read_stage db other ≡ some r
    → is_staged r.status ≡ false
    → (if is_stage id r then with_status status r else r).status ≡ r.status
status_final id other status db r h e f = elim (Bool-cases (is_stage id r)) [
  | inl g ↦
      let same = (text_eq_iff r.id id).0 g in
      let found = (text_eq_iff r.id other).0 (find-passes (is_stage other) db.stages r e) in
      let again : read_stage db id ≡ some r = rw (sym same ∙ found) e in
      absurd_test (sym f ∙ sym (ap is_undecided again) ∙ h)
  | inr g ↦ rw g refl
]

pub set_status-Keeps :
    (id : Text) (status : StageStatus) (db : Tables)
    → is_undecided (read_stage db id) ≡ true
    → Keeps db (set_status id status db)
set_status-Keeps id status db h = record {
  packages = λ name p e. e;
  stages = λ other r e. (
    (if is_stage id r then with_status status r else r),
    find-update_where (is_stage other) (is_stage id) (with_status status) db.stages (λ s. refl)
        ∙ ap (updated (is_stage id) (with_status status)) e,
    record {
      content = with_status-content (is_stage id r) status r;
      final = status_final id other status db r h e;
    },
  );
  versions = λ name version r e. (r, e, SameRelease-refl r);
}

pub update-SameRelease :
    (q : VersionRow → Bool) (f : VersionRow → VersionRow) (r : VersionRow)
    → SameRelease r (f r)
    → SameRelease r (if q r then f r else r)
update-SameRelease q f r h = elim (Bool-cases (q r)) [
  | inl e ↦ rw e h
  | inr e ↦ rw e (SameRelease-refl r)
]

pub update_versions-Keeps :
    (q : VersionRow → Bool) (f : VersionRow → VersionRow) (db : Tables)
    → ((r : VersionRow) → SameRelease r (f r))
    → Keeps db (record db { versions = update_where q f db.versions })
update_versions-Keeps q f db h = record {
  packages = λ name p e. e;
  stages = λ id r e. (r, e, SameStage-refl r);
  versions = λ name version r e. (
    (if q r then f r else r),
    find-update_where (is_version name version) q f db.versions
          (λ x. let same = h x in rw (same.name, same.version) refl)
        ∙ ap (updated q f) e,
    update-SameRelease q f r (h r),
  );
}
