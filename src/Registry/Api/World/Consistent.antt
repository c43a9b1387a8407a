-- ===== src/Registry/Api/World/Consistent.antt =====
-- What holds of the tables after every request: versions go back to approved stages.
use oath.Prelude.{
  none, ◌≢◌, All, ◌≡◌, refl, ap, ◌∙◌, ◌&&◌, not, Bool, true, false, some, List, Text,
}
use oath.Prelude.Tables.{find, find-passes, All-map, All-get_elem?}
use oath.Prelude.{text_eq_iff}
use oath.Registry.Control.{
  approved, StageRecord, VersionRow, Tables, is_stage, read_stage, find_version, record_download,
  mark_outbox_delivered, retry_outbox,
}
use oath.Registry.Control.History.{Keeps, SameStage, SameStage-refl, SameStage-trans}
use oath.Registry.Control.Kept.{
  grant_package_role-SameRows, mark_outbox_delivered-SameRows, retry_outbox-SameRows,
}
use oath.Registry.Control.Release.{IsRelease, AreReleased, unapproved-none}
use oath.Registry.Control.Released.{
  AreReleased-same, create_stage-AreReleased, decide_stage-AreReleased, record_download-AreReleased,
  revoke_version-AreReleased,
}
use oath.Registry.Api.{Env, is_denied}
use oath.Registry.Api.Accepted.{
  create_stage-eq-ok, authorize_decision-eq-ok, decide_read-eq-ok, revoke_version-eq-ok,
  grant_role-tables,
}
use oath.Registry.Api.World.{
  Reading, World, Step, Reach, staged_one, read_one, decided_one, viewed_one, revoked_one,
  granted_one, downloaded_one, delivered_one, retried_one, here, next, empty,
}
use oath.Registry.Api.World.Kept.{Step-Keeps}

denied_not : (a d : Bool) → not (a && d) ≡ true → a ≡ true → d ≡ false
denied_not true true h e = cc
denied_not true false h e = refl
denied_not false d h e = cc

module _ (env : Env) where
  -- The stage that a handler has read is still there but for its status, and may be approved if that
  -- is what the handler was asked.
  pub record IsRead (db : Tables) (r : Reading) : Type 0 where
    pub allowed : r.approve ≡ true → is_denied env r.stage.documents.assessment ≡ false
    pub row : StageRecord
    pub found : read_stage db r.stage.id ≡ some row
    pub same : SameStage r.stage row

  pub record IsConsistent (w : World) : Type 0 where
    pub released : AreReleased (is_denied env) w.tables
    pub readings : All (IsRead w.tables) w.readings

  readings-keep :
      (db out : Tables) (rs : List Reading)
      → Keeps db out
      → All (IsRead db) rs
      → All (IsRead out) rs
  readings-keep db out rs k h =
      All-map (IsRead db) (IsRead out) rs
        (λ r m.
          let (t, f, s) = k.stages r.stage.id m.row m.found in
          record {
            allowed = m.allowed;
            row = t;
            found = f;
            same = SameStage-trans r.stage m.row t m.same s;
          })
        h

  first_reading :
      (db : Tables) (r : Reading) (id : Text)
      → read_stage db id ≡ some r.stage
      → (r.approve ≡ true → is_denied env r.stage.documents.assessment ≡ false)
      → IsRead db r
  first_reading db r id e a =
      let same = (text_eq_iff r.stage.id id).0 (find-passes (is_stage id) db.stages r.stage e) in
      record {
        allowed = a;
        row = r.stage;
        found = ap (read_stage db) same ∙ e;
        same = SameStage-refl r.stage;
      }

  step_tables :
      {w : World} (out : Tables)
      → Keeps w.tables out
      → AreReleased (is_denied env) out
      → IsConsistent w
      → IsConsistent (record w { tables = out })
  step_tables {w} out k r h = record {
    released = r;
    readings = readings-keep w.tables out w.readings k h.readings;
  }

  pub Step-IsConsistent : {w v : World} → Step env w v → IsConsistent w → IsConsistent v
  Step-IsConsistent {w} (staged_one now principal request stage out e) h =
      let (_, _, _, k) = create_stage-eq-ok env now principal request w.tables stage out e in
      step_tables out (Step-Keeps env {w = w} (staged_one now principal request stage out e))
        (create_stage-AreReleased (is_denied env) now stage _ _ _ w.tables out _ k h.released) h
  Step-IsConsistent {w} (read_one principal approve id stage e) h =
      let (f, _, d) =
        authorize_decision-eq-ok env principal approve (read_stage w.tables id) stage e in
      record {
        released = h.released;
        readings = (first_reading w.tables _ id f (denied_not approve _ d), h.readings);
      }
  Step-IsConsistent {w} (decided_one now i r out m e) h =
      let k = decide_read-eq-ok env now r.principal r.approve r.stage w.tables out e in
      let read = All-get_elem? (IsRead w.tables) w.readings i r m h.readings in
      step_tables out (Step-Keeps env {w = w} (decided_one now i r out m e))
        (decide_stage-AreReleased (is_denied env) now r.stage read.row r.approve _ _ w.tables out _
          read.found read.same.content read.allowed k h.released)
        h
  Step-IsConsistent {w} viewed_one h = record { released = h.released; readings = h.readings }
  Step-IsConsistent {w} (revoked_one now principal name version quarantine reason i seen x out m e)
        h =
      let (_, k) =
        revoke_version-eq-ok env now principal name version quarantine reason seen w.tables x out
          e in
      step_tables out
        (Step-Keeps env {w = w}
          (revoked_one now principal name version quarantine reason i seen x out m e))
        (revoke_version-AreReleased (is_denied env) env.semver now x _ _ seen w.tables out _ k
          h.released)
        h
  Step-IsConsistent {w} (granted_one principal name organization role appended) h =
      step_tables _ (Step-Keeps env {w = w} (granted_one principal name organization role appended))
        (grant_role-tables env (AreReleased (is_denied env)) principal name organization role
          appended w.tables h.released
          (λ x out e.
            AreReleased-same (is_denied env) w.tables out
              (grant_package_role-SameRows x w.tables out e) h.released))
        h
  Step-IsConsistent {w} (downloaded_one name version) h =
      step_tables (record_download name version w.tables)
        (Step-Keeps env {w = w} (downloaded_one name version))
        (record_download-AreReleased (is_denied env) name version w.tables h.released) h
  Step-IsConsistent {w} (delivered_one now id) h =
      step_tables (mark_outbox_delivered now id w.tables)
        (Step-Keeps env {w = w} (delivered_one now id))
        (AreReleased-same (is_denied env) w.tables _
          (mark_outbox_delivered-SameRows now id w.tables) h.released)
        h
  Step-IsConsistent {w} (retried_one now id) h =
      step_tables (retry_outbox now id w.tables) (Step-Keeps env {w = w} (retried_one now id))
        (AreReleased-same (is_denied env) w.tables _ (retry_outbox-SameRows now id w.tables)
          h.released)
        h

  pub Reach-IsConsistent : {w v : World} → IsConsistent w → Reach env w v → IsConsistent v
  Reach-IsConsistent h here = h
  Reach-IsConsistent h (next r s) = Step-IsConsistent s (Reach-IsConsistent h r)

  pub empty-IsConsistent : (organizations : List Text) → IsConsistent (empty organizations)
  unfolding find
  empty-IsConsistent organizations = record {
    released = record {
      versions = λ name version v e. cc;
      stages = λ id s e. cc;
      distinct = λ i j s t e f n v. cc;
    };
    readings = tt;
  }

  -- In a registry that started empty every version goes back to an approved stage of the same name,
  -- version, digest and documents, is not denied by its assessment, and belongs to the organization
  -- that owns its package, with the package's visibility.
  pub version-IsRelease :
      (organizations : List Text) (w : World) (name version : Text) (v : VersionRow)
      → Reach env (empty organizations) w
      → find_version w.tables name version ≡ some v
      → IsRelease (is_denied env) w.tables v
  version-IsRelease organizations w name version v r e =
      let h = Reach-IsConsistent (empty-IsConsistent organizations) r in
      h.released.versions name version v e

  -- In a registry that started empty no version has the name and the version of a stage that is not
  -- approved, be it undecided or rejected.
  pub unapproved-unpublished :
      (organizations : List Text) (w : World) (id : Text) (s : StageRecord)
      → Reach env (empty organizations) w
      → read_stage w.tables id ≡ some s
      → s.status ≢ approved
      → find_version w.tables s.name s.version ≡ none
  unapproved-unpublished organizations w id s r e a =
      let h = Reach-IsConsistent (empty-IsConsistent organizations) r in
      let same = (text_eq_iff s.id id).0 (find-passes (is_stage id) w.tables.stages s e) in
      unapproved-none (is_denied env) w.tables s h.released (ap (read_stage w.tables) same ∙ e) a
