-- ===== src/Registry/Control/Released.antt =====
-- Every transaction keeps each version a release.
use oath.Prelude.{
  List, ℕ, ◌≡◌, refl, ap, ◌∙◌, ◌+◌, inl, inr, Bool, true, false, if◌then◌else◌, leb, some, Text,
  text_eq_iff, Bool-cases,
}
use oath.Prelude.Results.{ok, >>=-eq-ok, ok_injective}
use oath.Prelude.Tables.{updated, is_some, find-update_where, find-passes}
use oath.Registry.Control.{
  VersionRow, Value, approved, rejected, StageRecord, Tombstone, Tables, Semver, is_stage,
  is_version, bool_eq, find_version, read_stage, pending_stages, push_event, ensure_package,
  check_package, insert_stage, insert_version, add_stage, create_stage, set_status, approve_stage,
  decide_staged, is_undecided, decide_stage, record_download, set_version_status, revoke_found,
  revoke_version,
}
use oath.Registry.Control.Effects.{
  push_event-eq-ok, check_package-eq-ok, insert_stage-eq-ok, insert_version-eq-ok,
}
use oath.Registry.Control.History.{
  SameRows, SameRows-Keeps, ensure_package-Keeps, insert_stage-Keeps, insert_version-Keeps,
  set_status-Keeps, update_versions-Keeps, with_status, changed,
}
use oath.Registry.Control.Kept.{left, record_download-Keeps}
use oath.Registry.Control.Origin.{
  SameRows-ComesFrom, same_versions-ComesFrom, set_status-ComesFrom, ensure_package-ComesFrom,
}
use oath.Registry.Control.Release.{
  IsOwned, AreReleased, AreReleased-keeps, insert_stage-AreReleased, insert_version-AreReleased,
}

bool_eq-true : (a b : Bool) → bool_eq a b ≡ true → a ≡ b
bool_eq-true true true h = refl
bool_eq-true true false h = cc
bool_eq-true false true h = cc
bool_eq-true false false h = refl

check_package-IsOwned :
    (stage : StageRecord) (db : Tables)
    → check_package stage db ≡ ok tt
    → IsOwned db stage.name stage.organization stage.private
check_package-IsOwned stage db h =
    let (p, e, o, v) = check_package-eq-ok stage db h in
    record {
      package_row = p;
      found = e;
      owner = (text_eq_iff _ _).0 o;
      visibility = bool_eq-true _ _ v;
    }

-- The row of the stage once it is approved.
approved_row :
    (stage row : StageRecord) (db : Tables)
    → read_stage db stage.id ≡ some row
    → row ≡ with_status row.status stage
    → read_stage (set_status stage.id approved db) stage.id ≡ some (with_status approved stage)
approved_row stage row db e c =
    let named = find-passes (is_stage stage.id) db.stages row e in
    find-update_where (is_stage stage.id) (is_stage stage.id) (with_status approved) db.stages
      (λ s. refl)
    ∙ ap (updated (is_stage stage.id) (with_status approved)) e
    ∙ rw named (ap (λ u. some (with_status approved u)) c)

module _ (is_denied : Value → Bool) where
  pub AreReleased-same :
      (db out : Tables) → SameRows db out → AreReleased is_denied db → AreReleased is_denied out
  AreReleased-same db out s h =
      AreReleased-keeps is_denied db out (SameRows-Keeps db out s) (SameRows-ComesFrom db out s) h

  push_event-AreReleased :
      (now : ℕ) (key : Text) (event : Value) (db out : Tables)
      → push_event now key event db ≡ ok out
      → AreReleased is_denied db
      → AreReleased is_denied out
  push_event-AreReleased now key event db out e h =
      AreReleased-same db out
        (rw (← push_event-eq-ok now key event db out e)
          record { packages = refl; stages = refl; versions = refl })
        h

  add_stage-AreReleased :
      (now : ℕ) (stage : StageRecord) (key : Text) (event : Value) (db out : Tables)
      (created : Bool)
      → add_stage now stage key event db ≡ ok (created, out)
      → AreReleased is_denied db
      → AreReleased is_denied out
  unfolding add_stage
  add_stage-AreReleased now stage key event db out created e h =
      let (db1, a, k1) = >>=-eq-ok (ensure_package stage db) _ e in
      let (u, p, k2) = >>=-eq-ok (check_package stage db1) _ k1 in
      let (db2, b, k3) = >>=-eq-ok (insert_stage stage db1) _ k2 in
      let (db3, c, k4) = >>=-eq-ok (push_event now key event db2) _ k3 in
      rw (← left k4) (
        push_event-AreReleased now key event db2 db3 c (
          insert_stage-AreReleased is_denied stage db1 db2 (insert_stage-eq-ok stage db1 db2 b).0
            (insert_stage-eq-ok stage db1 db2 b).2 (insert_stage-Keeps stage db1 db2 b)
            (check_package-IsOwned stage db1 p)
            (AreReleased-keeps is_denied db db1 (ensure_package-Keeps stage db db1 a)
              (ensure_package-ComesFrom stage db db1 a) h)))

  pub create_stage-AreReleased :
      (now : ℕ) (stage : StageRecord) (key : Text) (event : Value) (maximum : ℕ) (db out : Tables)
      (created : Bool)
      → create_stage now stage key event maximum db ≡ ok (created, out)
      → AreReleased is_denied db
      → AreReleased is_denied out
  unfolding create_stage
  create_stage-AreReleased now stage key event maximum db out created e h =
      elim (Bool-cases (leb maximum (pending_stages db stage.organization))) [
        | inl t ↦ rw (← left (rw t at e)) h
        | inr t ↦ add_stage-AreReleased now stage key event db out created (rw t at e) h
      ]

  approve_stage-AreReleased :
      (now : ℕ) (stage row : StageRecord) (db out : Tables)
      → read_stage db stage.id ≡ some row
      → row ≡ with_status row.status stage
      → is_undecided (read_stage db stage.id) ≡ true
      → is_denied stage.documents.assessment ≡ false
      → approve_stage now stage db ≡ ok out
      → AreReleased is_denied db
      → AreReleased is_denied out
  unfolding approve_stage
  approve_stage-AreReleased now stage row db out f c u d e h =
      let set = set_status stage.id approved db in
      let (db1, a, k) = >>=-eq-ok (insert_version now stage set) _ e in
      let (same, _) = insert_version-eq-ok now stage set db1 a in
      rw (← ok_injective k) (
        AreReleased-same db1 _ record { packages = refl; stages = refl; versions = refl }
          (insert_version-AreReleased is_denied now stage set db1 same
            (insert_version-Keeps now stage set db1 a) (approved_row stage row db f c) d
            (AreReleased-keeps is_denied db set (set_status-Keeps stage.id approved db u)
              (set_status-ComesFrom stage.id approved db) h)))

  decision-AreReleased :
      (now : ℕ) (stage row : StageRecord) (approve : Bool) (db out : Tables)
      → read_stage db stage.id ≡ some row
      → row ≡ with_status row.status stage
      → is_undecided (read_stage db stage.id) ≡ true
      → (approve ≡ true → is_denied stage.documents.assessment ≡ false)
      → (if approve then approve_stage now stage db else ok (set_status stage.id rejected db))
        ≡ ok out
      → AreReleased is_denied db
      → AreReleased is_denied out
  decision-AreReleased now stage row true db out f c u d e h =
      approve_stage-AreReleased now stage row db out f c u (d refl) e h
  decision-AreReleased now stage row false db out f c u d e h = rw (← ok_injective e) (
      AreReleased-keeps is_denied db _ (set_status-Keeps stage.id rejected db u)
        (set_status-ComesFrom stage.id rejected db) h)

  decide_staged-AreReleased :
      (now : ℕ) (stage row : StageRecord) (approve : Bool) (key : Text) (event : Value)
      (db out : Tables) (decided : Bool)
      → read_stage db stage.id ≡ some row
      → row ≡ with_status row.status stage
      → is_undecided (read_stage db stage.id) ≡ true
      → (approve ≡ true → is_denied stage.documents.assessment ≡ false)
      → decide_staged now stage approve key event db ≡ ok (decided, out)
      → AreReleased is_denied db
      → AreReleased is_denied out
  unfolding decide_staged
  decide_staged-AreReleased now stage row approve key event db out decided f c u d e h =
      let (db1, a, k) =
        >>=-eq-ok
          (if approve then approve_stage now stage db else ok (set_status stage.id rejected db)) _
          e in
      let (db2, b, l) = >>=-eq-ok (push_event now key event db1) _ k in
      rw (← left l) (
        push_event-AreReleased now key event db1 db2 b
          (decision-AreReleased now stage row approve db db1 f c u d a h))

  pub decide_stage-AreReleased :
      (now : ℕ) (stage row : StageRecord) (approve : Bool) (key : Text) (event : Value)
      (db out : Tables) (decided : Bool)
      → read_stage db stage.id ≡ some row
      → row ≡ with_status row.status stage
      → (approve ≡ true → is_denied stage.documents.assessment ≡ false)
      → decide_stage now stage approve key event db ≡ ok (decided, out)
      → AreReleased is_denied db
      → AreReleased is_denied out
  unfolding decide_stage
  decide_stage-AreReleased now stage row approve key event db out decided f c d e h =
      elim (Bool-cases (is_undecided (read_stage db stage.id))) [
        | inl t ↦
            decide_staged-AreReleased now stage row approve key event db out decided f c t d
              (rw t at e) h
        | inr t ↦ rw (← left (rw t at e)) h
      ]

  pub record_download-AreReleased :
      (name version : Text) (db : Tables)
      → AreReleased is_denied db
      → AreReleased is_denied (record_download name version db)
  unfolding record_download
  record_download-AreReleased name version db h =
      AreReleased-keeps is_denied db (record_download name version db)
        (record_download-Keeps name version db)
        (same_versions-ComesFrom (is_version name version) _ db
          (λ r. changed r r.status (r.download_count + 1)))
        h

  revoke_found-AreReleased :
      (semver : Semver) (now : ℕ) (x : Tombstone) (key : Text) (event : Value)
      (seen : List VersionRow) (db out : Tables) (found : Bool)
      → revoke_found semver now x key event seen db ≡ ok (found, out)
      → AreReleased is_denied db
      → AreReleased is_denied out
  unfolding revoke_found
  revoke_found-AreReleased semver now x key event seen db out found e h =
      let (db1, a, k) = >>=-eq-ok (push_event now key event _) _ e in
      let revoked = record db {
        versions = set_version_status x.name x.version x.status db.versions;
      } in
      rw (← left k) (
        push_event-AreReleased now key event _ db1 a (
          AreReleased-same revoked _ record { packages = refl; stages = refl; versions = refl }
            (AreReleased-keeps is_denied db revoked
              (update_versions-Keeps _ _ db (λ r. changed r x.status r.download_count))
              (same_versions-ComesFrom _ _ db (λ r. changed r x.status r.download_count)) h)))

  pub revoke_version-AreReleased :
      (semver : Semver) (now : ℕ) (x : Tombstone) (key : Text) (event : Value)
      (seen : List VersionRow) (db out : Tables) (found : Bool)
      → revoke_version semver now x key event seen db ≡ ok (found, out)
      → AreReleased is_denied db
      → AreReleased is_denied out
  unfolding revoke_version
  revoke_version-AreReleased semver now x key event seen db out found e h =
      elim (Bool-cases (is_some (find_version db x.name x.version))) [
        | inl t ↦ revoke_found-AreReleased semver now x key event seen db out found (rw t at e) h
        | inr t ↦ rw (← left (rw t at e)) h
      ]
