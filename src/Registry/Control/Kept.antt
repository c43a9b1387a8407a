-- ===== src/Registry/Control/Kept.antt =====
-- Every transaction of control_plane.rs keeps what History says that it keeps.
use oath.Prelude.{
  List, ℕ, ◌+◌, ◌≡◌, refl, ap, inl, inr, Bool, true, false, if◌then◌else◌, leb, Text, Bool-cases,
}
use oath.Prelude.Results.{Result, ok, >>=-eq-ok, ok_injective, ok_or-eq-ok, guard-eq-ok}
use oath.Prelude.Tables.{is_some, update_where}
use oath.Registry.Control.{
  VersionRow, Value, approved, rejected, StageRecord, Tombstone, PackageRole, Tables, Semver,
  is_version, find_package, ensure_package, check_package, insert_stage, insert_version,
  find_version, read_stage, pending_stages, push_event, add_stage, create_stage, set_status,
  approve_stage, decide_staged, is_undecided, decide_stage, record_download, revoke_found,
  revoke_version, grant_package_role, set_role, mark_outbox_delivered, retry_outbox,
}
use oath.Registry.Control.History.{
  Keeps, Keeps_refl, Keeps_trans, SameRows, SameStage-refl, SameRelease-refl, changed,
  push_event-Keeps, ensure_package-Keeps, insert_stage-Keeps, insert_version-Keeps,
  set_status-Keeps, update_versions-Keeps,
}

-- The tables that a transaction leaves.
pub left {ℓ κ} :
    {E : Type ℓ} {A : Type κ} {a b : A} {db out : Tables}
    → ◌≡◌ {A = Result E (A × Tables)} (ok (a, db)) (ok (b, out))
    → db ≡ out
left h = ap (λ x. x.1) (ok_injective h)

add_stage-Keeps :
    (now : ℕ) (stage : StageRecord) (key : Text) (event : Value) (db out : Tables) (created : Bool)
    → add_stage now stage key event db ≡ ok (created, out)
    → Keeps db out
unfolding add_stage
add_stage-Keeps now stage key event db out created h =
    let (db1, a, k1) = >>=-eq-ok (ensure_package stage db) _ h in
    let (_, _, k2) = >>=-eq-ok (check_package stage db1) _ k1 in
    let (db2, b, k3) = >>=-eq-ok (insert_stage stage db1) _ k2 in
    let (db3, c, k4) = >>=-eq-ok (push_event now key event db2) _ k3 in
    rw (← left k4) (
      Keeps_trans db db1 db3 (ensure_package-Keeps stage db db1 a) (
        Keeps_trans db1 db2 db3 (insert_stage-Keeps stage db1 db2 b)
          (push_event-Keeps now key event db2 db3 c)))

pub create_stage-Keeps :
    (now : ℕ) (stage : StageRecord) (key : Text) (event : Value) (maximum : ℕ) (db out : Tables)
    (created : Bool)
    → create_stage now stage key event maximum db ≡ ok (created, out)
    → Keeps db out
unfolding create_stage
create_stage-Keeps now stage key event maximum db out created h =
    elim (Bool-cases (leb maximum (pending_stages db stage.organization))) [
      | inl e ↦ rw (← left (rw e at h)) (Keeps_refl db)
      | inr e ↦ add_stage-Keeps now stage key event db out created (rw e at h)
    ]

approve_stage-Keeps :
    (now : ℕ) (stage : StageRecord) (db out : Tables)
    → is_undecided (read_stage db stage.id) ≡ true
    → approve_stage now stage db ≡ ok out
    → Keeps db out
unfolding approve_stage
approve_stage-Keeps now stage db out u h =
    let (db1, a, k) = >>=-eq-ok (insert_version now stage (set_status stage.id approved db)) _ h in
    rw (← ok_injective k) (
      Keeps_trans db (set_status stage.id approved db) _ (set_status-Keeps stage.id approved db u) (
        Keeps_trans (set_status stage.id approved db) db1 _ (insert_version-Keeps now stage _ db1 a)
          (record {
            packages = λ name p e. e;
            stages = λ id r e. (r, e, SameStage-refl r);
            versions = λ name version r e. (r, e, SameRelease-refl r);
          })))

decision-Keeps :
    (now : ℕ) (stage : StageRecord) (approve : Bool) (db out : Tables)
    → is_undecided (read_stage db stage.id) ≡ true
    → (if approve then approve_stage now stage db else ok (set_status stage.id rejected db))
      ≡ ok out
    → Keeps db out
decision-Keeps now stage true db out u h = approve_stage-Keeps now stage db out u h
decision-Keeps now stage false db out u h =
    rw (← ok_injective h) (set_status-Keeps stage.id rejected db u)

decide_staged-Keeps :
    (now : ℕ) (stage : StageRecord) (approve : Bool) (key : Text) (event : Value) (db out : Tables)
    (decided : Bool)
    → is_undecided (read_stage db stage.id) ≡ true
    → decide_staged now stage approve key event db ≡ ok (decided, out)
    → Keeps db out
unfolding decide_staged
decide_staged-Keeps now stage approve key event db out decided u h =
    let (db1, a, k) =
      >>=-eq-ok
        (if approve then approve_stage now stage db else ok (set_status stage.id rejected db)) _
        h in
    let (db2, b, l) = >>=-eq-ok (push_event now key event db1) _ k in
    rw (← left l) (
      Keeps_trans db db1 db2 (decision-Keeps now stage approve db db1 u a)
        (push_event-Keeps now key event db1 db2 b))

pub decide_stage-Keeps :
    (now : ℕ) (stage : StageRecord) (approve : Bool) (key : Text) (event : Value) (db out : Tables)
    (decided : Bool)
    → decide_stage now stage approve key event db ≡ ok (decided, out)
    → Keeps db out
unfolding decide_stage
decide_stage-Keeps now stage approve key event db out decided h =
    elim (Bool-cases (is_undecided (read_stage db stage.id))) [
      | inl e ↦ decide_staged-Keeps now stage approve key event db out decided e (rw e at h)
      | inr e ↦ rw (← left (rw e at h)) (Keeps_refl db)
    ]

pub record_download-Keeps :
    (name version : Text) (db : Tables) → Keeps db (record_download name version db)
unfolding record_download
record_download-Keeps name version db =
    update_versions-Keeps _ _ db (λ r. changed r r.status (r.download_count + 1))

module _ (semver : Semver) where
  revoke_found-Keeps :
      (now : ℕ) (x : Tombstone) (key : Text) (event : Value) (seen : List VersionRow)
      (db out : Tables) (found : Bool)
      → revoke_found semver now x key event seen db ≡ ok (found, out)
      → Keeps db out
  unfolding revoke_found
  revoke_found-Keeps now x key event seen db out found h =
      let (db1, a, k) = >>=-eq-ok (push_event now key event _) _ h in
      rw (← left k) (
        Keeps_trans db
          (record db {
            versions =
                update_where (is_version x.name x.version) (λ v. record v { status = x.status })
                  db.versions;
          })
          db1 (update_versions-Keeps _ _ db (λ r. changed r x.status r.download_count))
          (Keeps_trans _ _ db1
            (record {
              packages = λ name p e. e;
              stages = λ id r e. (r, e, SameStage-refl r);
              versions = λ name version r e. (r, e, SameRelease-refl r);
            })
            (push_event-Keeps now key event _ db1 a)))

  pub revoke_version-Keeps :
      (now : ℕ) (x : Tombstone) (key : Text) (event : Value) (seen : List VersionRow)
      (db out : Tables) (found : Bool)
      → revoke_version semver now x key event seen db ≡ ok (found, out)
      → Keeps db out
  unfolding revoke_version
  revoke_version-Keeps now x key event seen db out found h =
      elim (Bool-cases (is_some (find_version db x.name x.version))) [
        | inl e ↦ revoke_found-Keeps now x key event seen db out found (rw e at h)
        | inr e ↦ rw (← left (rw e at h)) (Keeps_refl db)
      ]

pub grant_package_role-SameRows :
    (x : PackageRole) (db out : Tables) → grant_package_role x db ≡ ok out → SameRows db out
unfolding grant_package_role
grant_package_role-SameRows x db out h =
    let (p, e, k) = ok_or-eq-ok (find_package db x.name) _ _ h in
    let (_, l) = guard-eq-ok _ _ _ k in
    rw (← ok_injective {a = record db { package_roles = set_role x db.package_roles }} l)
      (record { packages = refl; stages = refl; versions = refl })

pub mark_outbox_delivered-SameRows :
    (now id : ℕ) (db : Tables) → SameRows db (mark_outbox_delivered now id db)
unfolding mark_outbox_delivered
mark_outbox_delivered-SameRows now id db = record {
  packages = refl;
  stages = refl;
  versions = refl;
}

pub retry_outbox-SameRows : (now id : ℕ) (db : Tables) → SameRows db (retry_outbox now id db)
unfolding retry_outbox
retry_outbox-SameRows now id db = record { packages = refl; stages = refl; versions = refl }
