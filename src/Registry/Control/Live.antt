-- ===== src/Registry/Control/Live.antt =====
-- Every transaction leaves one row for each version, and tags that point to active versions.
use oath.Prelude.{
  ℕ, ◌≡◌, refl, ap, ◌∙◌, ◌+◌, inl, inr, &&-eq-true, Bool, true, false, if◌then◌else◌, [], ◌∷◌, ◌++◌,
  Text, text_eq_iff, Bool-cases, leb,
}
use oath.Prelude.Results.{ok, >>=-eq-ok, ok_injective, ok_or-eq-ok, guard-eq-ok}
use oath.Prelude.Tables.{is_some, find-append_none, find-one, find-passes, All-map}
use oath.Registry.Control.{
  PackageRole, grant_package_role, set_role, find_package, mark_outbox_delivered, retry_outbox,
  Value, VersionStatus, is_active, approved, rejected, StageRecord, VersionRow, DistTag, Tombstone,
  Tables, Semver, is_version, tags_version, new_version, pending_stages, ensure_package,
  check_package, insert_stage, push_event, add_stage, create_stage, insert_version, approve_stage,
  set_status, decide_staged, decide_stage, is_undecided, read_stage, record_download,
  set_version_status, rollback_version, revoke_found, revoke_version, find_version,
}
use oath.Registry.Control.Effects.{
  push_event-eq-ok, ensure_package-eq-ok, insert_stage-eq-ok, insert_version-eq-ok,
}
use oath.Registry.Control.Kept.{left}
use oath.Registry.Control.Tags.{
  HasOneEach, AreLive, HasOneEach-append, IsLive-append, HasOneEach-update, IsLive-update,
  AreLive-set_tag, rollback_version-IsLive, AreLive-roll_back, is_version_refl,
}

-- The versions and the tags of a registry.
pub record AreTagged (db : Tables) : Type 0 where
  pub one_each : HasOneEach db.versions
  pub live : AreLive db.versions db.dist_tags

pub record SameTagged (db out : Tables) : Type 0 where
  pub versions : db.versions ≡ out.versions
  pub dist_tags : db.dist_tags ≡ out.dist_tags

pub AreTagged-same : (db out : Tables) → SameTagged db out → AreTagged db → AreTagged out
AreTagged-same db out s h = record {
  one_each = rw (← s.versions) h.one_each;
  live = rw (← s.versions, ← s.dist_tags) h.live;
}

pub push_event-AreTagged :
    (now : ℕ) (key : Text) (event : Value) (db out : Tables)
    → push_event now key event db ≡ ok out
    → AreTagged db
    → AreTagged out
push_event-AreTagged now key event db out e h =
    rw (← push_event-eq-ok now key event db out e) (record { one_each = h.one_each; live = h.live })

ensure_package-SameTagged :
    (stage : StageRecord) (db out : Tables) → ensure_package stage db ≡ ok out → SameTagged db out
ensure_package-SameTagged stage db out h = elim (ensure_package-eq-ok stage db out h) [
  | inl (e, _) ↦ record { versions = ap (λ t. t.versions) e; dist_tags = ap (λ t. t.dist_tags) e }
  | inr (e, _) ↦ record { versions = ap (λ t. t.versions) e; dist_tags = ap (λ t. t.dist_tags) e }
]

add_stage-AreTagged :
    (now : ℕ) (stage : StageRecord) (key : Text) (event : Value) (db out : Tables) (created : Bool)
    → add_stage now stage key event db ≡ ok (created, out)
    → AreTagged db
    → AreTagged out
unfolding add_stage
add_stage-AreTagged now stage key event db out created e h =
    let (db1, a, k1) = >>=-eq-ok (ensure_package stage db) _ e in
    let (_, _, k2) = >>=-eq-ok (check_package stage db1) _ k1 in
    let (db2, b, k3) = >>=-eq-ok (insert_stage stage db1) _ k2 in
    let (db3, c, k4) = >>=-eq-ok (push_event now key event db2) _ k3 in
    rw (← left k4) (
      push_event-AreTagged now key event db2 db3 c (
        rw (← (insert_stage-eq-ok stage db1 db2 b).0) (
          let rest = AreTagged-same db db1 (ensure_package-SameTagged stage db db1 a) h in
          record { one_each = rest.one_each; live = rest.live })))

approve_stage-AreTagged :
    (now : ℕ) (stage : StageRecord) (db out : Tables)
    → approve_stage now stage db ≡ ok out
    → AreTagged db
    → AreTagged out
unfolding approve_stage
approve_stage-AreTagged now stage db out e h =
    let (db1, a, k) = >>=-eq-ok (insert_version now stage (set_status stage.id approved db)) _ e in
    let (same, fresh) = insert_version-eq-ok now stage _ db1 a in
    let v = new_version now stage in
    rw (← ok_injective k, ← same)
      (record {
        one_each = HasOneEach-append db.versions v fresh h.one_each;
        live =
            AreLive-set_tag (db.versions ++ v ∷ []) stage.name stage.tag stage.version db.dist_tags
              (
                v,
                find-append_none (is_version v.name v.version) db.versions (v ∷ []) fresh
                    ∙ find-one _ v (is_version_refl v),
                refl,
              )
              (All-map _ _ _ (λ t l. IsLive-append _ _ _ _ l) h.live);
      })

kept_active :
    (test : Bool) (v : VersionRow) (n : ℕ)
    → is_active v.status ≡ true
    → is_active (if test then record v { download_count = n } else v).status ≡ true
kept_active true v n a = a
kept_active false v n a = a

pub record_download-AreTagged :
    (name version : Text) (db : Tables) → AreTagged db → AreTagged (record_download name version db)
unfolding record_download
record_download-AreTagged name version db h = record {
  one_each = HasOneEach-update _ _ db.versions (λ v. (refl, refl)) h.one_each;
  live =
      All-map _ _ db.dist_tags
        (λ t l.
          IsLive-update _ _ db.versions _ _ (λ v. (refl, refl))
            (λ v e a. kept_active (is_version name version v) v (v.download_count + 1) a) l)
        h.live;
}

-- A row that a tag of another version points to is not changed.
untouched_active :
    (name version : Text) (status : VersionStatus) (t : DistTag) (v : VersionRow)
    → tags_version name version t ≡ false
    → is_version t.name t.version v ≡ true
    → is_active v.status ≡ true
    → is_active (if is_version name version v then record v { status = status } else v).status
      ≡ true
untouched_active name version status t v k p a =
    let (n, m) = &&-eq-true _ _ p in
    let e = (text_eq_iff v.name t.name).0 n in
    let f = (text_eq_iff v.version t.version).0 m in rw (e, f, k) a

module _ (semver : Semver) where
  revoke_found-AreTagged :
      (now : ℕ) (x : Tombstone) (key : Text) (event : Value) (db out : Tables) (found : Bool)
      → revoke_found semver now x key event db.versions db ≡ ok (found, out)
      → AreTagged db
      → AreTagged out
  unfolding revoke_found
  revoke_found-AreTagged now x key event db out found e h =
      let versions = set_version_status x.name x.version x.status db.versions in
      let unique =
        HasOneEach-update (is_version x.name x.version) (λ v. record v { status = x.status })
          db.versions (λ v. (refl, refl)) h.one_each in
      let (db1, a, k) = >>=-eq-ok (push_event now key event _) _ e in
      rw (← left k) (
        push_event-AreTagged now key event _ db1 a (record {
          one_each = unique;
          live =
              AreLive-roll_back semver versions x.name x.version
                (rollback_version semver x.name versions) db.dist_tags
                (λ r f. rollback_version-IsLive semver x.name versions r unique f)
                (All-map _ _ db.dist_tags
                  (λ t l k.
                    IsLive-update (is_version x.name x.version)
                      (λ v. record v { status = x.status }) db.versions t.name t.version
                      (λ v. (refl, refl))
                      (λ v f a.
                        untouched_active x.name x.version x.status t v k
                          (find-passes (is_version t.name t.version) db.versions v f) a)
                      l)
                  h.live);
        }))

  pub revoke_version-AreTagged :
      (now : ℕ) (x : Tombstone) (key : Text) (event : Value) (db out : Tables) (found : Bool)
      → revoke_version semver now x key event db.versions db ≡ ok (found, out)
      → AreTagged db
      → AreTagged out
  unfolding revoke_version
  revoke_version-AreTagged now x key event db out found e h =
      elim (Bool-cases (is_some (find_version db x.name x.version))) [
        | inl t ↦ revoke_found-AreTagged now x key event db out found (rw t at e) h
        | inr t ↦ rw (← left (rw t at e)) h
      ]

pub create_stage-AreTagged :
    (now : ℕ) (stage : StageRecord) (key : Text) (event : Value) (maximum : ℕ) (db out : Tables)
    (created : Bool)
    → create_stage now stage key event maximum db ≡ ok (created, out)
    → AreTagged db
    → AreTagged out
unfolding create_stage
create_stage-AreTagged now stage key event maximum db out created e h =
    elim (Bool-cases (leb maximum (pending_stages db stage.organization))) [
      | inl t ↦ rw (← left (rw t at e)) h
      | inr t ↦ add_stage-AreTagged now stage key event db out created (rw t at e) h
    ]

decision-AreTagged :
    (now : ℕ) (stage : StageRecord) (approve : Bool) (db out : Tables)
    → (if approve then approve_stage now stage db else ok (set_status stage.id rejected db))
      ≡ ok out
    → AreTagged db
    → AreTagged out
decision-AreTagged now stage true db out e h = approve_stage-AreTagged now stage db out e h
decision-AreTagged now stage false db out e h =
    rw (← ok_injective e) (record { one_each = h.one_each; live = h.live })

decide_staged-AreTagged :
    (now : ℕ) (stage : StageRecord) (approve : Bool) (key : Text) (event : Value) (db out : Tables)
    (decided : Bool)
    → decide_staged now stage approve key event db ≡ ok (decided, out)
    → AreTagged db
    → AreTagged out
unfolding decide_staged
decide_staged-AreTagged now stage approve key event db out decided e h =
    let (db1, a, k) =
      >>=-eq-ok
        (if approve then approve_stage now stage db else ok (set_status stage.id rejected db)) _
        e in
    let (db2, b, l) = >>=-eq-ok (push_event now key event db1) _ k in
    rw (← left l) (
      push_event-AreTagged now key event db1 db2 b
        (decision-AreTagged now stage approve db db1 a h))

pub decide_stage-AreTagged :
    (now : ℕ) (stage : StageRecord) (approve : Bool) (key : Text) (event : Value) (db out : Tables)
    (decided : Bool)
    → decide_stage now stage approve key event db ≡ ok (decided, out)
    → AreTagged db
    → AreTagged out
unfolding decide_stage
decide_stage-AreTagged now stage approve key event db out decided e h =
    elim (Bool-cases (is_undecided (read_stage db stage.id))) [
      | inl t ↦ decide_staged-AreTagged now stage approve key event db out decided (rw t at e) h
      | inr t ↦ rw (← left (rw t at e)) h
    ]

pub grant_package_role-SameTagged :
    (x : PackageRole) (db out : Tables) → grant_package_role x db ≡ ok out → SameTagged db out
unfolding grant_package_role
grant_package_role-SameTagged x db out h =
    let (p, e, k) = ok_or-eq-ok (find_package db x.name) _ _ h in
    let (_, l) = guard-eq-ok _ _ _ k in
    rw (← ok_injective {a = record db { package_roles = set_role x db.package_roles }} l)
      (record { versions = refl; dist_tags = refl })

pub mark_outbox_delivered-SameTagged :
    (now id : ℕ) (db : Tables) → SameTagged db (mark_outbox_delivered now id db)
unfolding mark_outbox_delivered
mark_outbox_delivered-SameTagged now id db = record { versions = refl; dist_tags = refl }

pub retry_outbox-SameTagged : (now id : ℕ) (db : Tables) → SameTagged db (retry_outbox now id db)
unfolding retry_outbox
retry_outbox-SameTagged now id db = record { versions = refl; dist_tags = refl }
