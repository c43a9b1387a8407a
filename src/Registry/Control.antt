-- ===== src/Registry/Control.antt =====
-- The statements of control_plane.rs on the tables of Rows. A transaction gives its new tables,
-- or an error and leaves the old ones. `now` is the clock in seconds.
mod Rows
pub mod Effects
pub mod History
pub mod Kept
pub mod Live
pub mod Origin
pub mod Release
pub mod Released
pub mod Decisions
pub mod Approval
mod Limits
mod Invitations
pub mod Tags
mod Runs
use oath.Prelude.{
  ℕ, zero, suc, ◌+◌, ◌-◌, ◌%◌, ◌==◌, ◌&&◌, ◌||◌, Bool, true, false, not, ltb, leb, if◌then◌else◌,
  Option, none, some, List, [], ◌∷◌, ◌++◌, map, length, take, Text, codes, text_eq, contains_text,
}
use oath.Prelude.Results.{Result, ok, err, ◌>>=◌, ◌>>◌, guard, ok_or}
use oath.Prelude.Tables.{find, update_where, delete_where, select, is_some}
use oath.Core.Policy.{eq_ignore_ascii_case}
pub use Rows.*

-- The role that an organization has for a package of another.
unfoldable pub package_role : Tables → Text → Text → Option Text
package_role db name organization =
    elim (find (λ r. text_eq r.name name && text_eq r.principal_org organization)
      db.package_roles) [ none ↦ none | some r ↦ some r.role ]

abbrev pub new_event : ℕ → ℕ → Text → Value → OutboxRow
new_event id now event_key event = record {
  id = id;
  event_key = event_key;
  event_json = event;
  attempts = 0;
  available_at = now;
  delivered_at = none;
}

-- `INSERT INTO registry_outbox`; its event key is unique.
unfoldable pub push_event : ℕ → Text → Value → Tables → Result ControlError Tables
push_event now event_key event db = do
  guard (not (is_some (find (λ o. text_eq o.event_key event_key) db.outbox))) unique_violation
  ok (record db {
    outbox = db.outbox ++ new_event db.next_outbox_id now event_key event ∷ [];
    next_outbox_id = db.next_outbox_id + 1;
  })

abbrev pub new_package : StageRecord → PackageRecord
new_package stage = record {
  name = stage.name;
  organization = stage.organization;
  private = stage.private;
}

-- `INSERT INTO packages … ON CONFLICT (name) DO NOTHING`
unfoldable pub ensure_package : StageRecord → Tables → Result ControlError Tables
ensure_package stage db = elim (find_package db stage.name) [
  | some p ↦ ok db
  | none ↦ do
    guard (contains_text db.organizations stage.organization) foreign_key_violation
    ok (record db { packages = db.packages ++ new_package stage ∷ [] })
]

abbrev pub bool_eq : Bool → Bool → Bool
bool_eq true c = c
bool_eq false c = not c

-- The owner and the visibility that the package has are those of the stage.
unfoldable pub check_package : StageRecord → Tables → Result ControlError (Unit {0})
check_package stage db = do
  p ← ok_or (find_package db stage.name) package_not_found
  guard (text_eq p.organization stage.organization) wrong_organization
  guard (bool_eq p.private stage.private) visibility_changed

-- `INSERT INTO stages`; the id is unique, and so are the name and the version together.
unfoldable pub insert_stage : StageRecord → Tables → Result ControlError Tables
insert_stage stage db = do
  guard (contains_text db.organizations stage.organization) foreign_key_violation
  guard (not (is_some (read_stage db stage.id))) unique_violation
  guard (not (is_some (find (is_release stage.name stage.version) db.stages))) unique_violation
  ok (record db { stages = db.stages ++ stage ∷ [] })

-- `SELECT COUNT(*) FROM stages WHERE organization=$1 AND status='staged'`
abbrev pub pending_stages : Tables → Text → ℕ
pending_stages db organization =
    length (select (λ s. text_eq s.organization organization && is_staged s.status) db.stages)

-- The rest of the transaction once the quota is not used up.
unfoldable pub add_stage : ℕ → StageRecord → Text → Value → Tables → Transaction Bool
add_stage now stage event_key event db = do
  db1 ← ensure_package stage db
  check_package stage db1
  db2 ← insert_stage stage db1
  db3 ← push_event now event_key event db2
  ok (true, db3)

unfoldable pub create_stage : ℕ → StageRecord → Text → Value → ℕ → Tables → Transaction Bool
create_stage now stage event_key event maximum_pending_stages db =
    if leb maximum_pending_stages (pending_stages db stage.organization)
    then ok (false, db)
    else add_stage now stage event_key event db

abbrev pub new_version : ℕ → StageRecord → VersionRow
new_version now stage = record {
  name = stage.name;
  version = stage.version;
  organization = stage.organization;
  digest = stage.digest;
  status = active;
  private = stage.private;
  documents = stage.documents;
  published_at = now;
  download_count = 0;
}

-- `INSERT INTO versions`, of what the stage has; name and version are unique together.
unfoldable pub insert_version : ℕ → StageRecord → Tables → Result ControlError Tables
insert_version now stage db = do
  guard (contains_text db.organizations stage.organization) foreign_key_violation
  guard (not (is_some (find_version db stage.name stage.version))) unique_violation
  ok (record db { versions = db.versions ++ new_version now stage ∷ [] })

-- `INSERT INTO dist_tags … ON CONFLICT (name,tag) DO UPDATE`
unfoldable pub set_tag : Text → Text → Text → List DistTag → List DistTag
set_tag name tag version [] = record { name = name; tag = tag; version = version } ∷ []
set_tag name tag version (t ∷ ts) =
    let rest = set_tag name tag version ts in
    if is_tag name tag t then record t { version = version } ∷ ts else t ∷ rest

abbrev pub set_status : Text → StageStatus → Tables → Tables
set_status id status db = record db {
  stages = update_where (is_stage id) (λ s. record s { status = status }) db.stages;
}

-- The two branches of the decision.
unfoldable pub approve_stage : ℕ → StageRecord → Tables → Result ControlError Tables
approve_stage now stage db = do
  db1 ← insert_version now stage (set_status stage.id approved db)
  ok (record db1 { dist_tags = set_tag stage.name stage.tag stage.version db1.dist_tags })

unfoldable pub decide_staged : ℕ → StageRecord → Bool → Text → Value → Tables → Transaction Bool
decide_staged now stage approve event_key event db = do
  db1 ← if approve then approve_stage now stage db else ok (set_status stage.id rejected db)
  db2 ← push_event now event_key event db1
  ok (true, db2)

-- Whether the stage is there and still undecided.
abbrev pub is_undecided : Option StageRecord → Bool
is_undecided none = false
is_undecided (some s) = is_staged s.status

-- The reason for the decision is stored with the stage and not read by the service.
unfoldable pub decide_stage : ℕ → StageRecord → Bool → Text → Value → Tables → Transaction Bool
decide_stage now stage approve event_key event db =
    if is_undecided (read_stage db stage.id)
    then decide_staged now stage approve event_key event db
    else ok (false, db)

pub record_download : Text → Text → Tables → Tables
record_download name version db = record db {
  versions =
      update_where (is_version name version)
        (λ v. record v { download_count = v.download_count + 1 }) db.versions;
}

-- `INSERT INTO tombstones … ON CONFLICT (name,version) DO UPDATE`
unfoldable pub set_tombstone : Tombstone → List Tombstone → List Tombstone
set_tombstone x [] = x ∷ []
set_tombstone x (t ∷ ts) =
    let rest = set_tombstone x ts in
    if text_eq t.name x.name && text_eq t.version x.version then x ∷ ts else t ∷ rest

abbrev pub set_version_status : Text → Text → VersionStatus → List VersionRow → List VersionRow
set_version_status name version status =
    update_where (is_version name version) (λ v. record v { status = status })

-- The order of versions by the semver crate.
pub record Semver : Type 1 where
  pub Version : Type 0
  pub parse : Text → Option Version
  pub le : Version → Version → Bool

module _ (semver : Semver) where
  open semver use {Version, parse, le}

  -- `filter_map(parse)`, with each version's text.
  unfoldable pub parsed : List VersionRow → List (Version × Text)
  parsed [] = []
  parsed (v ∷ vs) = elim (parse v.version) [
    | none ↦ parsed vs
    | some p ↦ (p, v.version) ∷ parsed vs
  ]

  -- `max_by`, which keeps the later one of two that compare equal.
  unfoldable pub latest : Version × Text → List (Version × Text) → Version × Text
  latest best [] = best
  latest best (x ∷ xs) = latest (if le best.0 x.0 then x else best) xs

  unfoldable pub highest : List (Version × Text) → Option Text
  highest [] = none
  highest (x ∷ xs) = some (latest x xs).1

  -- The version that tags roll back to: the highest active one.
  unfoldable pub rollback_version : Text → List VersionRow → Option Text
  rollback_version name versions =
      highest (parsed (select (λ v. text_eq v.name name && is_active v.status) versions))

  -- The tags of the revoked version move to that one, or are deleted.
  unfoldable pub roll_back : Text → Text → Option Text → List DistTag → List DistTag
  roll_back name version none tags = delete_where (tags_version name version) tags
  roll_back name version (some rollback) tags =
      update_where (tags_version name version) (λ t. record t { version = rollback }) tags

  -- `seen` are the versions that were committed when `SELECT version … status='active'` ran; the
  -- transaction sees its own update of them.
  unfoldable pub revoke_found :
      ℕ → Tombstone → Text → Value → List VersionRow → Tables → Transaction Bool
  revoke_found now x event_key event seen db =
      let active_ones = set_version_status x.name x.version x.status seen in
      let rolled = record db {
        versions = set_version_status x.name x.version x.status db.versions;
        tombstones = set_tombstone x db.tombstones;
        dist_tags = roll_back x.name x.version (rollback_version x.name active_ones) db.dist_tags;
      } in
      do db1 ← push_event now event_key event rolled; ok (true, db1)

  unfoldable pub revoke_version :
      ℕ → Tombstone → Text → Value → List VersionRow → Tables → Transaction Bool
  revoke_version now x event_key event seen db =
      if is_some (find_version db x.name x.version)
      then revoke_found now x event_key event seen db
      else ok (false, db)

-- `INSERT INTO package_roles … ON CONFLICT (name,principal_org) DO UPDATE`
pub set_role : PackageRole → List PackageRole → List PackageRole
set_role x [] = x ∷ []
set_role x (r ∷ rs) =
    let rest = set_role x rs in
    if text_eq r.name x.name && text_eq r.principal_org x.principal_org then x ∷ rs else r ∷ rest

pub grant_package_role : PackageRole → Tables → Result ControlError Tables
grant_package_role x db = do
  p ← ok_or (find_package db x.name) package_not_found
  guard (text_eq p.organization x.organization) wrong_organization
  ok (record db { package_roles = set_role x db.package_roles })

-- The undelivered events that are due, in the order of their ids, which is that of insertion.
pub pending_outbox : ℕ → ℕ → Tables → List OutboxRow
pending_outbox now limit db =
    take limit (select (λ o. not (is_some o.delivered_at) && leb o.available_at now) db.outbox)

pub mark_outbox_delivered : ℕ → ℕ → Tables → Tables
mark_outbox_delivered now id db = record db {
  outbox = update_where (λ o. o.id == id) (λ o. record o { delivered_at = some now }) db.outbox;
}

pub retry_outbox : ℕ → ℕ → Tables → Tables
retry_outbox now id db = record db {
  outbox =
      update_where (λ o. o.id == id)
        (λ o. record o { attempts = o.attempts + 1; available_at = now + 5 }) db.outbox;
}
