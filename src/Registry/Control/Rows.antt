-- ===== src/Registry/Control/Rows.antt =====
-- The tables of crates/oath-registry/migrations with their rows, and which rows a statement means.
-- Statuses, which are texts in the tables, are data types here; a JSON value is its text.
use oath.Prelude.{ℕ, ◌&&◌, Bool, true, false, Option, List, Text, text_eq}
use oath.Prelude.Results.{Result}
use oath.Prelude.Tables.{find}

abbrev pub Value : Type 0
Value = Text

pub data StageStatus : Type 0 where
  staged approved rejected : StageStatus

pub data VersionStatus : Type 0 where
  active revoked quarantined : VersionStatus

abbrev pub is_staged : StageStatus → Bool
is_staged staged = true
is_staged _ = false

abbrev pub is_active : VersionStatus → Bool
is_active active = true
is_active _ = false

-- The JSON columns that a stage and the version made of it share.
pub record Documents : Type 0 where
  pub manifest : Value
  pub publisher_assessment : Value
  pub assessment : Value
  pub server_evidence : Value
  pub sbom : Value
  pub provenance : Value

pub record StageRecord : Type 0 where
  pub id : Text
  pub organization : Text
  pub name : Text
  pub version : Text
  pub tag : Text
  pub digest : Text
  pub status : StageStatus
  pub private : Bool
  pub documents : Documents
  pub created_at : ℕ

pub record PackageRecord : Type 0 where
  pub name : Text
  pub organization : Text
  pub private : Bool

pub record VersionRow : Type 0 where
  pub name : Text
  pub version : Text
  pub organization : Text
  pub digest : Text
  pub status : VersionStatus
  pub private : Bool
  pub documents : Documents
  pub published_at : ℕ
  pub download_count : ℕ

pub record DistTag : Type 0 where
  pub name : Text
  pub tag : Text
  pub version : Text

pub record Tombstone : Type 0 where
  pub name : Text
  pub version : Text
  pub status : VersionStatus
  pub reason : Text
  pub actor_org : Text
  pub created_at : ℕ
  pub signature : Text
  pub public_key : Text

pub record OutboxRow : Type 0 where
  pub id : ℕ
  pub event_key : Text
  pub event_json : Value
  pub attempts : ℕ
  pub available_at : ℕ
  pub delivered_at : Option ℕ

pub record PackageRole : Type 0 where
  pub name : Text
  pub organization : Text
  pub principal_org : Text
  pub role : Text

pub record Tables : Type 0 where
  pub organizations : List Text
  pub packages : List PackageRecord
  pub package_roles : List PackageRole
  pub stages : List StageRecord
  pub versions : List VersionRow
  pub dist_tags : List DistTag
  pub tombstones : List Tombstone
  pub outbox : List OutboxRow
  pub next_outbox_id : ℕ

pub data ControlError : Type 0 where
  unique_violation foreign_key_violation wrong_organization visibility_changed package_not_found :
      ControlError

abbrev pub Transaction : Type 0 → Type 0
Transaction A = Result ControlError (A × Tables)

-- Which rows a statement means.
abbrev pub is_package : Text → PackageRecord → Bool
is_package name p = text_eq p.name name

abbrev pub is_stage : Text → StageRecord → Bool
is_stage id s = text_eq s.id id

abbrev pub is_release : Text → Text → StageRecord → Bool
is_release name version s = text_eq s.name name && text_eq s.version version

abbrev pub is_version : Text → Text → VersionRow → Bool
is_version name version v = text_eq v.name name && text_eq v.version version

abbrev pub is_tag : Text → Text → DistTag → Bool
is_tag name tag t = text_eq t.name name && text_eq t.tag tag

abbrev pub tags_version : Text → Text → DistTag → Bool
tags_version name version t = text_eq t.name name && text_eq t.version version

abbrev pub find_package : Tables → Text → Option PackageRecord
find_package db name = find (is_package name) db.packages

abbrev pub read_stage : Tables → Text → Option StageRecord
read_stage db id = find (is_stage id) db.stages

abbrev pub find_version : Tables → Text → Text → Option VersionRow
find_version db name version = find (is_version name version) db.versions
