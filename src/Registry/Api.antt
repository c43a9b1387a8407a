-- ===== src/Registry/Api.antt =====
-- The handlers of crates/oath-registry/src/postgres_api.rs that change what the registry publishes,
-- over the transactions of Registry/Control. A handler that fails leaves the tables as they are,
-- but for `grant_role`, which may fail after its transaction.
pub mod Accepted
mod Runs
pub mod World
use oath.Prelude.{
  ℕ, ◌&&◌, ◌||◌, ◌==◌, Bool, true, false, not, if◌then◌else◌, Option, none, some, List, [], ◌∷◌,
  ◌++◌, Text, codes, text_eq,
}
use oath.Prelude.Results.{Result, ok, err, ◌>>=◌, ◌>>◌, guard, ok_or}
use oath.Prelude.Tables.{is_some}
use oath.Registry.Control
use oath.Registry.Control.{
  VersionRow, Value, StageStatus, staged, VersionStatus, revoked, quarantined, Documents,
  StageRecord, PackageRecord, PackageRole, Tombstone, Tables, ControlError, Semver, find_package,
  read_stage, package_role, bool_eq, grant_package_role,
}

pub record Principal : Type 0 where
  pub organization : Text
  pub role : Text
  pub kind : Text

pub data ApiError : Type 0 where
  forbidden not_found conflict bad_request too_many_requests internal : ApiError

pub record StageRequest : Type 0 where
  pub name : Text
  pub version : Text
  pub tag : Text
  pub private : Bool
  pub assessment : Value
  pub tarball_base64 : Text

-- What the handler makes of the tarball: its digest and the documents of the stage.
pub record Prepared : Type 0 where
  pub digest : Text
  pub documents : Documents

-- What the handlers take from other crates, and their configuration. `prepare` reads, assesses and
-- stores the tarball, or fails; `decision` is the field of that name of an assessment.
pub record Env : Type 1 where
  pub semver : Semver
  pub sha256_hex : Text → Text
  pub decimal : ℕ → Text
  pub prepare : Principal → StageRequest → Result ApiError Prepared
  pub decision : Value → Option Text
  pub stage_event : Principal → StageRecord → Value
  pub decision_event : Principal → StageRecord → Bool → Value
  pub tombstone_event : Tombstone → Value
  pub sign : Text → Text → VersionStatus → Text → Text → ℕ → Text × Text
  pub require_step_up_approval : Bool
  pub maximum_pending_stages : ℕ

-- `map_err(ApiError::internal)`
pub internal_error {ℓ} : {A : Type ℓ} → Result ControlError A → Result ApiError A
internal_error (ok a) = ok a
internal_error (err e) = err internal

-- `"publisher" | "admin"`
abbrev pub may_publish : Text → Bool
may_publish role = text_eq role (codes "publisher") || text_eq role (codes "admin")

-- The text before the first slash.
pub before_slash : Text → Text
before_slash [] = []
before_slash (c ∷ cs) = let rest = before_slash cs in if c == b'/' then [] else c ∷ rest

-- Whether a name that starts with `@` has the organization for its scope.
pub in_scope : Text → Text → Bool
in_scope organization [] = true
in_scope organization (c ∷ cs) = if c == b'@' then text_eq (before_slash cs) organization else true

-- `(false, Some(_)) | (true, Some("publisher" | "admin"))`
abbrev pub role_allows : Bool → Option Text → Bool
role_allows write none = false
role_allows write (some role) = not write || may_publish role

pub authorize_name : Principal → Text → Bool → Tables → Result ApiError Text
authorize_name principal name write db = elim (find_package db name) [
  | some package_row ↦
      if text_eq package_row.organization principal.organization
      then if write && not (may_publish principal.role)
        then err forbidden
        else ok package_row.organization
      else if role_allows write (package_role db name principal.organization)
      then ok package_row.organization
      else err forbidden
  | none ↦ do
    guard write not_found
    guard (may_publish principal.role) forbidden
    guard (in_scope principal.organization name) forbidden
    ok principal.organization
]

abbrev pub has_visibility : Bool → Option PackageRecord → Bool
has_visibility private none = true
has_visibility private (some p) = bool_eq p.private private

module _ (env : Env) where
  open env use {
    semver, sha256_hex, decimal, prepare, decision, stage_event, decision_event, tombstone_event,
    sign, require_step_up_approval, maximum_pending_stages,
  }

  pub new_stage : Text → StageRequest → Prepared → ℕ → StageRecord
  new_stage owner request prepared now = record {
    id = sha256_hex (
        owner
        ++ codes ":"
        ++ request.name
        ++ codes ":"
        ++ request.version
        ++ codes ":"
        ++ prepared.digest
        ++ codes ":"
        ++ decimal now);
    organization = owner;
    name = request.name;
    version = request.version;
    tag = request.tag;
    digest = prepared.digest;
    status = staged;
    private = request.private;
    documents = prepared.documents;
    created_at = now;
  }

  -- The rest of the handler, with the stage that it has made.
  pub store_stage : ℕ → Principal → StageRecord → Tables → Result ApiError (StageRecord × Tables)
  store_stage now principal stage db = do
    (created, db1) ← internal_error (
        Control.create_stage now stage (codes "stage.created:" ++ stage.id)
          (stage_event principal stage) maximum_pending_stages db)
    guard created too_many_requests
    ok (stage, db1)

  pub create_stage : ℕ → Principal → StageRequest → Tables → Result ApiError (StageRecord × Tables)
  create_stage now principal request db = do
    owner ← authorize_name principal request.name true db
    guard (has_visibility request.private (find_package db request.name)) conflict
    guard (is_some (semver.parse request.version)) bad_request
    prepared ← prepare principal request
    store_stage now principal (new_stage owner request prepared now) db

  abbrev pub is_denied : Value → Bool
  is_denied assessment = elim (decision assessment) [
    | none ↦ false
    | some d ↦ text_eq d (codes "deny")
  ]

  -- The tests of `decide` up to its transaction, on the stage that it read.
  pub authorize_decision : Principal → Bool → Option StageRecord → Result ApiError StageRecord
  authorize_decision principal approve read = do
    guard (text_eq principal.role (codes "admin")) forbidden
    guard
        (not
          (approve && require_step_up_approval && not (text_eq principal.kind (codes "oidc-mfa"))))
        forbidden
    stage ← ok_or read not_found
    guard (text_eq stage.organization principal.organization) forbidden
    guard (not (approve && is_denied stage.documents.assessment)) conflict
    ok stage

  abbrev pub decision_key : Bool → StageRecord → Text
  decision_key approve stage =
      (if approve then codes "stage.approved:" else codes "stage.rejected:") ++ stage.id

  -- The transaction of `decide`, which may run after other requests than the read did.
  pub decide_read : ℕ → Principal → Bool → StageRecord → Tables → Result ApiError Tables
  decide_read now principal approve stage db = do
    (decided, db1) ← internal_error (
        Control.decide_stage now stage approve (decision_key approve stage)
          (decision_event principal stage approve) db)
    guard decided conflict
    ok db1

  pub decide : ℕ → Principal → Bool → Text → Tables → Result ApiError Tables
  decide now principal approve id db = do
    stage ← authorize_decision principal approve (read_stage db id)
    decide_read now principal approve stage db

  -- The handler until the role is stored.
  pub store_role : Principal → Text → Text → Text → Tables → Result ApiError Tables
  store_role principal name organization role db = do
    guard (text_eq principal.role (codes "admin")) forbidden
    owner ← authorize_name principal name true db
    guard (text_eq owner principal.organization) forbidden
    guard
        (text_eq role (codes "reader")
          || text_eq role (codes "publisher")
          || text_eq role (codes "admin"))
        bad_request
    internal_error (
        grant_package_role
          (record { name = name; organization = owner; principal_org = organization; role = role })
          db)

  pub granted : Bool → Tables → Result ApiError Tables → Result ApiError (Unit {0}) × Tables
  granted appended db (err e) = (err e, db)
  granted appended db (ok out) = (if appended then ok tt else err internal, out)

  -- The role's event goes to the audit log and not through the outbox: where it cannot be appended, the
  -- answer is an error and the role stays.
  pub grant_role :
      Principal → Text → Text → Text → Bool → Tables → Result ApiError (Unit {0}) × Tables
  unfolding store_role granted
  grant_role principal name organization role appended db =
      granted appended db (store_role principal name organization role db)

  unfoldable pub new_tombstone : ℕ → Principal → Text → Text → Bool → Text → Tombstone
  new_tombstone now principal name version quarantine reason =
      let status = if quarantine then quarantined else revoked in
      let signed = sign name version status reason principal.organization now in
      record {
        name = name;
        version = version;
        status = status;
        reason = reason;
        actor_org = principal.organization;
        created_at = now;
        signature = signed.0;
        public_key = signed.1;
      }

  abbrev pub revocation_key : Text → Text → Bool → Text
  revocation_key name version quarantine =
      (if quarantine then codes "version.quarantined:" else codes "version.revoked:")
      ++ name
      ++ codes "@"
      ++ version

  unfoldable pub revoke_version :
      ℕ
      → Principal
      → Text
      → Text
      → Bool
      → Text
      → List VersionRow
      → Tables
      → Result ApiError (Tombstone × Tables)
  revoke_version now principal name version quarantine reason seen db = do
    owner ← authorize_name principal name true db
    let x = new_tombstone now principal name version quarantine reason
    (found, db1) ← internal_error (
        Control.revoke_version semver now x (revocation_key name version quarantine)
          (tombstone_event x) seen db)
    guard found not_found
    ok (x, db1)
