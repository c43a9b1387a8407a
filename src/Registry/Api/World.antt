-- ===== src/Registry/Api/World.antt =====
-- The registry as it runs: requests of postgres_api.rs and of the delivery of events, with
-- the points at which they read and commit. `decide` reads the stage in one transaction and decides in
-- a later one, and a revocation picks the version that tags roll back to from rows that it does not
-- lock, so what was read and not yet used is part of the state. The rest of a handler, its authorization
-- included, runs at one point.
pub mod Kept
pub mod Consistent
pub mod Tagged
pub mod Published
pub mod Decided
use oath.Prelude.{ℕ, ◌≡◌, Bool, List, [], ◌∷◌, Text, get_elem?, some}
use oath.Prelude.Results.{ok}
use oath.Registry.Api.{
  Principal, StageRequest, Env, authorize_name, create_stage, authorize_decision, decide_read,
  grant_role, revoke_version,
}
use oath.Registry.Control.{
  StageRecord, VersionRow, Tombstone, Tables, read_stage, record_download, mark_outbox_delivered,
  retry_outbox,
}

-- A stage that `decide` has read, and for whom.
pub record Reading : Type 0 where
  pub principal : Principal
  pub approve : Bool
  pub stage : StageRecord

pub record World : Type 0 where
  pub tables : Tables
  pub readings : List Reading
  -- The versions as revocations saw them that have not been committed since.
  pub views : List (List VersionRow)

-- A registry with its organizations and nothing else.
abbrev pub empty : List Text → World
empty organizations = record {
  tables = record {
    organizations = organizations;
    packages = [];
    package_roles = [];
    stages = [];
    versions = [];
    dist_tags = [];
    tombstones = [];
    outbox = [];
    next_outbox_id = 1;
  };
  readings = [];
  views = [];
}

pub data Step (env : Env) : World → World → Type 0 where
  staged_one :
      {w : World} (now : ℕ) (principal : Principal) (request : StageRequest) (stage : StageRecord)
      (out : Tables)
      → create_stage env now principal request w.tables ≡ ok (stage, out)
      → Step env w (record w { tables = out })
  read_one :
      {w : World} (principal : Principal) (approve : Bool) (id : Text) (stage : StageRecord)
      → authorize_decision env principal approve (read_stage w.tables id) ≡ ok stage
      → Step env w (record w {
        readings = record { principal = principal; approve = approve; stage = stage } ∷ w.readings;
      })
  decided_one :
      {w : World} (now i : ℕ) (r : Reading) (out : Tables)
      → get_elem? w.readings i ≡ some r
      → decide_read env now r.principal r.approve r.stage w.tables ≡ ok out
      → Step env w (record w { tables = out })
  viewed_one : {w : World} → Step env w (record w { views = w.tables.versions ∷ w.views })
  revoked_one :
      {w : World} (now : ℕ) (principal : Principal) (name version : Text) (quarantine : Bool)
      (reason : Text) (i : ℕ) (seen : List VersionRow) (x : Tombstone) (out : Tables)
      → get_elem? w.views i ≡ some seen
      → revoke_version env now principal name version quarantine reason seen w.tables ≡ ok (x, out)
      → Step env w (record w { tables = out })
  granted_one :
      {w : World} (principal : Principal) (name organization role : Text) (appended : Bool)
      → Step env w (record w {
        tables = (grant_role env principal name organization role appended w.tables).1;
      })
  downloaded_one :
      {w : World} (name version : Text)
      → Step env w (record w { tables = record_download name version w.tables })
  delivered_one :
      {w : World} (now id : ℕ)
      → Step env w (record w { tables = mark_outbox_delivered now id w.tables })
  retried_one :
      {w : World} (now id : ℕ) → Step env w (record w { tables = retry_outbox now id w.tables })

pub data Reach (env : Env) (s : World) : World → Type 0 where
  here : Reach env s s
  next : {t u : World} → Reach env s t → Step env t u → Reach env s u
