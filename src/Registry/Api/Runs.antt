-- ===== src/Registry/Api/Runs.antt =====
-- A registry with one organization: a package staged, approved and revoked.
use oath.Prelude.{
  ℕ, ◌≡◌, refl, leb, true, false, Option, none, some, [], ◌∷◌, ◌++◌, Text, codes, text_eq,
  contains_text, starts_with,
}
use oath.Prelude.Results.{ok, err}
use oath.Prelude.Tables.{delete_where, find, update_where, select}
use oath.Registry.Control
use oath.Registry.Control.{
  ControlError, revoked, revoke_found, set_tombstone, rollback_version, highest, parsed, latest,
  roll_back, Documents, StageRecord, VersionRow, Tombstone, Tables, Semver, push_event,
  ensure_package, check_package, insert_stage, add_stage, insert_version, set_tag, approve_stage,
  decide_staged, decide_stage, read_stage, find_version, staged, approved, is_undecided, active,
}
use oath.Registry.Control.History.{Keeps}
use oath.Registry.Control.Tags.{AreLive}
use oath.Registry.Control.Release.{IsRelease}
use oath.Registry.Api.{
  Principal, StageRequest, Env, internal_error, authorize_name, before_slash, in_scope, new_stage,
  store_stage, create_stage, is_denied, authorize_decision, decide_read, conflict, revoke_version,
  new_tombstone,
}
use oath.Registry.Api.World.{
  World, Reading, Reach, here, next, staged_one, read_one, decided_one, viewed_one, revoked_one,
  empty,
}
use oath.Registry.Api.World.Kept.{Reach-Keeps}
use oath.Registry.Api.World.Consistent.{version-IsRelease, unapproved-unpublished}
use oath.Registry.Control.Approval.{IsPublished}
use oath.Registry.Api.World.Published.{approval-publishes}
use oath.Registry.Api.World.Tagged.{IsCurrent, AreCurrent, dist_tags-AreLive}
use oath.Registry.Api.World.Decided.{decide_read-once}

abbrev first_byte : Text → Option ℕ
first_byte [] = none
first_byte (c ∷ cs) = some c

abbrev byte_semver : Semver
byte_semver = record { Version = ℕ; parse = first_byte; le = leb }

abbrev papers : Documents
papers = record {
  manifest = [];
  publisher_assessment = [];
  assessment = codes "allow";
  server_evidence = [];
  sbom = [];
  provenance = [];
}

abbrev toy_env : Env
toy_env = record {
  semver = byte_semver;
  sha256_hex = λ t. t;
  decimal = λ n. n ∷ [];
  prepare =
      λ principal request. ok (record { digest = request.tarball_base64; documents = papers });
  decision = λ v. some v;
  stage_event = λ p s. [];
  decision_event = λ p s a. [];
  tombstone_event = λ x. [];
  sign = λ a b s c d n. ([], []);
  require_step_up_approval = false;
  maximum_pending_stages = 3;
}

abbrev admin : Principal
admin = record { organization = codes "acme"; role = codes "admin"; kind = codes "token" }

abbrev request : StageRequest
request = record {
  name = codes "left";
  version = codes "1";
  tag = codes "latest";
  private = false;
  assessment = [];
  tarball_base64 = codes "xyz";
}

abbrev stage : StageRecord
stage = record {
  id = codes "acme:left:1:xyz:" ++ 7 ∷ [];
  organization = codes "acme";
  name = codes "left";
  version = codes "1";
  tag = codes "latest";
  digest = codes "xyz";
  status = staged;
  private = false;
  documents = papers;
  created_at = 7;
}

abbrev start : World
start = empty (codes "acme" ∷ [])

abbrev staged_tables : Tables
staged_tables = record start.tables {
  packages = record { name = codes "left"; organization = codes "acme"; private = false } ∷ [];
  stages = stage ∷ [];
  outbox =
      record {
        id = 1;
        event_key = codes "stage.created:" ++ stage.id;
        event_json = [];
        attempts = 0;
        available_at = 7;
        delivered_at = none;
      }
      ∷ [];
  next_outbox_id = 2;
}

abbrev release : VersionRow
release = record {
  name = codes "left";
  version = codes "1";
  organization = codes "acme";
  digest = codes "xyz";
  status = active;
  private = false;
  documents = papers;
  published_at = 8;
  download_count = 0;
}

abbrev decided_tables : Tables
decided_tables = record staged_tables {
  stages = record stage { status = approved } ∷ [];
  versions = release ∷ [];
  dist_tags = record { name = codes "left"; tag = codes "latest"; version = codes "1" } ∷ [];
  outbox =
      staged_tables.outbox
      ++ record {
        id = 2;
        event_key = codes "stage.approved:" ++ stage.id;
        event_json = [];
        attempts = 0;
        available_at = 8;
        delivered_at = none;
      }
        ∷ [];
  next_outbox_id = 3;
}

create_stage_run : create_stage toy_env 7 admin request start.tables ≡ ok (stage, staged_tables)
unfolding create_stage authorize_name before_slash in_scope new_stage store_stage internal_error
    Control.create_stage add_stage push_event ensure_package check_package insert_stage find select
    text_eq contains_text starts_with
create_stage_run = refl

authorize_decision_run :
    authorize_decision toy_env admin true (read_stage staged_tables stage.id) ≡ ok stage
unfolding authorize_decision find text_eq
authorize_decision_run = refl

decide_read_run : decide_read toy_env 8 admin true stage staged_tables ≡ ok decided_tables
unfolding decide_read internal_error Control.decide_stage decide_staged approve_stage insert_version
    set_tag push_event find update_where text_eq contains_text
decide_read_run = refl

authorized_read : read_stage staged_tables stage.id ≡ some stage
unfolding find text_eq
authorized_read = refl

abbrev reading : Reading
reading = record { principal = admin; approve = true; stage = stage }

abbrev staged_world : World
staged_world = record { tables = staged_tables; readings = reading ∷ []; views = [] }

abbrev decided_world : World
decided_world = record { tables = decided_tables; readings = reading ∷ []; views = [] }

decided-Reach : Reach toy_env start decided_world
decided-Reach =
    next
      (next (next here (staged_one 7 admin request stage staged_tables create_stage_run))
        (read_one admin true stage.id stage authorize_decision_run))
      (decided_one 8 0 reading decided_tables refl decide_read_run)

Reach-Keeps_example : Keeps start.tables decided_tables
Reach-Keeps_example = Reach-Keeps toy_env decided-Reach

version-IsRelease_example : IsRelease (is_denied toy_env) decided_tables release
unfolding find text_eq
version-IsRelease_example =
    version-IsRelease toy_env (codes "acme" ∷ []) decided_world (codes "left") (codes "1") release
      decided-Reach refl

staged-Reach : Reach toy_env start staged_world
staged-Reach =
    next (next here (staged_one 7 admin request stage staged_tables create_stage_run))
      (read_one admin true stage.id stage authorize_decision_run)

unapproved-unpublished_example : find_version staged_tables (codes "left") (codes "1") ≡ none
unapproved-unpublished_example =
    unapproved-unpublished toy_env (codes "acme" ∷ []) staged_world stage.id stage staged-Reach
      authorized_read (λ e. cc)

approval-publishes_example :
    (out : Tables) × (decide_read toy_env 8 admin true stage staged_tables ≡ ok out)
    × IsPublished 8 stage out
unfolding find text_eq contains_text
approval-publishes_example =
    approval-publishes toy_env (codes "acme" ∷ []) staged_world 8 0 reading staged-Reach refl refl
      refl refl refl

abbrev revocation : Tombstone
revocation = record {
  name = codes "left";
  version = codes "1";
  status = revoked;
  reason = [];
  actor_org = codes "acme";
  created_at = 9;
  signature = [];
  public_key = [];
}

abbrev revoked_tables : Tables
revoked_tables = record decided_tables {
  versions = record release { status = revoked } ∷ [];
  dist_tags = [];
  tombstones = revocation ∷ [];
  outbox =
      decided_tables.outbox
      ++ record {
        id = 3;
        event_key = codes "version.revoked:left@1";
        event_json = [];
        attempts = 0;
        available_at = 9;
        delivered_at = none;
      }
        ∷ [];
  next_outbox_id = 4;
}

revoke_version_run :
    revoke_version toy_env 9 admin
      (codes "left")
      (codes "1")
      false
      []
      decided_tables.versions
      decided_tables
    ≡ ok (revocation, revoked_tables)
unfolding revoke_version new_tombstone internal_error authorize_name Control.revoke_version
    revoke_found set_tombstone rollback_version highest parsed latest roll_back push_event find
    update_where delete_where select text_eq contains_text
revoke_version_run = refl

abbrev revoked_world : World
revoked_world = record {
  tables = revoked_tables;
  readings = reading ∷ [];
  views = decided_tables.versions ∷ [];
}

revoked-Reach : Reach toy_env start revoked_world
revoked-Reach = next (next decided-Reach viewed_one) (
    revoked_one 9 admin (codes "left") (codes "1") false [] 0 decided_tables.versions revocation
      revoked_tables refl revoke_version_run)

revoked-AreCurrent : AreCurrent toy_env revoked-Reach
unfolding AreCurrent IsCurrent revoked-Reach decided-Reach
revoked-AreCurrent = (((((tt, tt), tt), tt), tt), refl)

dist_tags-AreLive_example : AreLive revoked_tables.versions revoked_tables.dist_tags
dist_tags-AreLive_example =
    dist_tags-AreLive toy_env (codes "acme" ∷ []) revoked_world revoked-Reach revoked-AreCurrent

decide_read-once_example : decide_read toy_env 9 admin false stage decided_tables ≡ err conflict
decide_read-once_example =
    decide_read-once toy_env staged_world decided_world 8 9 admin admin true false stage stage
      decided_tables refl decide_read_run here
