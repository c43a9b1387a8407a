-- ===== src/Registry/Control/Runs.antt =====
-- Runs of the transactions of control_plane.rs.
use oath.Prelude.{
  ℕ, ◌≡◌, refl, Bool, List, leb, false, Option, none, some, [], ◌∷◌, Text, codes, text_eq,
  contains_text,
}
use oath.Prelude.Results.{Result, ok, err}
use oath.Prelude.Tables.{delete_where, find, update_where, select}
use oath.Registry.Control.{
  ControlError, revoke_version, revoked, revoke_found, set_tombstone, rollback_version, highest,
  parsed, latest, roll_back, Documents, VersionRow, Tombstone, Tables, Semver, push_event, active,
}

abbrev first_byte : Text → Option ℕ
first_byte [] = none
first_byte (c ∷ cs) = some c

abbrev byte_semver : Semver
byte_semver = record { Version = ℕ; parse = first_byte; le = leb }

abbrev papers : Documents
papers = record {
  manifest = [];
  publisher_assessment = [];
  assessment = codes "allow";
  server_evidence = [];
  sbom = [];
  provenance = [];
}

abbrev release : VersionRow
release = record {
  name = codes "left";
  version = codes "1";
  organization = codes "acme";
  digest = codes "xyz";
  status = active;
  private = false;
  documents = papers;
  published_at = 8;
  download_count = 0;
}

abbrev revocation : Tombstone
revocation = record {
  name = codes "left";
  version = codes "1";
  status = revoked;
  reason = [];
  actor_org = codes "acme";
  created_at = 9;
  signature = [];
  public_key = [];
}

abbrev no_tables : Tables
no_tables = record {
  organizations = [];
  packages = [];
  package_roles = [];
  stages = [];
  versions = [];
  dist_tags = [];
  tombstones = [];
  outbox = [];
  next_outbox_id = 1;
}

abbrev second_of : Result ControlError (Bool × Tables) → Tables
second_of (ok (done, db)) = db
second_of (err e) = no_tables

-- Two revocations that saw the same two active versions: each rolls the tag back to the other's.
abbrev two_versions : List VersionRow
two_versions = release ∷ record release { version = codes "2" } ∷ []

abbrev two_tables : Tables
two_tables = record no_tables {
  versions = two_versions;
  dist_tags = record { name = codes "left"; tag = codes "latest"; version = codes "1" } ∷ [];
}

abbrev first_revoked : Tables
first_revoked =
    second_of (revoke_version byte_semver 9 revocation (codes "a") [] two_versions two_tables)

abbrev both_revoked : Tables
both_revoked = second_of (
    revoke_version byte_semver 9 (record revocation { version = codes "2" }) (codes "b") []
      two_versions first_revoked)

overlapping_revocations :
    (both_revoked.dist_tags
      ≡ record { name = codes "left"; tag = codes "latest"; version = codes "1" } ∷ [])
    × (both_revoked.versions
        ≡ record release { status = revoked }
          ∷ record release { version = codes "2"; status = revoked }
          ∷ [])
unfolding revoke_version revoke_found set_tombstone rollback_version highest parsed latest roll_back
    push_event find update_where delete_where select text_eq contains_text
overlapping_revocations = (refl, refl)
