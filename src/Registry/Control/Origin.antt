-- ===== src/Registry/Control/Origin.antt =====
-- Where the rows that a transaction leaves come from: rows that were there, but for the added ones.
use oath.Prelude.{◌≡◌, refl, sym, ap, ◌∙◌, inl, inr, Bool, some, Text}
use oath.Prelude.Results.{ok}
use oath.Prelude.Tables.{find, update_where, find-updated}
use oath.Registry.Control.{
  StageStatus, StageRecord, VersionRow, Tables, is_stage, is_version, find_version, read_stage,
  ensure_package, set_status,
}
use oath.Registry.Control.History.{
  SameRelease, SameRelease-refl, SameRows, with_status, update-SameRelease, with_status-content,
}
use oath.Registry.Control.Effects.{ensure_package-eq-ok}

-- Every stage and version found was there before, but for what may change.
pub record ComesFrom (db out : Tables) : Type 0 where
  pub versions :
      (name version : Text) (v : VersionRow)
      → find_version out name version ≡ some v
      → (r : VersionRow) × (find_version db name version ≡ some r) × SameRelease r v
  pub stages :
      (id : Text) (s : StageRecord)
      → read_stage out id ≡ some s
      → (r : StageRecord) × (read_stage db id ≡ some r) × (s ≡ record r { status = s.status })

pub SameRows-ComesFrom : (db out : Tables) → SameRows db out → ComesFrom db out
SameRows-ComesFrom db out h = record {
  versions = λ name version v e.
      (v, ap (find (is_version name version)) (sym h.versions) ∙ e, SameRelease-refl v);
  stages = λ id s e. (s, ap (find (is_stage id)) (sym h.stages) ∙ e, refl);
}

pub same_versions-ComesFrom :
    (q : VersionRow → Bool) (f : VersionRow → VersionRow) (db : Tables)
    → ((r : VersionRow) → SameRelease r (f r))
    → ComesFrom db (record db { versions = update_where q f db.versions })
same_versions-ComesFrom q f db h = record {
  versions = λ name version v e.
      let (r, g, k) =
        find-updated (is_version name version) q f db.versions v
          (λ x. let same = h x in rw (same.name, same.version) refl) e in
      (r, g, rw k at (update-SameRelease q f r (h r)));
  stages = λ id s e. (s, e, refl);
}

pub set_status-ComesFrom :
    (id : Text) (status : StageStatus) (db : Tables) → ComesFrom db (set_status id status db)
set_status-ComesFrom id status db = record {
  versions = λ name version v e. (v, e, SameRelease-refl v);
  stages = λ other s e.
      let (r, g, k) =
        find-updated (is_stage other) (is_stage id) (with_status status) db.stages s (λ x. refl)
          e in
      (r, g, rw k at (with_status-content (is_stage id r) status r));
}

pub ensure_package-ComesFrom :
    (stage : StageRecord) (db out : Tables) → ensure_package stage db ≡ ok out → ComesFrom db out
ensure_package-ComesFrom stage db out h = elim (ensure_package-eq-ok stage db out h) [
  | inl (e, _) ↦
      rw (← e) (SameRows-ComesFrom db db record { packages = refl; stages = refl; versions = refl })
  | inr (e, _) ↦ rw (← e) (record {
    versions = λ name version v f. (v, f, SameRelease-refl v);
    stages = λ id s f. (s, f, refl);
  })
]
