-- ===== src/Registry/Control/Effects.antt =====
-- What the transactions of control_plane.rs leave in the tables where they succeed, and the tests that
-- they have passed.
use oath.Prelude.{
  ℕ, ◌≡◌, refl, ap, ◌∙◌, ◌+◌, ◌⊎◌, inl, inr, true, not, arith, Option, none, some, [], ◌∷◌, ◌++◌,
  Text, text_eq, Option-cases,
}
use oath.Prelude.Results.{ok, >>=-eq-ok, guard-eq-ok, ok_or-eq-ok, ok_injective, guard-ok}
use oath.Prelude.Tables.{find, update_where, is_some}
use oath.Registry.Control.{
  Value, approved, StageRecord, PackageRecord, Tables, is_stage, is_release, bool_eq, find_package,
  read_stage, find_version, new_event, new_package, new_version, push_event, ensure_package,
  check_package, insert_stage, insert_version, set_tag, approve_stage,
}

pub not_some {ℓ} : {A : Type ℓ} (o : Option A) → not (is_some o) ≡ true → o ≡ none
not_some none h = refl
not_some (some a) h = cc

pub some_of {ℓ} : {A : Type ℓ} (o : Option A) → is_some o ≡ true → (a : A) × (o ≡ some a)
some_of none h = cc
some_of (some a) h = (a, refl)

pub push_event-eq-ok :
    (now : ℕ) (key : Text) (event : Value) (db out : Tables)
    → push_event now key event db ≡ ok out
    → record db {
      outbox = db.outbox ++ new_event db.next_outbox_id now key event ∷ [];
      next_outbox_id = db.next_outbox_id + 1;
    }
      ≡ out
unfolding push_event
push_event-eq-ok now key event db out h = ok_injective (guard-eq-ok _ _ _ h).1

-- Either the package was there, or it is added.
pub ensure_package-eq-ok :
    (stage : StageRecord) (db out : Tables)
    → ensure_package stage db ≡ ok out
    → ((db ≡ out) × ((p : PackageRecord) × (find_package db stage.name ≡ some p)))
      ⊎ ((record db { packages = db.packages ++ new_package stage ∷ [] } ≡ out)
          × (find_package db stage.name ≡ none))
unfolding ensure_package
ensure_package-eq-ok stage db out h = elim (Option-cases (find_package db stage.name)) [
  | inl e ↦ ground (arith, h, e)
  | inr (p, e) ↦ ground (arith, h, e)
]

pub check_package-eq-ok :
    (stage : StageRecord) (db : Tables)
    → check_package stage db ≡ ok tt
    → (p : PackageRecord) × (find_package db stage.name ≡ some p)
      × (text_eq p.organization stage.organization ≡ true)
      × (bool_eq p.private stage.private ≡ true)
unfolding check_package
check_package-eq-ok stage db h =
    let (p, e, a) = ok_or-eq-ok _ _ _ h in
    let (b, c) = guard-eq-ok _ _ _ a in (p, e, b, guard-ok _ _ c)

pub insert_stage-eq-ok :
    (stage : StageRecord) (db out : Tables)
    → insert_stage stage db ≡ ok out
    → (record db { stages = db.stages ++ stage ∷ [] } ≡ out)
      × (read_stage db stage.id ≡ none)
      × (find (is_release stage.name stage.version) db.stages ≡ none)
unfolding insert_stage
insert_stage-eq-ok stage db out h =
    let (_, a) = guard-eq-ok _ _ _ h in
    let (b, c) = guard-eq-ok _ _ _ a in
    let (d, e) = guard-eq-ok _ _ _ c in (ok_injective e, not_some _ b, not_some _ d)

pub insert_version-eq-ok :
    (now : ℕ) (stage : StageRecord) (db out : Tables)
    → insert_version now stage db ≡ ok out
    → (record db { versions = db.versions ++ new_version now stage ∷ [] } ≡ out)
      × (find_version db stage.name stage.version ≡ none)
unfolding insert_version
insert_version-eq-ok now stage db out h =
    let (_, a) = guard-eq-ok _ _ _ h in
    let (b, c) = guard-eq-ok _ _ _ a in (ok_injective c, not_some _ b)

pub approve_stage-eq-ok :
    (now : ℕ) (stage : StageRecord) (db out : Tables)
    → approve_stage now stage db ≡ ok out
    → (record db {
      stages = update_where (is_stage stage.id) (λ s. record s { status = approved }) db.stages;
      versions = db.versions ++ new_version now stage ∷ [];
      dist_tags = set_tag stage.name stage.tag stage.version db.dist_tags;
    }
        ≡ out)
      × (find_version db stage.name stage.version ≡ none)
unfolding approve_stage
approve_stage-eq-ok now stage db out h =
    let (db1, a, b) = >>=-eq-ok _ _ h in
    let (c, d) = insert_version-eq-ok now stage _ db1 a in
    (
      ap
            (λ (db1 : Tables). record db1 {
              dist_tags = set_tag stage.name stage.tag stage.version db1.dist_tags;
            })
            c
          ∙ ok_injective b,
      d,
    )
