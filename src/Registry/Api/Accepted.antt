-- ===== src/Registry/Api/Accepted.antt =====
-- What a handler of Registry/Api has checked and done where it accepts the request.
use oath.Prelude.{
  List, ℕ, ◌≡◌, refl, sym, ap, ◌∙◌, Bool, true, not, ◌&&◌, ◌||◌, Option, some, Text, codes, text_eq,
  ◌++◌,
}
use oath.Prelude.Results.{Result, ok, err, ◌>>=◌, >>=-eq-ok, guard-eq-ok, ok_or-eq-ok, ok_injective}
use oath.Prelude.Tables.{is_some}
use oath.Registry.Control
use oath.Registry.Control.{
  VersionRow, PackageRole, StageRecord, Tombstone, Tables, ControlError, find_package, read_stage,
  grant_package_role,
}
use oath.Registry.Api.{
  Principal, ApiError, StageRequest, Prepared, Env, internal_error, authorize_name, has_visibility,
  new_stage, store_stage, create_stage, decision_key, revocation_key, is_denied, authorize_decision,
  decide_read, new_tombstone, store_role, granted, grant_role, revoke_version, bad_request,
  forbidden,
}

pub internal_error-eq-ok {ℓ κ} :
    {Value : Type ℓ} {Next : Type κ} (step : Result ControlError Value)
    (next : Value → Result ApiError Next) {last : Next}
    → (internal_error step >>= next) ≡ ok last
    → (value : Value) × (step ≡ ok value) × (next value ≡ ok last)
unfolding internal_error
internal_error-eq-ok (err failure) next h = cc
internal_error-eq-ok (ok value) next h = (value, refl, h)

internal_error_inv {ℓ} :
    {A : Type ℓ} (m : Result ControlError A) {a : A} → internal_error m ≡ ok a → m ≡ ok a
unfolding internal_error
internal_error_inv (ok a) h = ap ok (ok_injective h)
internal_error_inv (err e) h = cc

module _ (env : Env) where
  open env use {
    semver, prepare, stage_event, decision_event, tombstone_event, maximum_pending_stages,
  }

  store_stage-eq-ok :
      (now : ℕ) (principal : Principal) (made : StageRecord) (db : Tables) (stage : StageRecord)
      (out : Tables)
      → store_stage env now principal made db ≡ ok (stage, out)
      → (made ≡ stage)
        × (Control.create_stage now made
              (codes "stage.created:" ++ made.id)
              (stage_event principal made)
              maximum_pending_stages
              db
            ≡ ok (true, out))
  unfolding store_stage
  store_stage-eq-ok now principal made db stage out h =
      let ((created, db1), a, k) =
        internal_error-eq-ok
          (Control.create_stage now made (codes "stage.created:" ++ made.id)
            (stage_event principal made) maximum_pending_stages db)
          _ h in
      let (t, l) = guard-eq-ok created _ _ k in
      let pair = ok_injective l in
      (ap (λ x. x.0) pair, a ∙ ap ok (ap (λ c. (c, db1)) t ∙ ap (λ x. (true, x.1)) pair))

  pub create_stage-eq-ok :
      (now : ℕ) (principal : Principal) (request : StageRequest) (db : Tables) (stage : StageRecord)
      (out : Tables)
      → create_stage env now principal request db ≡ ok (stage, out)
      → (owner : Text) × (prepared : Prepared) × (new_stage env owner request prepared now ≡ stage)
        × (Control.create_stage now stage
              (codes "stage.created:" ++ stage.id)
              (stage_event principal stage)
              maximum_pending_stages
              db
            ≡ ok (true, out))
  unfolding create_stage
  create_stage-eq-ok now principal request db stage out h =
      let (owner, _, h1) = >>=-eq-ok (authorize_name principal request.name true db) _ h in
      let (_, h2) =
        guard-eq-ok (has_visibility request.private (find_package db request.name)) _ _ h1 in
      let (_, h3) = guard-eq-ok (is_some (semver.parse request.version)) _ _ h2 in
      let (prepared, _, h4) = >>=-eq-ok (prepare principal request) _ h3 in
      let (e, k) =
        store_stage-eq-ok now principal (new_stage env owner request prepared now) db stage out
          h4 in
      (owner, prepared, e, rw e at k)

  pub decide_read-eq-ok :
      (now : ℕ) (principal : Principal) (approve : Bool) (stage : StageRecord) (db out : Tables)
      → decide_read env now principal approve stage db ≡ ok out
      → Control.decide_stage now stage approve
          (decision_key env approve stage)
          (decision_event principal stage approve)
          db
        ≡ ok (true, out)
  unfolding decide_read
  decide_read-eq-ok now principal approve stage db out h =
      let ((decided, db1), a, k) =
        internal_error-eq-ok
          (Control.decide_stage now stage approve (decision_key env approve stage)
            (decision_event principal stage approve) db)
          _ h in
      let (t, l) = guard-eq-ok decided _ _ k in
      a ∙ ap ok (ap (λ c. (c, db1)) t ∙ ap (λ x. (true, x)) (ok_injective l))

  pub authorize_decision-eq-ok :
      (principal : Principal) (approve : Bool) (read : Option StageRecord) (stage : StageRecord)
      → authorize_decision env principal approve read ≡ ok stage
      → (read ≡ some stage)
        × (text_eq principal.role (codes "admin") ≡ true)
        × (not (approve && is_denied env stage.documents.assessment) ≡ true)
  unfolding authorize_decision
  authorize_decision-eq-ok principal approve read stage h =
      let (a, h1) = guard-eq-ok (text_eq principal.role (codes "admin")) _ _ h in
      let (_, h2) =
        guard-eq-ok
          (not (
            approve
            && env.require_step_up_approval
            && not (text_eq principal.kind (codes "oidc-mfa"))))
          forbidden _ h1 in
      let (found, e, h3) = ok_or-eq-ok read _ _ h2 in
      let (_, h4) = guard-eq-ok (text_eq found.organization principal.organization) _ _ h3 in
      let (b, h5) =
        guard-eq-ok (not (approve && is_denied env found.documents.assessment)) _ _ h4 in
      let same = ok_injective h5 in (e ∙ ap some same, a, rw same at b)

  pub revoke_version-eq-ok :
      (now : ℕ) (principal : Principal) (name version : Text) (quarantine : Bool) (reason : Text)
      (seen : List VersionRow) (db : Tables) (x : Tombstone) (out : Tables)
      → revoke_version env now principal name version quarantine reason seen db ≡ ok (x, out)
      → (new_tombstone env now principal name version quarantine reason ≡ x)
        × (Control.revoke_version semver now x
              (revocation_key env name version quarantine)
              (tombstone_event x)
              seen
              db
            ≡ ok (true, out))
  unfolding revoke_version
  revoke_version-eq-ok now principal name version quarantine reason seen db x out h =
      let made = new_tombstone env now principal name version quarantine reason in
      let (_, _, h1) = >>=-eq-ok (authorize_name principal name true db) _ h in
      let ((found, db1), a, k) =
        internal_error-eq-ok
          (Control.revoke_version semver now made (revocation_key env name version quarantine)
            (tombstone_event made) seen db)
          _ h1 in
      let (t, l) = guard-eq-ok found _ _ k in
      let pair = ok_injective l in
      let e = ap (λ y. y.0) pair in
      (
        e,
        ap
              (λ y.
                Control.revoke_version semver now y (revocation_key env name version quarantine)
                  (tombstone_event y) seen db)
              (sym e)
            ∙ a
            ∙ ap ok (ap (λ c. (c, db1)) t ∙ ap (λ y. (true, y.1)) pair),
      )

  store_role-eq-ok :
      (principal : Principal) (name organization role : Text) (db out : Tables)
      → store_role env principal name organization role db ≡ ok out
      → (owner : Text) × (grant_package_role
            (record {
              name = name;
              organization = owner;
              principal_org = organization;
              role = role;
            })
            db
          ≡ ok out)
  unfolding store_role
  store_role-eq-ok principal name organization role db out h =
      let (_, h1) = guard-eq-ok (text_eq principal.role (codes "admin")) _ _ h in
      let (owner, _, h2) = >>=-eq-ok (authorize_name principal name true db) _ h1 in
      let (_, h3) = guard-eq-ok (text_eq owner principal.organization) _ _ h2 in
      let (_, h4) =
        guard-eq-ok
          (text_eq role (codes "reader")
            || text_eq role (codes "publisher")
            || text_eq role (codes "admin"))
          bad_request _ h3 in
      (owner, internal_error_inv _ h4)

  -- What holds of the tables before a grant and of those with the role stored holds after it.
  pub grant_role-tables {κ} :
      (P : Tables → Type κ) (principal : Principal) (name organization role : Text)
      (appended : Bool) (db : Tables)
      → P db
      → ((x : PackageRole) (out : Tables) → grant_package_role x db ≡ ok out → P out)
      → P (grant_role env principal name organization role appended db).1
  unfolding grant_role granted
  grant_role-tables P principal name organization role appended db h k =
      go (store_role env principal name organization role db) refl
    where
      go :
          (r : Result ApiError Tables)
          → store_role env principal name organization role db ≡ r
          → P (granted env appended db r).1
      go (err e) q = h
      go (ok out) q =
          let (owner, l) = store_role-eq-ok principal name organization role db out q in k _ out l
