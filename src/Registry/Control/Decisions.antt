-- ===== src/Registry/Control/Decisions.antt =====
-- A decision is made once, and an approval publishes.
use oath.Prelude.{
  ℕ, ◌≡◌, refl, ap, ◌∙◌, inl, inr, Bool, true, false, if◌then◌else◌, some, Text, Bool-cases,
  Option-cases,
}
use oath.Prelude.Results.{ok, >>=-eq-ok, ok_injective}
use oath.Prelude.Tables.{updated, find-update_where, find-passes}
use oath.Registry.Control.{
  Value, StageStatus, is_staged, approved, rejected, StageRecord, Tables, is_stage, read_stage,
  push_event, insert_version, set_status, approve_stage, decide_staged, is_undecided, decide_stage,
}
use oath.Registry.Control.Effects.{push_event-eq-ok, insert_version-eq-ok}
use oath.Registry.Control.History.{with_status, absurd_test}
use oath.Registry.Control.Kept.{left}

-- The stage is there, and decided.
abbrev pub IsDecided : Tables → Text → Type 0
IsDecided db id =
    (row : StageRecord) × (read_stage db id ≡ some row) × (is_staged row.status ≡ false)

set_status-IsDecided :
    (id : Text) (status : StageStatus) (db : Tables)
    → is_staged status ≡ false
    → is_undecided (read_stage db id) ≡ true
    → IsDecided (set_status id status db) id
set_status-IsDecided id status db d u = elim (Option-cases (read_stage db id)) [
  | inl e ↦ let k : false ≡ true = rw e at u in absurd_test k
  | inr (row, e) ↦ (
    with_status status row,
    find-update_where (is_stage id) (is_stage id) (with_status status) db.stages (λ s. refl)
        ∙ ap (updated (is_stage id) (with_status status)) e
        ∙ rw (find-passes (is_stage id) db.stages row e) refl,
    d,
  )
]

approve_stage-IsDecided :
    (now : ℕ) (stage : StageRecord) (db out : Tables)
    → is_undecided (read_stage db stage.id) ≡ true
    → approve_stage now stage db ≡ ok out
    → IsDecided out stage.id
unfolding approve_stage
approve_stage-IsDecided now stage db out u e =
    let (db1, a, k) = >>=-eq-ok (insert_version now stage (set_status stage.id approved db)) _ e in
    let (same, _) = insert_version-eq-ok now stage _ db1 a in
    rw (← ok_injective k, ← same) (set_status-IsDecided stage.id approved db refl u)

decision-IsDecided :
    (now : ℕ) (stage : StageRecord) (approve : Bool) (db out : Tables)
    → is_undecided (read_stage db stage.id) ≡ true
    → (if approve then approve_stage now stage db else ok (set_status stage.id rejected db))
      ≡ ok out
    → IsDecided out stage.id
decision-IsDecided now stage true db out u e = approve_stage-IsDecided now stage db out u e
decision-IsDecided now stage false db out u e =
    rw (← ok_injective e) (set_status-IsDecided stage.id rejected db refl u)

decide_staged-IsDecided :
    (now : ℕ) (stage : StageRecord) (approve : Bool) (key : Text) (event : Value) (db out : Tables)
    (decided : Bool)
    → is_undecided (read_stage db stage.id) ≡ true
    → decide_staged now stage approve key event db ≡ ok (decided, out)
    → IsDecided out stage.id
unfolding decide_staged
decide_staged-IsDecided now stage approve key event db out decided u e =
    let (db1, a, k) =
      >>=-eq-ok
        (if approve then approve_stage now stage db else ok (set_status stage.id rejected db)) _
        e in
    let (db2, b, l) = >>=-eq-ok (push_event now key event db1) _ k in
    rw (← left l, ← push_event-eq-ok now key event db1 db2 b)
      (decision-IsDecided now stage approve db db1 u a)

pub decide_stage-IsDecided :
    (now : ℕ) (stage : StageRecord) (approve : Bool) (key : Text) (event : Value) (db out : Tables)
    → decide_stage now stage approve key event db ≡ ok (true, out)
    → IsDecided out stage.id
unfolding decide_stage
decide_stage-IsDecided now stage approve key event db out e =
    elim (Bool-cases (is_undecided (read_stage db stage.id))) [
      | inl t ↦ decide_staged-IsDecided now stage approve key event db out true t (rw t at e)
      | inr t ↦ let k : false ≡ true = ap (λ x. x.0) (ok_injective (rw t at e)) in absurd_test k
    ]

pub decide_stage-twice :
    (now : ℕ) (stage : StageRecord) (approve : Bool) (key : Text) (event : Value) (db : Tables)
    → IsDecided db stage.id
    → decide_stage now stage approve key event db ≡ ok (false, db)
unfolding decide_stage
decide_stage-twice now stage approve key event db (row, e, d) =
    let u : is_undecided (read_stage db stage.id) ≡ false = ap is_undecided e ∙ d in rw u refl
