-- ===== src/Registry/Api/World/Decided.antt =====
-- A stage is decided once, whatever handlers have read it before.
use oath.Prelude.{ℕ, ◌≡◌, refl, ap, ◌∙◌, Bool}
use oath.Prelude.Results.{ok, err}
use oath.Registry.Control.{StageRecord, Tables, read_stage, is_staged}
use oath.Registry.Control.Decisions.{IsDecided, decide_stage-IsDecided, decide_stage-twice}
use oath.Registry.Api.{Principal, Env, internal_error, decide_read, decision_key, conflict}
use oath.Registry.Api.Accepted.{decide_read-eq-ok}
use oath.Registry.Api.World.{World, Reach}
use oath.Registry.Api.World.Kept.{Reach-Keeps}

module _ (env : Env) where
  open env use {decision_event}

  decide_read-twice :
      (now : ℕ) (principal : Principal) (approve : Bool) (stage : StageRecord) (db : Tables)
      → IsDecided db stage.id
      → decide_read env now principal approve stage db ≡ err conflict
  unfolding decide_read internal_error
  decide_read-twice now principal approve stage db d =
      rw
        (decide_stage-twice now stage approve (decision_key env approve stage)
          (decision_event principal stage approve) db d)
        refl

  -- Once a decision on a stage has been accepted, every later one on a stage of that id is refused as a
  -- conflict, whatever requests ran in between and whenever its handler read the stage.
  pub decide_read-once :
      (w v : World) (now later : ℕ) (principal other : Principal) (approve again : Bool)
      (stage read : StageRecord) (out : Tables)
      → read.id ≡ stage.id
      → decide_read env now principal approve stage w.tables ≡ ok out
      → Reach env (record w { tables = out }) v
      → decide_read env later other again read v.tables ≡ err conflict
  decide_read-once w v now later principal other approve again stage read out same e r =
      let (row, f, d) =
        decide_stage-IsDecided now stage approve _ _ w.tables out
          (decide_read-eq-ok env now principal approve stage w.tables out e) in
      let kept = Reach-Keeps env r in
      let (t, g, s) = kept.stages stage.id row f in
      decide_read-twice later other again read v.tables
        (t, ap (read_stage v.tables) same ∙ g, ap is_staged (s.final d) ∙ d)
