-- ===== src/Registry/Api/World/Kept.antt =====
-- What the registry has published or decided stays.
use oath.Registry.Control.History.{Keeps, Keeps_refl, Keeps_trans, SameRows-Keeps}
use oath.Registry.Control.Kept.{
  create_stage-Keeps, decide_stage-Keeps, revoke_version-Keeps, record_download-Keeps,
  grant_package_role-SameRows, mark_outbox_delivered-SameRows, retry_outbox-SameRows,
}
use oath.Registry.Api.{Env}
use oath.Registry.Api.Accepted.{
  create_stage-eq-ok, decide_read-eq-ok, revoke_version-eq-ok, grant_role-tables,
}
use oath.Registry.Api.World.{
  World, Step, Reach, staged_one, read_one, decided_one, viewed_one, revoked_one, granted_one,
  downloaded_one, delivered_one, retried_one, here, next,
}

module _ (env : Env) where
  pub Step-Keeps : {w v : World} → Step env w v → Keeps w.tables v.tables
  Step-Keeps {w} (staged_one now principal request stage out h) =
      let (_, _, _, k) = create_stage-eq-ok env now principal request w.tables stage out h in
      create_stage-Keeps now stage _ _ _ w.tables out _ k
  Step-Keeps {w} (read_one principal approve id stage h) = Keeps_refl w.tables
  Step-Keeps {w} (decided_one now i r out m h) =
      decide_stage-Keeps now r.stage r.approve _ _ w.tables out _
        (decide_read-eq-ok env now r.principal r.approve r.stage w.tables out h)
  Step-Keeps {w} viewed_one = Keeps_refl w.tables
  Step-Keeps {w} (revoked_one now principal name version quarantine reason i seen x out m h) =
      revoke_version-Keeps env.semver now x _ _ seen w.tables out _
        (revoke_version-eq-ok env now principal name version quarantine reason seen w.tables x out
          h).1
  Step-Keeps {w} (granted_one principal name organization role appended) =
      grant_role-tables env (Keeps w.tables) principal name organization role appended w.tables
        (Keeps_refl w.tables)
        (λ x out e. SameRows-Keeps w.tables out (grant_package_role-SameRows x w.tables out e))
  Step-Keeps {w} (downloaded_one name version) = record_download-Keeps name version w.tables
  Step-Keeps {w} (delivered_one now id) =
      SameRows-Keeps w.tables _ (mark_outbox_delivered-SameRows now id w.tables)
  Step-Keeps {w} (retried_one now id) =
      SameRows-Keeps w.tables _ (retry_outbox-SameRows now id w.tables)

  -- Whatever requests run in between: a package keeps its owner and its visibility, a stage its content
  -- and its decision once it has one, and a version everything but its status and its downloads.
  pub Reach-Keeps : {w v : World} → Reach env w v → Keeps w.tables v.tables
  Reach-Keeps {w} here = Keeps_refl w.tables
  Reach-Keeps {w} {v} (next {t} r s) =
      Keeps_trans w.tables t.tables v.tables (Reach-Keeps r) (Step-Keeps s)
