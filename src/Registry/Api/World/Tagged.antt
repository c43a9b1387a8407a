-- ===== src/Registry/Api/World/Tagged.antt =====
-- The tags of a registry whose revocations do not overlap: `revoke_version` of control_plane.rs picks
-- the version that a tag rolls back to without locking it.
use oath.Prelude.{◌≡◌, List, Text}
use oath.Registry.Control.Tags.{AreLive}
use oath.Registry.Control.Live.{
  AreTagged, AreTagged-same, create_stage-AreTagged, decide_stage-AreTagged,
  revoke_version-AreTagged, record_download-AreTagged, grant_package_role-SameTagged,
  mark_outbox_delivered-SameTagged, retry_outbox-SameTagged,
}
use oath.Registry.Api.{Env}
use oath.Registry.Api.Accepted.{
  create_stage-eq-ok, decide_read-eq-ok, revoke_version-eq-ok, grant_role-tables,
}
use oath.Registry.Api.World.{
  World, Step, Reach, staged_one, read_one, decided_one, viewed_one, revoked_one, granted_one,
  downloaded_one, delivered_one, retried_one, here, next, empty,
}

module _ (env : Env) where
  -- A revocation saw the versions that it still finds when it commits.
  unfoldable pub IsCurrent : {w v : World} → Step env w v → Type 0
  IsCurrent {w} (revoked_one now principal name version quarantine reason i seen x out m e) =
      seen ≡ w.tables.versions
  IsCurrent _ = Unit

  -- So did every revocation of a run.
  unfoldable pub AreCurrent : {w v : World} → Reach env w v → Type 0
  unfolding IsCurrent
  AreCurrent here = Unit
  AreCurrent (next r s) = AreCurrent r × IsCurrent s

  Step-AreTagged :
      {w v : World} (s : Step env w v) → IsCurrent s → AreTagged w.tables → AreTagged v.tables
  unfolding IsCurrent
  Step-AreTagged {w} (staged_one now principal request stage out e) c h =
      let (_, _, _, k) = create_stage-eq-ok env now principal request w.tables stage out e in
      create_stage-AreTagged now stage _ _ _ w.tables out _ k h
  Step-AreTagged (read_one principal approve id stage e) c h = h
  Step-AreTagged {w} (decided_one now i r out m e) c h =
      let k = decide_read-eq-ok env now r.principal r.approve r.stage w.tables out e in
      decide_stage-AreTagged now r.stage r.approve _ _ w.tables out _ k h
  Step-AreTagged viewed_one c h = h
  Step-AreTagged {w} (revoked_one now principal name version quarantine reason i seen x out m e) c
        h =
      let (_, k) =
        revoke_version-eq-ok env now principal name version quarantine reason seen w.tables x out
          e in
      revoke_version-AreTagged env.semver now x _ _ w.tables out _ (rw c at k) h
  Step-AreTagged {w} (granted_one principal name organization role appended) c h =
      grant_role-tables env AreTagged principal name organization role appended w.tables h
        (λ x out e. AreTagged-same w.tables out (grant_package_role-SameTagged x w.tables out e) h)
  Step-AreTagged {w} (downloaded_one name version) c h =
      record_download-AreTagged name version w.tables h
  Step-AreTagged {w} (delivered_one now id) c h =
      AreTagged-same w.tables _ (mark_outbox_delivered-SameTagged now id w.tables) h
  Step-AreTagged {w} (retried_one now id) c h =
      AreTagged-same w.tables _ (retry_outbox-SameTagged now id w.tables) h

  Reach-AreTagged :
      {w v : World} (r : Reach env w v) → AreCurrent r → AreTagged w.tables → AreTagged v.tables
  unfolding AreCurrent
  Reach-AreTagged here c h = h
  Reach-AreTagged (next r s) (c, d) h = Step-AreTagged s d (Reach-AreTagged r c h)

  -- In a registry that started empty, and in which every revocation saw the versions that it still
  -- found when it committed, every tag points to an active version of its package.
  pub dist_tags-AreLive :
      (organizations : List Text) (w : World) (r : Reach env (empty organizations) w)
      → AreCurrent r
      → AreLive w.tables.versions w.tables.dist_tags
  dist_tags-AreLive organizations w r c =
      let h = Reach-AreTagged r c (record { one_each = tt; live = tt }) in h.live
