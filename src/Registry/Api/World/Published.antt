-- ===== src/Registry/Api/World/Published.antt =====
-- An approval that is still open goes through: `decide` of postgres_api.rs after its reading.
use oath.Prelude.{
  ℕ, ◌≡◌, ◌≢◌, refl, sym, ap, ◌∙◌, true, none, some, List, Text, text_eq, contains_text, get_elem?,
}
use oath.Prelude.Results.{ok}
use oath.Prelude.Tables.{find, All-get_elem?}
use oath.Registry.Control.{
  StageStatus, Tables, approved, is_staged, is_undecided, read_stage, find_version,
}
use oath.Registry.Control.Approval.{
  IsPublished, published, decide_stage-published, published-IsPublished,
}
use oath.Registry.Control.Release.{unapproved-none}
use oath.Registry.Api.{Env, is_denied, internal_error, decide_read, decision_key}
use oath.Registry.Api.World.{Reading, World, Reach, empty}
use oath.Registry.Api.World.Consistent.{IsRead, Reach-IsConsistent, empty-IsConsistent}

staged-unapproved : (x : StageStatus) → is_staged x ≡ true → x ≢ approved
staged-unapproved x h e = let k : is_staged approved ≡ true = rw e at h in cc

module _ (env : Env) where
  open env use {decision_event}

  -- In a registry that started empty: where a handler has read a stage for an approval, the stage is
  -- still undecided, its organization exists and no event has the key of the approval, the approval
  -- succeeds. The version is then there, active, with the organization, digest, documents and
  -- visibility that the handler read, and the stage's tag points to it.
  pub approval-publishes :
      (organizations : List Text) (w : World) (now i : ℕ) (r : Reading)
      → Reach env (empty organizations) w
      → get_elem? w.readings i ≡ some r
      → r.approve ≡ true
      → is_undecided (read_stage w.tables r.stage.id) ≡ true
      → contains_text w.tables.organizations r.stage.organization ≡ true
      → find (λ o. text_eq o.event_key (decision_key env true r.stage)) w.tables.outbox ≡ none
      → (out : Tables) × (decide_read env now r.principal r.approve r.stage w.tables ≡ ok out)
        × IsPublished now r.stage out
  unfolding decide_read internal_error
  approval-publishes organizations w now i r run m a u o k =
      let h = Reach-IsConsistent env (empty-IsConsistent env organizations) run in
      let read = All-get_elem? (IsRead env w.tables) w.readings i r m h.readings in
      let same = ap (λ s. s.id) read.same.content in
      let staged : is_staged read.row.status ≡ true = ap is_undecided (sym read.found) ∙ u in
      let free : find_version w.tables r.stage.name r.stage.version ≡ none =
        ap (λ s. find_version w.tables s.name s.version) (sym read.same.content)
        ∙ unapproved-none (is_denied env) w.tables read.row h.released
            (ap (read_stage w.tables) same ∙ read.found) (staged-unapproved _ staged) in
      let event = decision_event r.principal r.stage true in
      let key = decision_key env true r.stage in
      (
        published now r.stage key event w.tables,
        rw (a, decide_stage-published now r.stage key event w.tables u o free k) refl,
        published-IsPublished now r.stage key event w.tables free,
      )
