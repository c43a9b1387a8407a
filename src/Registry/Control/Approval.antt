-- ===== src/Registry/Control/Approval.antt =====
-- What `decide_stage` of control_plane.rs leaves where it approves a stage.
use oath.Prelude.{
  ℕ, ◌≡◌, refl, ◌∙◌, ◌+◌, inl, inr, true, none, some, List, [], ◌∷◌, ◌++◌, Text, text_eq,
  text_eq_refl, contains_text, Bool-cases,
}
use oath.Prelude.Results.{ok}
use oath.Prelude.Tables.{find, update_where, find-append_none, find-one}
use oath.Registry.Control.{
  Value, StageRecord, VersionRow, DistTag, Tables, active, approved, is_stage, is_version, is_tag,
  find_version, is_undecided, read_stage, push_event, new_event, new_version, insert_version,
  set_tag, approve_stage, decide_staged, decide_stage,
}
use oath.Registry.Control.History.{with_status}
use oath.Registry.Control.Tags.{is_version_refl}

find-set_tag :
    (name tag version : Text) (tags : List DistTag)
    → (t : DistTag) × (find (is_tag name tag) (set_tag name tag version tags) ≡ some t)
      × (t.version ≡ version)
unfolding find set_tag
find-set_tag name tag version [] = (
  record { name = name; tag = tag; version = version },
  rw (text_eq_refl name, text_eq_refl tag) refl,
  refl,
)
find-set_tag name tag version (t ∷ ts) = elim (Bool-cases (is_tag name tag t)) [
  | inl e ↦ (record t { version = version }, rw (e, e) refl, refl)
  | inr e ↦ let (u, f, g) = find-set_tag name tag version ts in (u, rw (e, e) f, g)
]

-- A stage is published: its version is there with what the stage has, and its tag points to it.
pub record IsPublished (now : ℕ) (stage : StageRecord) (db : Tables) : Type 0 where
  pub row : VersionRow
  pub found : find_version db stage.name stage.version ≡ some row
  pub organization : row.organization ≡ stage.organization
  pub digest : row.digest ≡ stage.digest
  pub documents : row.documents ≡ stage.documents
  pub private : row.private ≡ stage.private
  pub status : row.status ≡ active
  pub published_at : row.published_at ≡ now
  pub download_count : row.download_count ≡ 0
  pub tag_row : DistTag
  pub tag_found : find (is_tag stage.name stage.tag) db.dist_tags ≡ some tag_row
  pub tag_version : tag_row.version ≡ stage.version

pub published : ℕ → StageRecord → Text → Value → Tables → Tables
published now stage key event db = record db {
  stages = update_where (is_stage stage.id) (with_status approved) db.stages;
  versions = db.versions ++ new_version now stage ∷ [];
  dist_tags = set_tag stage.name stage.tag stage.version db.dist_tags;
  outbox = db.outbox ++ new_event db.next_outbox_id now key event ∷ [];
  next_outbox_id = db.next_outbox_id + 1;
}

module _ (now : ℕ) (stage : StageRecord) (key : Text) (event : Value) (db : Tables) where
  pub decide_stage-published :
      is_undecided (read_stage db stage.id) ≡ true
      → contains_text db.organizations stage.organization ≡ true
      → find_version db stage.name stage.version ≡ none
      → find (λ o. text_eq o.event_key key) db.outbox ≡ none
      → decide_stage now stage true key event db ≡ ok (true, published now stage key event db)
  unfolding decide_stage decide_staged approve_stage insert_version push_event published
  decide_stage-published u o v k = rw (u, o, v, k) refl

  pub published-IsPublished :
      find_version db stage.name stage.version ≡ none
      → IsPublished now stage (published now stage key event db)
  unfolding published
  published-IsPublished v =
      let (t, f, e) = find-set_tag stage.name stage.tag stage.version db.dist_tags in
      record {
        row = new_version now stage;
        found =
            find-append_none (is_version stage.name stage.version) db.versions
              (new_version now stage ∷ []) v
            ∙ find-one _ (new_version now stage) (is_version_refl (new_version now stage));
        organization = refl;
        digest = refl;
        documents = refl;
        private = refl;
        status = refl;
        published_at = refl;
        download_count = refl;
        tag_row = t;
        tag_found = f;
        tag_version = e;
      }
