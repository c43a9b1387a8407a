-- ===== src/Registry/Events/Runs.antt =====
-- A log of one event, and an outbox that holds it again with another.
use oath.Prelude.{refl, true, none, [], ◌∷◌, codes, text_eq}
use oath.Prelude.Tables.{find}
use oath.Registry.Control.{Tables}
use oath.Registry.Events.{EventRow, new_event, drain_outbox}
use oath.Registry.Events.Chain.{IsChained, IsLog, drain_outbox-IsLog}

abbrev first : EventRow
first = new_event (λ t. t) (λ t. t) 1 (codes "k") (codes "x") (codes "GENESIS")

abbrev tables : Tables
tables = record {
  organizations = [];
  packages = [];
  package_roles = [];
  stages = [];
  versions = [];
  dist_tags = [];
  tombstones = [];
  outbox =
      record {
        id = 1;
        event_key = codes "k";
        event_json = codes "x";
        attempts = 1;
        available_at = 0;
        delivered_at = none;
      }
      ∷ record {
        id = 2;
        event_key = codes "m";
        event_json = codes "y";
        attempts = 0;
        available_at = 0;
        delivered_at = none;
      }
      ∷ [];
  next_outbox_id = 3;
}

first-IsLog : IsLog (λ t. t) (λ t. t) (first ∷ [])
unfolding IsChained find text_eq
first-IsLog = record { chained = (refl, refl, tt); once = (refl, tt) }

drain_outbox-IsLog_example :
    IsLog
      (λ t. t)
      (λ t. t)
      (drain_outbox (λ t. t) (λ t. t) 5 (λ o. true) tables (first ∷ [])).events
drain_outbox-IsLog_example =
    drain_outbox-IsLog (λ t. t) (λ t. t) 5 (λ o. true) tables (first ∷ []) first-IsLog
