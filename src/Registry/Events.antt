-- ===== src/Registry/Events.antt =====
-- The audit log of crates/oath-registry/src/postgres_api.rs, a hash chain of events, and the delivery of
-- the outbox to it. SHA-256 and the signature are parameters.
mod Chain
mod Runs
use oath.Prelude.{
  ℕ, ◌+◌, Bool, true, false, if◌then◌else◌, List, [], ◌∷◌, ◌++◌, Text, codes, text_eq,
}
use oath.Prelude.Tables.{find, is_some}
use oath.Registry.Control.{
  Value, OutboxRow, Tables, pending_outbox, mark_outbox_delivered, retry_outbox,
}

pub record EventRow : Type 0 where
  pub event_key : Text
  pub event_json : Value
  pub previous_hash : Text
  pub event_hash : Text
  pub signature : Text
  pub created_at : ℕ

abbrev pub has_key : Text → EventRow → Bool
has_key event_key e = text_eq e.event_key event_key

-- The hash of the last event, or the one before all of them.
unfoldable pub last_hash : Text → List EventRow → Text
last_hash previous [] = previous
last_hash previous (e ∷ es) = last_hash e.event_hash es

pub record Audit : Type 0 where
  pub tables : Tables
  pub events : List EventRow
  pub delivered : ℕ

module _ (sha256_hex sign : Text → Text) where
  abbrev pub new_event : ℕ → Text → Value → Text → EventRow
  new_event now event_key event_json previous = record {
    event_key = event_key;
    event_json = event_json;
    previous_hash = previous;
    event_hash = sha256_hex (previous ++ event_json);
    signature = sign (sha256_hex (previous ++ event_json));
    created_at = now;
  }

  -- An event whose key is there is not added again.
  unfoldable pub append_event_keyed : ℕ → Text → Value → List EventRow → List EventRow
  append_event_keyed now event_key event_json events =
      if is_some (find (has_key event_key) events)
      then events
      else events ++ new_event now event_key event_json (last_hash (codes "GENESIS") events) ∷ []

  -- One event of the outbox; the transaction on the log answers or fails, and the statements on the
  -- outbox itself succeed.
  unfoldable pub deliver : ℕ → (OutboxRow → Bool) → OutboxRow → Audit → Audit
  deliver now answers o a =
      if answers o
      then record {
        tables = mark_outbox_delivered now o.id a.tables;
        events = append_event_keyed now o.event_key o.event_json a.events;
        delivered = a.delivered + 1;
      }
      else record a { tables = retry_outbox now o.id a.tables }

  unfoldable pub deliver_all : ℕ → (OutboxRow → Bool) → List OutboxRow → Audit → Audit
  deliver_all now answers [] a = a
  deliver_all now answers (o ∷ os) a = deliver_all now answers os (deliver now answers o a)

  unfoldable pub drain_outbox : ℕ → (OutboxRow → Bool) → Tables → List EventRow → Audit
  drain_outbox now answers tables events =
      deliver_all now answers (pending_outbox now 100 tables)
        (record { tables = tables; events = events; delivered = 0 })
