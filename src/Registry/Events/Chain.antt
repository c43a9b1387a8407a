-- ===== src/Registry/Events/Chain.antt =====
-- The log stays a chain in which each event stands once.
use oath.Prelude.{
  All, ℕ, ◌≡◌, refl, ◌∙◌, inl, inr, Bool, false, Option, none, some, List, [], ◌∷◌, ◌++◌, Text,
  codes, text_eq_refl, Bool-cases,
}
use oath.Prelude.Tables.{
  find, is_some, find-append, find-append_none, find-one, All-append, All-map,
}
use oath.Registry.Control.{Value, OutboxRow, Tables, pending_outbox}
use oath.Registry.Events.{
  EventRow, Audit, has_key, last_hash, new_event, append_event_keyed, deliver, deliver_all,
  drain_outbox,
}

none_of : {A : Type 0} (o : Option A) → is_some o ≡ false → o ≡ none
none_of none h = refl
none_of (some a) h = cc

module _ (sha256_hex sign : Text → Text) where
  -- Each event has the hash of the one before it, and its own is that of this one and its content.
  unfoldable pub IsChained : Text → List EventRow → Type 0
  IsChained previous [] = Unit
  IsChained previous (e ∷ es) =
      (e.previous_hash ≡ previous)
      × (e.event_hash ≡ sha256_hex (previous ++ e.event_json))
      × IsChained e.event_hash es

  pub record IsLog (events : List EventRow) : Type 0 where
    pub chained : IsChained (codes "GENESIS") events
    pub once : All (λ e. find (has_key e.event_key) events ≡ some e) events

  IsChained-append :
      (now : ℕ) (key : Text) (event : Value) (previous : Text) (events : List EventRow)
      → IsChained previous events
      → IsChained previous
          (events ++ new_event sha256_hex sign now key event (last_hash previous events) ∷ [])
  unfolding IsChained last_hash
  IsChained-append now key event previous [] h = (refl, refl, tt)
  IsChained-append now key event previous (e ∷ es) (p, q, h) =
      (p, q, IsChained-append now key event e.event_hash es h)

  append-IsLog :
      (now : ℕ) (key : Text) (event : Value) (events : List EventRow)
      → IsLog events
      → IsLog (append_event_keyed sha256_hex sign now key event events)
  unfolding append_event_keyed
  append-IsLog now key event events h = elim (Bool-cases (is_some (find (has_key key) events))) [
    | inl e ↦ rw e h
    | inr e ↦
        let new = new_event sha256_hex sign now key event (last_hash (codes "GENESIS") events) in
        rw e (record {
          chained = IsChained-append now key event (codes "GENESIS") events h.chained;
          once =
              All-append _ events new
                (All-map _ _ events (λ d f. find-append (has_key d.event_key) events (new ∷ []) d f)
                  h.once)
                (find-append_none (has_key key) events (new ∷ []) (none_of _ e)
                  ∙ find-one (has_key key) new (text_eq_refl key));
        })
  ]

  deliver-IsLog :
      (now : ℕ) (answers : OutboxRow → Bool) (o : OutboxRow) (a : Audit)
      → IsLog a.events
      → IsLog (deliver sha256_hex sign now answers o a).events
  unfolding deliver
  deliver-IsLog now answers o a h = elim (Bool-cases (answers o)) [
    | inl e ↦ rw e (append-IsLog now o.event_key o.event_json a.events h)
    | inr e ↦ rw e h
  ]

  deliver_all-IsLog :
      (now : ℕ) (answers : OutboxRow → Bool) (os : List OutboxRow) (a : Audit)
      → IsLog a.events
      → IsLog (deliver_all sha256_hex sign now answers os a).events
  unfolding deliver_all
  deliver_all-IsLog now answers [] a h = h
  deliver_all-IsLog now answers (o ∷ os) a h =
      deliver_all-IsLog now answers os (deliver sha256_hex sign now answers o a)
        (deliver-IsLog now answers o a h)

  -- A log that is a hash chain from the genesis and holds each event key once is one after the outbox is
  -- drained, whatever deliveries fail and whatever was delivered before.
  pub drain_outbox-IsLog :
      (now : ℕ) (answers : OutboxRow → Bool) (tables : Tables) (events : List EventRow)
      → IsLog events
      → IsLog (drain_outbox sha256_hex sign now answers tables events).events
  unfolding drain_outbox
  drain_outbox-IsLog now answers tables events h =
      deliver_all-IsLog now answers (pending_outbox now 100 tables)
        (record { tables = tables; events = events; delivered = 0 }) h
