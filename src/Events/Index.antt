-- ===== src/Events/Index.antt =====
-- The index of the journal by session agrees with the journal.
use universal_agent.Prelude.{
  ◌≡◌, refl, sym, ap, ◌∙◌, String, Bool, true, false, List, [], ◌∷◌, ◌++◌ as append, filter,
  contains, if◌then◌else◌, ◌==◌, String_eq, Bool-cases, inl, inr, arith,
}
use text.Mathlib.TextEquality.{eq_iff}
use universal_agent.Prelude.Dict.{get, get-put}
use universal_agent.Events.Journal.{
  RuntimeEvent, EventStore, empty_store, events_for, append_event, all_events,
}

-- The journal behind appends, the first one first.
unfoldable pub behind : List RuntimeEvent → EventStore → EventStore
behind [] store = store
behind (event ∷ rest) store = behind rest (append_event event store)

abbrev pub is_of : String → RuntimeEvent → Bool
is_of session_id event = event.session_id == session_id

-- The index agrees with the journal.
pub record Indexed (store : EventStore) : Type 0 where
  pub index :
      (session_id : String) → events_for session_id store ≡ filter (is_of session_id) store.events

filter-append :
    {A : Type 0} (p : A → Bool) (xs : List A) (x : A)
    → filter p (append xs (x ∷ [])) ≡ (if p x then append (filter p xs) (x ∷ []) else filter p xs)
filter-append p [] x = ground arith
filter-append p (y ∷ xs) x = ground (arith, filter-append p xs x)

put-index :
    (event : RuntimeEvent) (store : EventStore) (session_id : String)
    → contains store.event_ids event.id ≡ false
    → events_for session_id (append_event event store) ≡ (
        if event.session_id == session_id
        then append (events_for event.session_id store) (event ∷ [])
        else events_for session_id store)
unfolding events_for append_event
put-index event store session_id new =
    let found =
      get-put store.by_session event.session_id session_id
        (append (events_for event.session_id store) (event ∷ [])) in
    elim (Bool-cases (event.session_id == session_id)) [
      | inl same ↦ rw (new, found, same) refl
      | inr other ↦ rw (new, found, other) refl
    ]

append_event-known :
    (event : RuntimeEvent) (store : EventStore)
    → contains store.event_ids event.id ≡ true
    → append_event event store ≡ store
unfolding append_event
append_event-known event store known = ground arith

append_event-events :
    (event : RuntimeEvent) (store : EventStore)
    → contains store.event_ids event.id ≡ false
    → (append_event event store).events ≡ append store.events (event ∷ [])
unfolding append_event
append_event-events event store new = ground arith

append_event-Indexed :
    (event : RuntimeEvent) (store : EventStore) → Indexed store → Indexed (append_event event store)
append_event-Indexed event store h = elim (Bool-cases (contains store.event_ids event.id)) [
  | inl known ↦ rw (append_event-known event store known) h
  | inr new ↦ record {
    index = λ session_id.
        put-index event store session_id new
        ∙ (elim (Bool-cases (event.session_id == session_id)) [
          | inl same ↦
              let k : event.session_id ≡ session_id = (eq_iff event.session_id session_id).0 same in
              rw same (
                ap (λ es. append es (event ∷ []))
                  (ap (λ s. events_for s store) k ∙ h.index session_id)
                ∙ sym (filter-append (is_of session_id) store.events event ∙ rw same refl))
          | inr other ↦ rw other (
              h.index session_id
              ∙ sym (filter-append (is_of session_id) store.events event ∙ rw other refl))
        ])
        ∙ ap (filter (is_of session_id)) (sym (append_event-events event store new));
  }
]

behind-Indexed :
    (events : List RuntimeEvent) (store : EventStore)
    → Indexed store
    → Indexed (behind events store)
unfolding behind
behind-Indexed [] store h = h
behind-Indexed (event ∷ rest) store h =
    behind-Indexed rest (append_event event store) (append_event-Indexed event store h)

empty-Indexed : Indexed empty_store
unfolding events_for get
empty-Indexed = record { index = λ session_id. refl }

-- Behind any appends to an empty journal, the events of a session are those of the journal with its
-- id, in their order.
pub behind-events_for :
    (events : List RuntimeEvent) (session_id : String)
    → events_for session_id (behind events empty_store)
      ≡ filter (is_of session_id) (all_events (behind events empty_store))
behind-events_for events session_id =
    (behind-Indexed events empty_store empty-Indexed).index session_id

known-kept :
    (id : String) (other : RuntimeEvent) (s : EventStore)
    → contains s.event_ids id ≡ true
    → contains (append_event other s).event_ids id ≡ true
known-kept id other s h = elim (Bool-cases (contains s.event_ids other.id)) [
  | inl known ↦ ap (λ x. contains x.event_ids id) (append_event-known other s known) ∙ h
  | inr new ↦ unfold append_event in ground arith
]

behind-known :
    (id : String) (events : List RuntimeEvent) (s : EventStore)
    → contains s.event_ids id ≡ true
    → contains (behind events s).event_ids id ≡ true
unfolding behind
behind-known id [] s h = h
behind-known id (event ∷ rest) s h =
    behind-known id rest (append_event event s) (known-kept id event s h)

now-known : (e : RuntimeEvent) (s : EventStore) → contains (append_event e s).event_ids e.id ≡ true
now-known e s = elim (Bool-cases (contains s.event_ids e.id)) [
  | inl known ↦ ap (λ x. contains x.event_ids e.id) (append_event-known e s known) ∙ known
  | inr new ↦ unfold append_event in ground (arith, eq_iff e.id e.id)
]

-- Appending an event again, also behind other appends, changes nothing.
pub append_event-again :
    (event : RuntimeEvent) (between : List RuntimeEvent) (store : EventStore)
    → append_event event (behind between (append_event event store))
      ≡ behind between (append_event event store)
append_event-again event between store =
    append_event-known event (behind between (append_event event store))
      (behind-known event.id between (append_event event store) (now-known event store))
