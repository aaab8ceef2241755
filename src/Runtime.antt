-- ===== src/Runtime.antt =====
-- codex_worker/runtime.py: the live state of the attached sessions. This file has the state, what
-- is done under one session's condition, and the publication of terminal turns; the operations
-- are in the child modules.
pub mod Starts
pub mod Notify
pub mod Reconcile
pub mod Reads
pub mod Invariant
pub mod Sessions
pub mod Owners
pub mod Pages
pub mod Protocol
pub mod Reachable
pub mod Terminals
pub mod Turns
pub mod Delivery
pub mod Waiting
pub mod Store
pub mod Publication
mod Tests
use superdev.Base.{
  ltb, if◌then◌else◌, ◌==◌, nat_eq, string_eq, pair_eq, option_string_eq, Result, ok, err, length,
  find_first, evict, contains, discard, add, Dict, keys, lookup, insert, erase, insert_last, ℕ,
  zero, suc, ◌+◌, String, Bool, true, false, not, Option, none, some, List, [], ◌∷◌, ◌++◌,
}
use superdev.Models.{ErrorDetail, ItemRecord, TurnSnapshot, EventRecord, SessionRecord}

-- The exceptions of the module, and the `ValueError` of a refused argument.
pub data RuntimeError : Type 0 where
  unknown_session session_detached no_turn : String → RuntimeError
  turn_active : RuntimeError
  wait_timeout : String → Option String → RuntimeError
  protocol_error value_error type_error : String → RuntimeError

-- `_SessionRuntime`; its `record` is `session` here. Sets and ordered dicts without values are
-- lists without repetition.
pub record SessionRuntime : Type 0 where
  pub session : SessionRecord
  pub attached : Bool
  pub active_turn_id : Option String
  pub start_pending : Bool
  pub awaiting_start_response : Bool
  pub observed_start_turn_id : Option String
  pub latest_turn : Option TurnSnapshot
  pub terminal_turns : Dict String TurnSnapshot
  pub published_terminal_ids : List String
  pub publishing_terminal_ids : List String
  pub next_cursor : ℕ
  pub events : List EventRecord
  pub items : Dict String (List ItemRecord)

-- The field defaults of `_SessionRuntime`.
unfoldable pub new_runtime : SessionRecord → SessionRuntime
new_runtime session = record {
  session = session;
  attached = true;
  active_turn_id = none;
  start_pending = false;
  awaiting_start_response = false;
  observed_start_turn_id = none;
  latest_turn = none;
  terminal_turns = [];
  published_terminal_ids = [];
  publishing_terminal_ids = [];
  next_cursor = 1;
  events = [];
  items = [];
}

-- An observer is known by its identity.
pub record RuntimeStore : Type 0 where
  pub event_limit : ℕ
  pub sessions : Dict String SessionRuntime
  pub thread_sessions : Dict String String
  pub terminal_observers : List ℕ

-- `RuntimeStore.__init__`
unfoldable pub runtime_store : ℕ → Result RuntimeError RuntimeStore
runtime_store event_limit =
    if event_limit == 0
    then err (value_error "event_limit must be a positive integer")
    else ok (record {
      event_limit = event_limit;
      sessions = [];
      thread_sessions = [];
      terminal_observers = [];
    })

unfoldable pub add_terminal_observer : ℕ → RuntimeStore → RuntimeStore
add_terminal_observer observer s = record s {
  terminal_observers = add observer s.terminal_observers;
}

-- The first terminal turn that is not being published.
abbrev pub removable : List String → Dict String TurnSnapshot → Option String
removable publishing turns = find_first (λ t. not (contains t publishing)) (keys turns)

-- The loop of `_trim_terminals`; the fuel is the number of rounds.
pub trim_turns : ℕ → ℕ → List String → Dict String TurnSnapshot → Dict String TurnSnapshot
trim_turns zero limit publishing turns = turns
trim_turns (suc fuel) limit publishing turns =
    if ltb limit (length turns)
    then elim (removable publishing turns) [
      | none ↦ turns
      | some t ↦ trim_turns fuel limit publishing (erase t turns)
    ]
    else turns

-- Every round takes one turn away, so as many rounds as there are turns are enough.
unfoldable pub trim_terminals : ℕ → SessionRuntime → SessionRuntime
unfolding trim_turns
trim_terminals limit r = record r {
  terminal_turns =
      trim_turns (length r.terminal_turns) limit r.publishing_terminal_ids r.terminal_turns;
}

-- `_mark_terminal_published`: the new state, and whether the turn was new.
unfoldable pub mark_terminal_published : ℕ → String → SessionRuntime → SessionRuntime × Bool
mark_terminal_published limit t r =
    if contains t r.published_terminal_ids
    then (
      record r { published_terminal_ids = discard t r.published_terminal_ids ++ (t ∷ []) },
      false,
    )
    else (
      record r { published_terminal_ids = evict limit (r.published_terminal_ids ++ (t ∷ [])) },
      true,
    )

-- `_retain_terminal`
unfoldable pub retain_terminal : ℕ → TurnSnapshot → Bool → SessionRuntime → SessionRuntime
retain_terminal limit snapshot publishing r = trim_terminals limit (record r {
  terminal_turns = insert_last snapshot.turn_id snapshot r.terminal_turns;
  publishing_terminal_ids =
      if publishing
      then add snapshot.turn_id r.publishing_terminal_ids
      else r.publishing_terminal_ids;
})

-- `_append_event`
unfoldable pub append_event :
    ℕ
    → String
    → Option String
    → Option ItemRecord
    → Option ErrorDetail
    → SessionRuntime
    → SessionRuntime
append_event limit event turn_id item error r =
    let entry : EventRecord = record {
      cursor = r.next_cursor;
      event = event;
      session_id = r.session.session_id;
      thread_id = r.session.thread_id;
      turn_id = turn_id;
      item = item;
      error = error;
    } in
    record r { next_cursor = r.next_cursor + 1; events = evict limit (r.events ++ (entry ∷ [])) }

-- What is done once the observers have been called: the turn is no longer being published.
unfoldable pub settle_terminal : ℕ → String → SessionRuntime → SessionRuntime
settle_terminal limit t r =
    trim_terminals limit
      (record r { publishing_terminal_ids = discard t r.publishing_terminal_ids })

-- `_get`
unfoldable pub find_session : String → RuntimeStore → Result RuntimeError SessionRuntime
find_session session_id s = elim (lookup session_id s.sessions) [
  | none ↦ err (unknown_session session_id)
  | some r ↦ ok r
]

-- `_by_thread`
unfoldable pub by_thread : Option String → RuntimeStore → Option SessionRuntime
by_thread none s = none
by_thread (some thread_id) s = elim (lookup thread_id s.thread_sessions) [
  | none ↦ none
  | some session_id ↦ lookup session_id s.sessions
]

-- A session runtime is a shared object: a change to it is a change at its key.
abbrev pub put_session : String → SessionRuntime → RuntimeStore → RuntimeStore
put_session session_id r s = record s { sessions = insert session_id r s.sessions }

abbrev pub update_session : String → (SessionRuntime → SessionRuntime) → RuntimeStore → RuntimeStore
update_session session_id f s = elim (lookup session_id s.sessions) [
  | none ↦ s
  | some r ↦ put_session session_id (f r) s
]

-- `_publish_terminal`: `react o sid turn s` is what the observer `o` does to the store, whether it
-- returns or raises. With the observers of the moment, in their order
unfoldable pub publish_to :
    (ℕ → String → TurnSnapshot → RuntimeStore → RuntimeStore)
    → List ℕ
    → String
    → TurnSnapshot
    → RuntimeStore
    → RuntimeStore
publish_to react [] session_id snapshot s = s
publish_to react (o ∷ os) session_id snapshot s =
    publish_to react os session_id snapshot (react o session_id snapshot s)
