-- ===== src/Runtime/Reads.antt =====
-- The operations that read the state, and `release_terminal_snapshot`.
use superdev.Base.{
  ltb, if◌then◌else◌, string_eq, ◌==◌, nat_eq, pair_eq, option_string_eq, is_some, get_or, length,
  take, keep, get_last?, last_n, ◌>>=◌, Result, ok, err, lookup, erase, ℕ, ◌+◌, String, Bool, false,
  ◌||◌, Option, none, some, List, [], ◌∷◌,
}
use superdev.Models.{
  copy_turn_snapshot, ItemRecord, TurnSnapshot, EventRecord, EventPage, RuntimeStatus,
}
use superdev.Runtime.{
  find_session, put_session, RuntimeError, SessionRuntime, RuntimeStore, no_turn, wait_timeout,
  value_error,
}

-- `copy_turn_snapshot`, which raises `ValueError` on an error that does not validate
abbrev pub isolated : TurnSnapshot → Result RuntimeError TurnSnapshot
isolated turn = elim (copy_turn_snapshot turn) [
  | ok copy ↦ ok copy
  | err why ↦ err (value_error why)
]

unfoldable pub terminal_snapshot :
    String → String → RuntimeStore → Result RuntimeError (Option TurnSnapshot)
unfolding find_session
terminal_snapshot session_id t s = do
  r ← find_session session_id s
  elim (lookup t r.terminal_turns) [
    | none ↦ ok none
    | some snapshot ↦ isolated snapshot >>= λ copy. ok (some copy)
  ]

unfoldable pub release_terminal_snapshot :
    String → String → RuntimeStore → Result RuntimeError RuntimeStore
unfolding find_session
release_terminal_snapshot session_id t s = do
  r ← find_session session_id s
  ok (put_session session_id (record r { terminal_turns = erase t r.terminal_turns }) s)

abbrev pub status_view : Option TurnSnapshot → SessionRuntime → RuntimeStatus
status_view latest r = record {
  attached = r.attached;
  active_turn_id = r.active_turn_id;
  latest_turn = latest;
}

unfoldable pub status : String → RuntimeStore → Result RuntimeError RuntimeStatus
unfolding find_session
status session_id s = do
  r ← find_session session_id s
  elim r.latest_turn [
    | none ↦ ok (status_view none r)
    | some latest ↦ isolated latest >>= λ copy. ok (status_view (some copy) r)
  ]

-- The condition of the loop in `wait`.
abbrev pub must_wait : Option String → SessionRuntime → Bool
must_wait none r = r.start_pending || is_some r.active_turn_id
must_wait (some t) r = r.active_turn_id == some t

-- `latest_turn`, or the retained turn that was asked for
abbrev pub finished_turn : Option String → SessionRuntime → Option TurnSnapshot
finished_turn none r = r.latest_turn
finished_turn (some t) r = lookup t r.terminal_turns

-- One look at the session in `wait`: `none` means that the caller sleeps on the condition.
-- `expired` is whether the deadline has passed.
unfoldable pub wait_once :
    Option String → Bool → SessionRuntime → Option (Result RuntimeError TurnSnapshot)
wait_once t expired r =
    if must_wait t r
    then (if expired then some (err (wait_timeout r.session.session_id r.active_turn_id)) else none)
    else elim (finished_turn t r) [
      | none ↦ some (err (no_turn r.session.session_id))
      | some turn ↦ some (ok turn)
    ]

-- The loop of `wait`, over what the session is each time that the caller wakes up.
unfoldable pub wait_over :
    Option String → List (SessionRuntime × Bool) → Option (Result RuntimeError TurnSnapshot)
unfolding wait_once
wait_over t [] = none
wait_over t ((r, expired) ∷ looks) = elim (wait_once t expired r) [
  | none ↦ wait_over t looks
  | some done ↦ some done
]

-- `wait` of a session that is there. `is_negative` is whether there is a timeout below zero.
unfoldable pub wait :
    Option String → Bool → List (SessionRuntime × Bool) → Option (Result RuntimeError TurnSnapshot)
unfolding wait_over
wait t is_negative looks =
    if is_negative
    then some (err (value_error "timeout must be non-negative"))
    else elim (wait_over t looks) [ none ↦ none | some found ↦ some (found >>= isolated) ]

abbrev pub is_after : ℕ → EventRecord → Bool
is_after after e = ltb after e.cursor

-- `bool(retained and after < retained[0].cursor - 1)`: a cursor is positive
abbrev pub is_truncated : ℕ → List EventRecord → Bool
is_truncated after [] = false
is_truncated after (e ∷ es) = ltb (after + 1) e.cursor

abbrev pub last_cursor : ℕ → List EventRecord → ℕ
last_cursor after es = elim (get_last? es) [ none ↦ after | some e ↦ e.cursor ]

unfoldable pub event_page : ℕ → ℕ → SessionRuntime → EventPage
event_page after limit r =
    let selected = take limit (keep (is_after after) r.events) in
    record {
      events = selected;
      next_cursor = last_cursor after selected;
      truncated = is_truncated after r.events;
    }

-- `events`; a cursor is a natural number here, so only the limit is checked
unfoldable pub events : String → ℕ → ℕ → RuntimeStore → Result RuntimeError EventPage
unfolding event_page find_session
events session_id after limit s =
    if limit == 0
    then err (value_error "limit must be a positive integer")
    else find_session session_id s >>= λ r. ok (event_page after limit r)

abbrev pub live_items : SessionRuntime → List ItemRecord
live_items r = elim r.active_turn_id [
  | some t ↦ get_or (lookup t r.items) []
  | none ↦ elim r.latest_turn [ none ↦ [] | some turn ↦ turn.items ]
]

-- `agent_messages`: the last `tail` messages, whether there were more, and the latest cursor
unfoldable pub agent_messages :
    String → ℕ → RuntimeStore → Result RuntimeError (List ItemRecord × Bool × Option ℕ)
unfolding find_session
agent_messages session_id tail s =
    if tail == 0
    then err (value_error "tail must be a positive integer")
    else find_session session_id s >>= λ r.
        let agents = keep (λ i. i.type == "agentMessage") (live_items r) in
        ok (
          last_n tail agents,
          ltb tail (length agents),
          elim (get_last? r.events) [ none ↦ none | some e ↦ some e.cursor ],
        )
