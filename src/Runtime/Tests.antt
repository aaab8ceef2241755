-- ===== src/Runtime/Tests.antt =====
-- codex_worker/runtime.py on concrete sessions.
use mathlib.Core.Path.{subst}
use superdev.Base.{
  string_eq, nat_eq, pair_eq, option_string_eq, is_some, length, keep, evict, contains, Ensures, ok,
  err, ℕ, ◌-◌, String, ◌≡◌, refl, ◌≢◌, ◌↔◌, true, false, Option, none, some, List, [], ◌∷◌, ◌++◌,
  arith, eq_iff,
}
use superdev.Json.{Json, Fields, text, obj, done, field}
use superdev.Models.{ErrorDetail, ItemRecord, TurnSnapshot, SessionRecord}
use superdev.Runtime.{
  new_runtime, runtime_store, add_terminal_observer, append_event, find_session, by_thread,
  SessionRuntime, RuntimeStore, turn_active, protocol_error,
}
use superdev.Runtime.Starts.{
  is_busy, attach_session, attach, require_attached, reserved, reserve, reserve_start, cancelled,
  bind_start,
}
use superdev.Runtime.Notify.{publish_terminal, notify_session, on_notification}
use superdev.Runtime.Turns.{thread_id_of, turn_of, turn_started, complete_turn, apply_notification}
use superdev.Runtime.Reads.{must_wait, wait_over, is_after, event_page}
use superdev.Runtime.Invariant.{IsValid}
use superdev.Runtime.Sessions.{turn_started-IsValid}
use superdev.Runtime.Store.{attach-IsConsistent, IsConsistent}
use superdev.Runtime.Publication.{on_notification-IsConsistent}
use superdev.Runtime.Pages.{event_page_partition, event_page_complete}
use superdev.Runtime.Protocol.{
  reserve-exclusive, turn_started-bind_start, complete_turn-bind_start, bind_start-mismatch,
}
use superdev.Runtime.Reachable.{
  reached-IsConsistent, RuntimeSteps, attached, observed, notified, no_step, one_more,
}
use superdev.Runtime.Terminals.{late_notices, complete_turn-once}
use superdev.Runtime.Delivery.{
  apply_notes, items_delivered, TurnNote, item_note, begun_note, declined_note,
}
use superdev.Runtime.Waiting.{wait_over-complete_turn}

abbrev session_one : SessionRecord
session_one = record {
  session_id = "s1";
  thread_id = "t1";
  cwd = "/work";
  created_at = "2026-01-01T00:00:00Z";
  updated_at = "2026-01-01T00:00:00Z";
  name = some "worker";
  model = none;
  effort = none;
  tier = none;
  access = none;
  config = none;
}

abbrev idle : SessionRuntime
idle = record {
  session = session_one;
  attached = true;
  active_turn_id = none;
  start_pending = false;
  awaiting_start_response = false;
  observed_start_turn_id = none;
  latest_turn = none;
  terminal_turns = [];
  published_terminal_ids = [];
  publishing_terminal_ids = [];
  next_cursor = 1;
  events = [];
  items = [];
}

abbrev empty_runtime : RuntimeStore
empty_runtime = record {
  event_limit = 2;
  sessions = [];
  thread_sessions = [];
  terminal_observers = 7 ∷ [];
}

abbrev one_session : RuntimeStore
one_session = record empty_runtime {
  sessions = ("s1", idle) ∷ [];
  thread_sessions = ("t1", "s1") ∷ [];
}

-- An observer that only looks.
abbrev looks_on : ℕ → String → TurnSnapshot → RuntimeStore → RuntimeStore
looks_on o k t s = s

abbrev show_json : Json → String
show_json v = "value"

empty_runtime-IsConsistent : IsConsistent empty_runtime
empty_runtime-IsConsistent = record {
  valid = λ k r h. cc h;
  keyed = λ k r h. cc h;
  routed = λ k r h. cc h;
  owned = λ t k h. cc h;
}

attach_one : attach session_one empty_runtime ≡ ok one_session
unfolding attach attach_session new_runtime
attach_one = refl

one_session-IsConsistent : IsConsistent one_session
one_session-IsConsistent = attach-IsConsistent empty_runtime-IsConsistent session_one attach_one

abbrev turn_message : String → String → Fields → Json
turn_message method turn_id rest = obj (
    field "method" (text method) (
      field "params"
        (obj
          (field "threadId" (text "t1") (field "turn" (obj (field "id" (text turn_id) rest)) done)))
        done))

abbrev started_message : Json
started_message = turn_message "turn/started" "u1" done

abbrev active : SessionRuntime
active = record idle {
  active_turn_id = some "u1";
  next_cursor = 2;
  events =
      record {
        cursor = 1;
        event = "turn_started";
        session_id = "s1";
        thread_id = "t1";
        turn_id = some "u1";
        item = none;
        error = none;
      }
      ∷ [];
}

turn_started_runs : turn_started 2 "u1" idle ≡ active
unfolding turn_started append_event evict
turn_started_runs = refl

started_runs :
    on_notification show_json looks_on started_message one_session
    ≡ ok (record one_session { sessions = ("s1", active) ∷ [] })
unfolding on_notification notify_session apply_notification turn_started append_event evict
    thread_id_of by_thread turn_of publish_terminal
started_runs = refl

on_notification-IsConsistent_example :
    Ensures IsConsistent (on_notification show_json looks_on started_message one_session)
on_notification-IsConsistent_example =
    on_notification-IsConsistent looks_on (λ o k t s c. c) show_json started_message
      one_session-IsConsistent

reserve_one :
    reserve_start "s1" one_session
    ≡ ok (record one_session { sessions = ("s1", reserved idle) ∷ [] })
unfolding reserve_start reserve require_attached find_session
reserve_one = refl

idle-IsValid : IsValid 2 idle
idle-IsValid = one_session-IsConsistent.valid "s1" idle refl

active-IsValid : IsValid 2 active
active-IsValid = subst (λ r. IsValid 2 r) turn_started_runs (turn_started-IsValid idle-IsValid "u1")

event_page_partition_example :
    let page = event_page 0 5 active in
    page.events ++ keep (is_after page.next_cursor) active.events ≡ keep (is_after 0) active.events
event_page_partition_example = event_page_partition active-IsValid 0 5

page_whole : (event_page 0 5 active).truncated ≡ false
unfolding event_page
page_whole = refl

event_page_complete_example : length (keep (is_after 0) active.events) ≡ active.next_cursor - 1 - 0
event_page_complete_example = event_page_complete active-IsValid 0 5 (omega arith) page_whole

idle_reserves : reserve idle ≡ ok (reserved idle)
unfolding reserve require_attached
idle_reserves = refl

reserve-exclusive_example :
    ((reserve idle ≡ ok (reserved idle)) ↔ ((idle.attached ≡ true) × (is_busy idle ≡ false)))
    × ((r' : SessionRuntime) → reserve idle ≡ ok r' → reserve r' ≡ err turn_active)
reserve-exclusive_example = reserve-exclusive idle

turn_started-bind_start_example :
    let first = bind_start "u1" (turn_started 2 "u1" (reserved idle)) in
    let second = bind_start "u1" (reserved idle) in
    (first ≡ (turn_started 2 "u1" second.0, ok tt))
    × (second.1 ≡ ok tt)
    × (first.0.active_turn_id ≡ some "u1")
    × (first.0.start_pending ≡ false)
    × (first.0.awaiting_start_response ≡ false)
turn_started-bind_start_example =
    turn_started-bind_start 2 "u1" idle (reserved idle) idle_reserves refl

complete_turn-bind_start_example :
    let (ended, published) = complete_turn 2 "u1" "completed" none (reserved idle) in
    let answered = bind_start "u1" ended in
    (answered.1 ≡ ok tt)
    × (answered.0.active_turn_id ≡ none)
    × (must_wait none answered.0 ≡ false)
    × (answered.0.latest_turn ≡ published)
    × (is_some published ≡ true)
complete_turn-bind_start_example =
    complete_turn-bind_start 2 "u1" "completed" none idle (reserved idle) idle_reserves refl

u1_u2 : ◌≢◌ {A = String} "u1" "u2"
u1_u2 h = cc ((eq_iff "u1" "u2").1 h)

bind_start-mismatch_example : bind_start "u2" (turn_started 2 "u1" (reserved idle)) ≡ (
  cancelled (turn_started 2 "u1" (reserved idle)),
  err (protocol_error "turn/start response id mismatches notification id"),
)
bind_start-mismatch_example =
    bind_start-mismatch 2 "u1" "u2" idle (reserved idle) idle_reserves refl u1_u2

abbrev published_one : SessionRuntime
published_one = record idle { published_terminal_ids = "u1" ∷ [] }

-- The start comes late, and the end twice.
abbrev notices : List (Option (String × Option ErrorDetail))
notices = none ∷ some ("failed", none) ∷ some ("completed", none) ∷ []

complete_turn-once_example :
    let (r', published) = complete_turn 2 "u1" "completed" none active in
    (is_some published ≡ true → contains "u1" active.published_terminal_ids ≡ false)
    × (contains "u1" r'.published_terminal_ids ≡ true)
    × (late_notices 2 "u1" notices r' ≡ (r', []))
complete_turn-once_example =
    complete_turn-once 2 "u1" "completed" none notices active (omega arith) refl

abbrev answer_item : ItemRecord
answer_item = record { item_id = "i1"; type = "agentMessage"; content = done }

abbrev notes : List TurnNote
notes = begun_note ∷ item_note answer_item ∷ declined_note done ∷ []

items_delivered_example :
    (complete_turn 2 "u1" "completed" none (apply_notes show_json 2 "u1" notes active)).1
    ≡ some (record { turn_id = "u1"; status = "completed"; error = none; items = answer_item ∷ [] })
items_delivered_example = items_delivered show_json 2 "u1" "completed" none notes active refl refl

abbrev ended_active : SessionRuntime × Option TurnSnapshot
ended_active = complete_turn 2 "u1" "completed" none active

wait_over-complete_turn_example :
    (snapshot : TurnSnapshot) × (ended_active.1 ≡ some snapshot)
    × (wait_over (some "u1") ((active, false) ∷ (ended_active.0, true) ∷ []) ≡ some (ok snapshot))
wait_over-complete_turn_example =
    wait_over-complete_turn 2 "u1" "completed" none active (some "u1") ((active, false) ∷ []) []
      true refl refl refl refl refl

abbrev started_store : RuntimeStore
started_store = record one_session { sessions = ("s1", active) ∷ [] }

started-RuntimeSteps : RuntimeSteps looks_on show_json empty_runtime started_store
started-RuntimeSteps =
    one_more (attached session_one attach_one)
      (one_more (notified started_message started_runs) no_step)

-- From the new store on, with the observer 7.
new_store : runtime_store 2 ≡ ok (record empty_runtime { terminal_observers = [] })
unfolding runtime_store
new_store = refl

all-RuntimeSteps :
    RuntimeSteps looks_on show_json (record empty_runtime { terminal_observers = [] }) started_store
unfolding add_terminal_observer
all-RuntimeSteps = one_more (observed 7) started-RuntimeSteps

reached-IsConsistent_example : IsConsistent started_store
reached-IsConsistent_example =
    reached-IsConsistent looks_on show_json (λ o k t s c. c) 2 new_store all-RuntimeSteps
