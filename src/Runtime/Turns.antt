-- ===== src/Runtime/Turns.antt =====
-- The branches of `on_notification`: what a notification of the app server does to its session.
use superdev.Base.{
  if◌then◌else◌, string_eq, ◌==◌, nat_eq, pair_eq, option_string_eq, get_or, contains, ◌>>=◌,
  Result, ok, err, lookup, insert, erase, ℕ, String, Bool, true, false, not, ◌&&◌, ◌||◌, Option,
  none, some, [], ◌∷◌, ◌++◌,
}
use superdev.Json.{get, without, as_text, as_object, is_null, Json, Fields, text, done, field}
use superdev.Models.{error_detail, ErrorDetail, ItemRecord, TurnSnapshot}
use superdev.Runtime.{
  mark_terminal_published, retain_terminal, append_event, RuntimeError, SessionRuntime, value_error,
}

-- `_thread_id`
unfoldable pub thread_id_of : Fields → Option String
thread_id_of message = elim (as_object (get "params" message)) [
  | none ↦ none
  | some params ↦ elim (as_text (get "threadId" params)) [
    | some t ↦ some t
    | none ↦ elim (as_object (get "turn" params)) [
      | none ↦ none
      | some turn ↦ as_text (get "threadId" turn)
    ]
  ]
]

-- `_turn_error`: building the detail may raise `ValueError`
unfoldable pub turn_error : String → Json → Result RuntimeError (Option ErrorDetail)
turn_error status value =
    if not (status == "failed") && is_null value
    then ok none
    else elim (error_detail "codex_turn_failed" none (as_object value)) [
      | ok e ↦ ok (some e)
      | err m ↦ err (value_error m)
    ]

-- `turn.get("id") if isinstance(turn, dict) else None`, where it is a text
unfoldable pub turn_of : Fields → Option (String × Fields)
turn_of params = elim (as_object (get "turn" params)) [
  | none ↦ none
  | some turn ↦ elim (as_text (get "id" turn)) [ none ↦ none | some t ↦ some (t, turn) ]
]

-- The branch `turn/started`.
unfoldable pub turn_started : ℕ → String → SessionRuntime → SessionRuntime
turn_started limit t r =
    if contains t r.published_terminal_ids && not r.awaiting_start_response
    then r
    else append_event limit "turn_started" (some t) none none (record r {
      start_pending = false;
      active_turn_id = some t;
      observed_start_turn_id =
          if r.awaiting_start_response then some t else r.observed_start_turn_id;
    })

-- `belongs_to_pending`
abbrev pub is_pending_start : String → SessionRuntime → Bool
is_pending_start t r =
    r.awaiting_start_response
    && (r.observed_start_turn_id == none || r.observed_start_turn_id == some t)
    && (r.active_turn_id == none || r.active_turn_id == some t)

-- The start protocol at `turn/completed`, before the snapshot is taken.
unfoldable pub finish_active : String → SessionRuntime → SessionRuntime
finish_active t r = record r {
  observed_start_turn_id = if is_pending_start t r then some t else r.observed_start_turn_id;
  start_pending = if is_pending_start t r then false else r.start_pending;
  active_turn_id = if r.active_turn_id == some t then none else r.active_turn_id;
}

-- The branch `turn/completed`, once the error has been built: the new state, and the snapshot to
-- publish.
unfoldable pub complete_turn :
    ℕ → String → String → Option ErrorDetail → SessionRuntime → SessionRuntime × Option TurnSnapshot
complete_turn limit t status error r =
    if contains t r.published_terminal_ids && not (r.active_turn_id == some t)
    then (r, none)
    else (let snapshot : TurnSnapshot = record {
      turn_id = t;
      status = status;
      error = error;
      items = get_or (lookup t r.items) [];
    } in
        let (r', fresh) =
          mark_terminal_published limit t
            (record (finish_active t r) { items = erase t r.items; latest_turn = some snapshot }) in
        (
          append_event limit "turn_completed" (some t) none error
              (retain_terminal limit snapshot fresh r'),
          if fresh then some snapshot else none,
        ))

-- `turn.get("status")` where it is a text, or "unknown"
abbrev pub status_of : Fields → String
status_of turn = get_or (as_text (get "status" turn)) "unknown"

-- The early return on a turn that has been published comes before the error is built.
unfoldable pub turn_completed :
    ℕ
    → String
    → Fields
    → SessionRuntime
    → Result RuntimeError (SessionRuntime × Option TurnSnapshot)
turn_completed limit t turn r =
    if contains t r.published_terminal_ids && not (r.active_turn_id == some t)
    then ok (r, none)
    else do
      error ← turn_error (status_of turn) (get "error" turn)
      ok (complete_turn limit t (status_of turn) error r)

-- `current_turn`
abbrev pub is_current_turn : String → SessionRuntime → Bool
is_current_turn t r =
    r.active_turn_id == some t
    || r.awaiting_start_response
      && r.observed_start_turn_id == some t
      && elim r.latest_turn [ none ↦ true | some l ↦ not (l.turn_id == t) ]

-- `runtime.items.setdefault(turn_id, []).append(item_record)`, for the turn that is running
unfoldable pub collect_item : Option String → ItemRecord → SessionRuntime → SessionRuntime
collect_item none item r = r
collect_item (some t) item r =
    if is_current_turn t r
    then record r { items = insert t (get_or (lookup t r.items) [] ++ (item ∷ [])) r.items }
    else r

-- `ItemRecord(item["id"], item["type"], data)`, if the item is well formed
unfoldable pub item_of : Fields → Option ItemRecord
item_of params = elim (as_object (get "item" params)) [
  | none ↦ none
  | some item ↦ elim (as_text (get "id" item)) [
    | none ↦ none
    | some item_id ↦ elim (as_text (get "type" item)) [
      | none ↦ none
      | some type ↦
          some
            (record { item_id = item_id; type = type; content = without ("id" ∷ "type" ∷ []) item })
    ]
  ]
]

unfoldable pub record_item : ℕ → Option String → Option ItemRecord → SessionRuntime → SessionRuntime
record_item limit turn_id none r = r
record_item limit turn_id (some item) r =
    append_event limit "item_completed" turn_id (some item) none (collect_item turn_id item r)

-- The branch `item/completed`.
unfoldable pub item_completed : ℕ → Fields → SessionRuntime → SessionRuntime
item_completed limit params r = record_item limit (as_text (get "turnId" params)) (item_of params) r

-- The branch `approval/declined`; `str` is Python's `str` on a JSON value.
unfoldable pub approval_declined : (Json → String) → ℕ → Fields → SessionRuntime → SessionRuntime
approval_declined str limit params r =
    let request_id = get "requestId" params in
    let entry : ItemRecord = record {
      item_id = if is_null request_id then "unknown" else str request_id;
      type = get_or (as_text (get "approvalMethod" params)) "unknown_approval";
      content = field "decision" (text "decline") done;
    } in
    append_event limit "approval_declined" (as_text (get "turnId" params)) (some entry) none r

-- A notification without a turn id is passed over.
abbrev pub turn_started_by : ℕ → Option (String × Fields) → SessionRuntime → SessionRuntime
turn_started_by limit none r = r
turn_started_by limit (some (t, _)) r = turn_started limit t r

abbrev pub turn_completed_by :
    ℕ
    → Option (String × Fields)
    → SessionRuntime
    → Result RuntimeError (SessionRuntime × Option TurnSnapshot)
turn_completed_by limit none r = ok (r, none)
turn_completed_by limit (some (t, turn)) r = turn_completed limit t turn r

-- One session's notification, under its condition: the new state, and the snapshot to publish.
unfoldable pub apply_notification :
    (Json → String)
    → ℕ
    → String
    → Fields
    → SessionRuntime
    → Result RuntimeError (SessionRuntime × Option TurnSnapshot)
apply_notification str limit method params r =
    if method == "turn/started"
    then ok (turn_started_by limit (turn_of params) r, none)
    else if method == "turn/completed"
    then turn_completed_by limit (turn_of params) r
    else if method == "item/completed"
    then ok (item_completed limit params r, none)
    else ok (approval_declined str limit params r, none)
