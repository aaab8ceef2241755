-- ===== src/Runtime/Reconcile.antt =====
-- `reconcile_thread`: the state of a session is set from an authoritative thread read.
use superdev.Base.{
  if◌then◌else◌, ◌==◌, nat_eq, string_eq, pair_eq, option_string_eq, is_some, keep, all, get_last?,
  last_n, contains, ◌>>=◌, ◌>>◌, raise_if, map_result, Result, ok, err, values, ℕ, String, Bool,
  true, false, not, ◌&&◌, ◌||◌, Option, none, some, List, [], ◌∷◌,
}
use superdev.Json.{
  get_field, get, field_names, without, item_list, as_text, as_list, Json, Fields, null, text, arr,
  obj,
}
use superdev.Models.{ItemRecord, TurnSnapshot, RuntimeStatus}
use superdev.Runtime.{
  mark_terminal_published, retain_terminal, by_thread, put_session, RuntimeError, SessionRuntime,
  RuntimeStore, protocol_error, type_error,
}
use superdev.Runtime.Notify.{publish_terminal}
use superdev.Runtime.Turns.{turn_error}
use superdev.Runtime.Reads.{status_view, status}

-- The provider's statuses, and the names that they have here.
unfoldable pub known_status : String → Option String
known_status s =
    if s == "inProgress"
    then some "in_progress"
    else if s == "completed" || s == "failed" || s == "interrupted"
    then some s
    else none

-- A text that is not empty.
abbrev pub nonempty_text : Json → Option String
nonempty_text (text s) = if s == "" then none else some s
nonempty_text _ = none

authoritative_item : Json → Result RuntimeError ItemRecord
authoritative_item (obj item) = elim (nonempty_text (get "id" item)) [
  | none ↦ err (protocol_error "authoritative turn item is malformed")
  | some item_id ↦ elim (nonempty_text (get "type" item)) [
    | none ↦ err (protocol_error "authoritative turn item is malformed")
    | some type ↦
        ok (record { item_id = item_id; type = type; content = without ("id" ∷ "type" ∷ []) item })
  ]
]
authoritative_item _ = err (protocol_error "authoritative turn item is malformed")

-- `turn.get("items", [])`
abbrev raw_items : Fields → Option (List Json)
raw_items turn = elim (get_field "items" turn) [ none ↦ some [] | some v ↦ as_list v ]

-- `raw_error is not None and not isinstance(raw_error, dict)`
abbrev is_bad_error : Json → Bool
is_bad_error null = false
is_bad_error (obj _) = false
is_bad_error _ = true

-- `provider_status not in statuses`: a list or a dict has no hash, so that the test itself raises.
status_in_table : Json → Result RuntimeError (String × String)
unfolding known_status
status_in_table (text provider) = elim (known_status provider) [
  | none ↦ err (protocol_error "authoritative turn identity or status is malformed")
  | some status ↦ ok (provider, status)
]
status_in_table (arr _) = err (type_error "unhashable type")
status_in_table (obj _) = err (type_error "unhashable type")
status_in_table _ = err (protocol_error "authoritative turn identity or status is malformed")

authoritative_identity : Fields → Result RuntimeError (String × String × String)
unfolding status_in_table
authoritative_identity turn = elim (nonempty_text (get "id" turn)) [
  | none ↦ err (protocol_error "authoritative turn identity or status is malformed")
  | some t ↦ status_in_table (get "status" turn) >>= λ (provider, status). ok (t, provider, status)
]

-- `_snapshot_from_authoritative_turn`
unfoldable pub authoritative_turn : ℕ → Json → Result RuntimeError TurnSnapshot
unfolding authoritative_item authoritative_identity
authoritative_turn limit (obj turn) =
    if not (is_some (get_field "id" turn)) || not (is_some (get_field "status" turn))
    then err (protocol_error "authoritative turn is malformed")
    else authoritative_identity turn >>= λ (t, provider, status). elim (raw_items turn) [
      | none ↦ err (protocol_error "authoritative turn items are malformed")
      | some values ↦ do
        items ← map_result authoritative_item values
        raise_if (is_bad_error (get "error" turn))
            (protocol_error "authoritative turn error is malformed")
        error ← turn_error provider (get "error" turn)
        ok (record { turn_id = t; status = status; error = error; items = last_n limit items })
    ]
authoritative_turn limit _ = err (protocol_error "authoritative turn is malformed")

-- `set(status) == names`, for a dict: its keys do not repeat
abbrev pub has_fields : List String → Fields → Bool
has_fields names fs =
    all (λ n. contains n (field_names fs)) names && all (λ n. contains n names) (field_names fs)

are_flags : Json → Bool
are_flags (arr vs) = all (λ v. is_some (nonempty_text v)) (item_list vs)
are_flags _ = false

-- The status of the thread: whether it is active.
unfoldable pub thread_activity : Json → Result RuntimeError Bool
unfolding are_flags
thread_activity (obj status) = elim (as_text (get "type" status)) [
  | none ↦ err (protocol_error "authoritative thread status type is unknown")
  | some type ↦
      if type == "active"
      then (if has_fields ("type" ∷ "activeFlags" ∷ []) status
            && are_flags (get "activeFlags" status)
          then ok true
          else err (protocol_error "authoritative active status is malformed"))
      else if type == "idle" || type == "notLoaded" || type == "systemError"
      then (if has_fields ("type" ∷ []) status
          then ok false
          else err (protocol_error "authoritative inactive status is malformed"))
      else err (protocol_error "authoritative thread status type is unknown")
]
thread_activity _ = err (protocol_error "authoritative thread status is malformed")

abbrev pub is_in_progress : TurnSnapshot → Bool
is_in_progress t = t.status == "in_progress"

-- The active turn of a thread: exactly one if the thread is active, and none if it is not.
unfoldable pub active_of : Bool → List TurnSnapshot → Result RuntimeError (Option TurnSnapshot)
active_of true (t ∷ []) = ok (some t)
active_of false [] = ok none
active_of true _ = err (protocol_error "active thread must identify exactly one active turn")
active_of false _ = err (protocol_error "inactive thread contains an active turn")

abbrev pub latest_terminal : List TurnSnapshot → Option TurnSnapshot
latest_terminal snapshots = get_last? (keep (λ t. not (is_in_progress t)) snapshots)

-- What is done under the condition, before the terminal turn is recorded.
abbrev pub set_active : Option TurnSnapshot → SessionRuntime → SessionRuntime
set_active none r = record r { attached = true; active_turn_id = none; items = [] }
set_active (some t) r = record r {
  attached = true;
  active_turn_id = some t.turn_id;
  items = (t.turn_id, t.items) ∷ [];
  observed_start_turn_id =
      if r.awaiting_start_response then some t.turn_id else r.observed_start_turn_id;
}

-- The new state, and the snapshot to publish. The copies are left out: the error of each turn has
-- just been validated by `read_thread`.
unfoldable pub reconcile_session :
    ℕ
    → Option TurnSnapshot
    → Option TurnSnapshot
    → SessionRuntime
    → SessionRuntime × Option TurnSnapshot
reconcile_session limit active none r = (set_active active r, none)
reconcile_session limit active (some t) r =
    let (r', fresh) =
      mark_terminal_published limit t.turn_id
        (record (set_active active r) { latest_turn = some t }) in
    (retain_terminal limit t fresh r', if fresh then some t else none)

-- The reads of the thread, in the order of the checks.
unfoldable pub read_thread :
    ℕ → Fields → Result RuntimeError (Option TurnSnapshot × Option TurnSnapshot)
unfolding thread_activity authoritative_turn active_of
read_thread limit thread = do
  is_active ← thread_activity (get "status" thread)
  elim (as_list (get "turns" thread)) [
    | none ↦ err (protocol_error "authoritative thread turns are malformed")
    | some values ↦ do
      snapshots ← map_result (authoritative_turn limit) values
      active ← active_of is_active (keep is_in_progress snapshots)
      ok (active, latest_terminal snapshots)
  ]

-- The status is projected before the observers are called.
unfoldable pub reconcile_found :
    (ℕ → String → TurnSnapshot → RuntimeStore → RuntimeStore)
    → Fields
    → Option SessionRuntime
    → RuntimeStore
    → Result RuntimeError (RuntimeStore × RuntimeStatus)
reconcile_found react thread none s = err (protocol_error "authoritative thread is not attached")
reconcile_found react thread (some r) s = read_thread s.event_limit thread >>= λ (active, terminal).
    let (r', fresh) = reconcile_session s.event_limit active terminal r in
    ok (
      publish_terminal react r.session.session_id fresh (put_session r.session.session_id r' s),
      status_view r'.latest_turn r',
    )

unfoldable pub reconcile_thread :
    (ℕ → String → TurnSnapshot → RuntimeStore → RuntimeStore)
    → Json
    → RuntimeStore
    → Result RuntimeError (RuntimeStore × RuntimeStatus)
unfolding reconcile_found
reconcile_thread react (obj thread) s =
    reconcile_found react thread (by_thread (as_text (get "id" thread)) s) s
reconcile_thread react _ s = err (protocol_error "authoritative thread is malformed")
