-- ===== src/Transport.antt =====
-- codex_worker/websocket_transport.py: `CodexConnection`, one connection to the codex app server. A
-- section under the state lock is one function on the connection. A request's one-place queue is
-- known by the request's id and lives as long as its call.
pub mod Requests
pub mod Serving
pub mod Calling
pub mod Correlation
pub mod Sections
pub mod Threads
pub mod Answers
mod Tests
use superdev.Base.{
  ltb, leb, nat_beq, nat_beq_iff, if◌then◌else◌, string_eq, ◌==◌, nat_eq, pair_beq, pair_beq_iff,
  pair_eq, option_beq, option_beq_iff, option_string_eq, ltb→lt, lt→ltb, leb→le, Bool-cases,
  Option-cases, is_some, get_or, if_both, tests, Eq, length, take, drop, keep, find_first, any, all,
  get_last?, last_n, evict, length-append, length-drop, length-evict-le, evict-eq-drop,
  length-evict, contains, discard, add, all_distinct, contains-append, contains-discard_self,
  contains-discard, contains-add, length-discard-le, length-discard-lt, find_first-contains, ◌>>=◌,
  raise_if, ◌>>◌, map_result, >>=-eq-ok, raise_if-eq-ok, Result-cases, Ensures, ok_inj,
  Ensures-eq-ok, Ensures-bind, Result, ok, err, Dict, keys, values, lookup, insert, erase,
  insert_last, lookup-insert, lookup-erase, lookup-append, contains-keys, length-erase-le,
  length-erase-lt, lookup-insert_self, lookup-insert_ne, lookup-insert_cases, ℕ, zero, suc, ◌+◌,
  ◌-◌, ◌*◌, ◌/◌, ◌%◌, ◌^◌, ◌≤◌, ◌<◌, min, String, ◌≡◌, refl, sym, ap, ◌∙◌, ◌≢◌, ◌↔◌, ◌⊎◌, inl, inr,
  Bool, true, false, not, ◌&&◌, ◌||◌, Option, none, some, List, [], ◌∷◌, ◌++◌, map, arith, eq_iff,
}
use superdev.Json.{
  get_field, get, field_names, without, item_list, as_text, as_object, as_list, is_null, Integer,
  Json, Items, Fields, natural, negative, null, bool, int, float, text, arr, obj, nil, cons, done,
  field,
}
use superdev.Callbacks.{
  same_state, same_attempt_state, callback_attempt_view, is_strict_json, are_strict_items,
  are_strict_fields, callback_event, nonempty_or_none, get_in, terminal_turn_id, is_absolute,
  is_child_token, is_relative, is_bad_token, is_zero, route_parts, check_route, callback_binding,
  is_pending, is_foreign, callback_outbox_entry, CallbackState, CallbackAttemptState,
  CallbackAttemptView, CallbackStatusView, WorkerView, CallbackEvent, CallbackBinding,
  CallbackOutboxState, CallbackOutboxEntry, enabled, disabled, unavailable, attempt_pending,
  attempt_written, attempt_failed, pending_entry, written_entry,
}
use superdev.Gateway.Bridges.{
  same_pending, pop, pending_of, release, enter_context, exit_context, unhold, hold, register,
  taken, take_pending, is_same_pending, withdraw, contexts, close_pending, exit_contexts,
  close_bridge, max_frame_bytes, fault_frame, refuse, sent_as, PendingRequest, Bridge,
  GatewaySystem, Frame, Outcome, read_pending, mutation_pending,
}

-- `CodexCallError`, and `CodexTransportError`, whose kind is "transport_error"
pub record CallError : Type 0 where
  pub kind : String
  pub method : String
  pub details : Option Fields

-- What a waiting call finds in its queue.
pub data Answer : Type 0 where
  response : Fields → Answer
  failed : CallError → Answer

-- `approval_queue` holds the server's requests, and `none` for `_APPROVAL_STOP`. `sent` and
-- `notifications` are what has been handed to the socket and to the observer.
pub record CodexConnection : Type 0 where
  pub next_id : ℕ
  pub pending : List ℕ
  pub queues : Dict ℕ (Option Answer)
  pub connected : Bool
  pub closed : Bool
  pub close_error : Option CallError
  pub approval_queue : List (Option Fields)
  pub diagnostics : List String
  pub sent : List Fields
  pub notifications : List Fields

-- What the connection asks of others: the size of a message as text, the socket's `send` (the type
-- of what it raises), whether the observer raises, `str` of a value, and the approval handler, which
-- answers `none` when it raises.
pub record ConnectionDeps : Type 0 where
  pub frame_bytes : Fields → ℕ
  pub send_raises : Fields → Option String
  pub observer_raises : Fields → Bool
  pub text_of : Json → String
  pub approval_handler : Option (Fields → Option Json)

-- The connection once `_open_transport` has connected for the first time.
abbrev pub new_connection : CodexConnection
new_connection = record {
  next_id = 1;
  pending = [];
  queues = [];
  connected = true;
  closed = false;
  close_error = none;
  approval_queue = [];
  diagnostics = [];
  sent = [];
  notifications = [];
}

abbrev pub max_incoming_queue : ℕ
max_incoming_queue = 16

abbrev pub fault_details : String → Fields
fault_details why = field "message" (text why) done

abbrev pub typed_details : String → String → Fields
typed_details why type_name = field "message" (text why) (field "error" (text type_name) done)

abbrev pub call_error : String → String → Option Fields → CallError
call_error kind method details = record { kind = kind; method = method; details = details }

abbrev pub transport_error : Fields → CallError
transport_error details = call_error "transport_error" "transport" (some details)

-- `details.get("code") == OVERLOAD_CODE`; the float is -32001.0
abbrev pub is_overload : Json → Bool
is_overload (int (negative n)) = n == 32000
is_overload (float bits) = bits == 13897897618710724608
is_overload _ = false

-- `CodexCallError.from_response`
unfoldable pub from_response : (Json → String) → String → Json → CallError
from_response text_of method error =
    let details = get_or (as_object error) (fault_details (text_of error)) in
    call_error (if is_overload (get "code" details) then "upstream_busy" else "upstream_error")
      method (some details)

-- `_require_open`: what it raises
unfoldable pub require_open : CodexConnection → Option CallError
require_open c =
    if c.closed
    then some (get_or c.close_error (transport_error (fault_details "connection is closed")))
    else if not c.connected
    then some (transport_error (fault_details "connection is unavailable"))
    else none

-- `_emit_notification`
unfoldable pub emit_notification : ConnectionDeps → Fields → CodexConnection → CodexConnection
emit_notification deps message c = record c {
  notifications = c.notifications ++ (message ∷ []);
  diagnostics =
      if deps.observer_raises message
      then c.diagnostics ++ ("notification observer raised" ∷ [])
      else c.diagnostics;
}

-- `put_nowait` on the queue of a request: `none` when it is full. A queue whose call has ended takes
-- the answer and is dropped.
unfoldable pub put_nowait : ℕ → Answer → Dict ℕ (Option Answer) → Option (Dict ℕ (Option Answer))
put_nowait id answer queues = elim (lookup id queues) [
  | none ↦ some queues
  | some none ↦ some (insert id (some answer) queues)
  | some (some _) ↦ none
]

-- The loop of `_fail_transport` over the waiters
unfoldable pub put_all : List ℕ → Answer → Dict ℕ (Option Answer) → Dict ℕ (Option Answer)
put_all [] answer queues = queues
put_all (id ∷ ids) answer queues = put_all ids answer (get_or (put_nowait id answer queues) queues)

abbrev pub has_room : List (Option Fields) → Bool
has_room queue = ltb (length queue) max_incoming_queue

abbrev pub transport_notification : CallError → Fields
transport_notification error = field "method" (text "transport/error") (
    field "params"
      (obj (
        field "kind" (text "transport_error")
          (field "details" (elim error.details [ none ↦ null | some d ↦ obj d ]) done)))
      done)

-- The section of `_fail_transport`, with the answers that it gives to the waiters
unfoldable pub fail_pending : CallError → CodexConnection → CodexConnection
fail_pending error c = record c {
  closed = true;
  close_error = some error;
  queues = put_all c.pending (failed error) c.queues;
  pending = [];
  connected = false;
  approval_queue =
      if has_room c.approval_queue then c.approval_queue ++ (none ∷ []) else c.approval_queue;
}

-- `_fail_transport`
unfoldable pub fail_transport : ConnectionDeps → CallError → CodexConnection → CodexConnection
unfolding fail_pending emit_notification
fail_transport deps error c =
    if c.closed
    then c
    else emit_notification deps (transport_notification error) (fail_pending error c)

-- `_send` up to the section that finds the connection open: what it raises
unfoldable pub check_send : ConnectionDeps → Fields → CodexConnection → Option CallError
unfolding require_open
check_send deps message c =
    let method = get_or (as_text (get "method" message)) "transport" in
    if not (are_strict_fields message)
    then some (
        call_error "protocol_error" method
          (some (fault_details "message contains a value outside strict JSON")))
    else if ltb max_frame_bytes (deps.frame_bytes message)
    then some (call_error "frame_too_large" method none)
    else require_open c

-- `connection.send` of `_send`, which is outside the state lock, with its handler
unfoldable pub transmit :
    ConnectionDeps → Fields → CodexConnection → CodexConnection × Option CallError
unfolding fail_transport
transmit deps message c = elim (deps.send_raises message) [
  | none ↦ (record c { sent = c.sent ++ (message ∷ []) }, none)
  | some type_name ↦
      let error = transport_error (typed_details "Codex WebSocket send failed" type_name) in
      (fail_transport deps error c, some error)
]

-- `_send`: what it raises; `meanwhile` is what the other threads do between its two halves.
unfoldable pub send :
    ConnectionDeps
    → (CodexConnection → CodexConnection)
    → Fields
    → CodexConnection
    → CodexConnection × Option CallError
unfolding check_send transmit
send deps meanwhile message c = elim (check_send deps message c) [
  | some error ↦ (c, some error)
  | none ↦ transmit deps message (meanwhile c)
]

-- `close`
unfoldable pub close : ConnectionDeps → CodexConnection → CodexConnection
unfolding fail_transport
close deps c = fail_transport deps (transport_error (fault_details "connection closed")) c
