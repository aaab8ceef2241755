-- ===== src/Callbacks/Tests.antt =====
-- callback_store.py on a concrete file.
use superdev.Base.{
  nat_eq, string_eq, pair_eq, option_string_eq, ok, ◌+◌, ◌≡◌, refl, none, some, [], ◌∷◌,
}
use superdev.Json.{text, done, field}
use superdev.Callbacks.{
  callback_attempt_view, is_strict_json, callback_event, terminal_turn_id, callback_binding,
  callback_outbox_entry, CallbackAttemptView, CallbackStatusView, WorkerView, CallbackEvent,
  CallbackBinding, CallbackOutboxEntry, disabled, attempt_written, pending_entry, written_entry,
}
use superdev.Callbacks.Store.{
  sort_keys, empty_store, write, bind, enqueue_terminal, set_attempt, find_entry, record_attempt,
  record_written, callback_status, CallbackStore,
}
use superdev.Callbacks.Store.Progress.{Advances}
use superdev.Callbacks.Store.History.{
  Steps-Advances, Steps, binding_made, event_queued, event_sent, stay, then_step,
}
use superdev.Callbacks.Store.Outbox.{enqueue_terminal-twice, record_written-final}

abbrev quiet_binding : CallbackBinding
quiet_binding = record {
  session_id = "s1";
  state = disabled;
  target_socket = none;
  child_token = none;
  claude_session_id = none;
  claude_pid = none;
  claude_proc_start = none;
  claude_config_dir = none;
  captured_at = "2026-01-01T00:00:00Z";
  last_terminal_attempt = none;
}

abbrev worker_one : WorkerView
worker_one = record {
  name = "worker";
  session_id = "s1";
  thread_id = "t1";
  cwd = "/work";
  tier = none;
  model = "m";
  effort = "high";
  access = "full";
  attach = none;
  config = none;
}

abbrev event_one : CallbackEvent
event_one = record {
  schema = "codex-worker.claude-callback/v1";
  event = "turn_terminal_reference";
  event_id = "e1";
  emitted_at = "2026-01-01T00:00:00Z";
  priority = "next";
  worker = worker_one;
  payload = field "turn_id" (text "u1") done;
}

event_one_built :
    callback_event "codex-worker.claude-callback/v1" "turn_terminal_reference" "e1"
      "2026-01-01T00:00:00Z" "next" worker_one
      (field "turn_id" (text "u1") done)
    ≡ ok event_one
unfolding callback_event is_strict_json
event_one_built = refl

abbrev bound_store : CallbackStore
bound_store = record { bindings = ("s1", quiet_binding) ∷ []; outbox = [] }

abbrev entry_one : CallbackOutboxEntry
entry_one = record {
  event_id = "e1";
  session_id = "s1";
  event = some event_one;
  state = pending_entry;
  attempt_count = 0;
  last_error = none;
}

abbrev queued_store : CallbackStore
queued_store = record bound_store { outbox = ("e1", entry_one) ∷ [] }

bind_runs : bind quiet_binding empty_store ≡ ok bound_store
unfolding bind write sort_keys
bind_runs = refl

queue_runs : enqueue_terminal "s1" event_one bound_store ≡ ok (queued_store, some entry_one)
unfolding enqueue_terminal callback_outbox_entry write sort_keys
queue_runs = refl

abbrev written_one : CallbackOutboxEntry
written_one = record entry_one { event = none; state = written_entry; attempt_count = 1 }

abbrev sent_store : CallbackStore
sent_store = record {
  bindings =
      (
        "s1",
        record quiet_binding {
          last_terminal_attempt = some (record {
            event_id = "e1";
            state = attempt_written;
            reason = none;
            attempted_at = some "2026-01-01T00:00:01Z";
            attempt_count = 1;
            turn_id = some "u1";
          });
        },
      )
      ∷ [];
  outbox = ("e1", written_one) ∷ [];
}

written_runs :
    record_written "e1" "2026-01-01T00:00:01Z" queued_store ≡ ok (sent_store, written_one)
unfolding record_written find_entry record_attempt callback_outbox_entry callback_attempt_view
    set_attempt callback_binding terminal_turn_id write sort_keys
written_runs = refl

sent-Steps : Steps empty_store sent_store
sent-Steps = then_step (binding_made quiet_binding bind_runs) (
    then_step (event_queued "s1" event_one queue_runs)
      (then_step (event_sent "e1" "2026-01-01T00:00:01Z" written_runs) stay))

Steps-Advances_example : Advances empty_store sent_store
Steps-Advances_example = Steps-Advances sent-Steps

enqueue_terminal-twice_example :
    enqueue_terminal "s1" event_one queued_store ≡ ok (queued_store, some entry_one)
enqueue_terminal-twice_example =
    enqueue_terminal-twice "s1" event_one bound_store queued_store (some entry_one) queue_runs

record_written-final_example :
    (enqueue_terminal "s1" event_one sent_store ≡ ok (sent_store, none))
    × ((v : CallbackStatusView) × (attempt : CallbackAttemptView) × (callback_status "s1" sent_store
          ≡ ok v)
        × (v.last_terminal_attempt ≡ some attempt)
        × (attempt.event_id ≡ "e1")
        × (attempt.attempt_count ≡ entry_one.attempt_count + 1))
record_written-final_example =
    record_written-final "e1" "2026-01-01T00:00:01Z" event_one queued_store sent_store written_one
      entry_one written_runs refl refl refl
