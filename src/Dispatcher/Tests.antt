-- ===== src/Dispatcher/Tests.antt =====
-- callback_dispatcher.py on concrete turns.
use superdev.Base.{
  if◌then◌else◌, string_eq, ◌==◌, nat_eq, pair_eq, option_string_eq, Result, ok, err, ℕ, ◌+◌, ◌≡◌,
  refl, ◌⊎◌, true, false, Option, none, some, [], ◌∷◌, arith,
}
use superdev.Json.{natural, int, text, obj, done, field}
use superdev.Callbacks.{CallbackEvent, CallbackBinding, enabled, pending_entry}
use superdev.Callbacks.Store.{CallbackStore}
use superdev.Projection.{CompletionResponse}
use superdev.Projection.Completing.{default_recovery}
use superdev.Projection.Tests.{some_worker, done_turn, done_completion}
use superdev.Dispatcher.{
  TurnKey, new_dispatcher, queue, ready_key, take_turn, Failure, TerminalProjectionContext,
  TerminalCallbackDispatcher,
}
use superdev.Dispatcher.Claims.{
  claim_projection, settle_projection, claim_fault, settle_failed, settle_fault, finish_processing,
}
use superdev.Dispatcher.Turns.{
  untracked, run_section, turn_section, tracked_turn, taking, answering,
}
use superdev.Dispatcher.Steps.{run_section-refines, run_section-Keeps, Keeps}
use superdev.Dispatcher.Processing.{
  project_once, durable_fault_once, process_terminal, drain_ready, completion_for, TurnServices,
}
use superdev.Dispatcher.Events.{CallbackPort}
use superdev.Dispatcher.Working.{any_context, Idle, Open}
use superdev.Dispatcher.Draining.{drain_ready-ends}
use superdev.Dispatcher.Answering.{completion_for-forgets}
use superdev.Dispatcher.Forgetting.{is_tracked}

abbrev some_context : TerminalProjectionContext
some_context = record {
  worker = some_worker;
  output_schema = none;
  started_at = 3;
  recovery = default_recovery;
}

abbrev key : TurnKey
key = ("s1", "u1")

-- A turn that has been observed and has ended.
abbrev one_ended : TerminalCallbackDispatcher
one_ended = record new_dispatcher {
  contexts = (key, some_context) ∷ [];
  snapshots = (key, done_turn) ∷ [];
}

one_ended_queued : queue any_context some_context done_turn none new_dispatcher ≡ ok one_ended
unfolding queue
one_ended_queued = refl

-- Services that always answer, over a store that counts the writes.
abbrev counting : TurnServices ℕ
counting = record {
  now = 5;
  project = λ context snapshot duration. ok done_completion;
  persist = λ context completion s. (s + 1, none);
  record_fault = λ key reason s. (s, true);
}

abbrev stopping_one : TerminalCallbackDispatcher
stopping_one = record one_ended { stopping = true }

idle_stopping : (k : TurnKey) → Idle (tracked_turn k stopping_one)
unfolding tracked_turn
idle_stopping k = record { unprojected = refl; unpersisted = refl }

run_section-refines_example : tracked_turn key (run_section any_context taking key one_ended) ≡ (
    if key == key
    then turn_section any_context taking false (tracked_turn key one_ended)
    else tracked_turn key one_ended)
run_section-refines_example = run_section-refines any_context taking key key one_ended

run_section-Keeps_example :
    (tracked_turn key (run_section any_context answering key one_ended) ≡ untracked)
    ⊎ Keeps
        (tracked_turn key one_ended)
        (tracked_turn key (run_section any_context answering key one_ended))
run_section-Keeps_example = run_section-Keeps any_context answering key key one_ended

drain_ready-ends_example :
    (d' : TerminalCallbackDispatcher) × (s' : ℕ) × (drain_ready counting 1 stopping_one 0
      ≡ some (d', s'))
    × (ready_key d' ≡ none)
drain_ready-ends_example =
    drain_ready-ends counting stopping_one 0 1 refl idle_stopping (omega arith)

unsettled_turn : Open false (tracked_turn key one_ended)
unfolding tracked_turn
unsettled_turn = record {
  idle = record { unprojected = refl; unpersisted = refl };
  processed = refl;
  undelivered = refl;
  unlost = refl;
}

completion_for-forgets_example :
    (d' : TerminalCallbackDispatcher) × (s' : ℕ) × (answer : Result Failure CompletionResponse)
    × (completion_for counting key some_context done_turn one_ended 0 ≡ some (d', s', answer))
    × ((is_tracked (tracked_turn key d') ≡ false)
        ⊎ (((e : Failure) × (answer ≡ err e)) × (one_ended.stopping ≡ false)))
    × ((k : TurnKey) → (key == k) ≡ false → tracked_turn k d' ≡ tracked_turn k one_ended)
completion_for-forgets_example =
    completion_for-forgets counting key some_context done_turn one_ended 0 refl unsettled_turn

-- A binding with a route, and a transport that finds every line too long but a reference.
abbrev routed : CallbackBinding
routed = record {
  session_id = "s1";
  state = enabled;
  target_socket = some "/run/claude";
  child_token = some "0123456789abcdef0123456789abcdef";
  claude_session_id = some "c1";
  claude_pid = some 7;
  claude_proc_start = some "p";
  claude_config_dir = some "/home";
  captured_at = "then";
  last_terminal_attempt = none;
}

abbrev routed_store : CallbackStore
routed_store = record { bindings = ("s1", routed) ∷ []; outbox = [] }

abbrev narrow_port : CallbackPort
narrow_port = record {
  digest = λ parts. "d";
  encode_user_line = λ binding event.
      if event.event == "turn_terminal"
      then some (record { type_name = "FacadeFault"; kind = some "callback_payload_too_large" })
      else none;
  publish_artifact = λ id completion.
      ok (record { event_id = id; path = "/artifacts/d.json"; sha256 = "d"; size_bytes = 12 });
  send = λ binding event. ok none;
}

abbrev reference : CallbackEvent
reference = record {
  schema = "codex-worker.claude-callback/v1";
  event = "turn_terminal_reference";
  event_id = "terminal-d";
  emitted_at = "now";
  priority = "next";
  worker = some_worker;
  payload =
      field "artifact"
        (obj (
          field "path" (text "/artifacts/d.json")
            (field "sha256" (text "d") (field "size_bytes" (int (natural 12)) done))))
        (field "turn_id" (text "u1") done);
}

abbrev stored : CallbackStore
stored = record routed_store {
  outbox =
      (
        "terminal-d",
        record {
          event_id = "terminal-d";
          session_id = "s1";
          event = some reference;
          state = pending_entry;
          attempt_count = 0;
          last_error = none;
        },
      )
      ∷ [];
}

-- A shutdown whose store refuses both the event and the fault gives the turn up, and its client is
-- answered all the same.
abbrev refusing : TurnServices ℕ
refusing = record counting {
  persist = λ context completion s. (s, some (record { type_name = "OSError"; kind = none }));
  record_fault = λ key reason s. (s, false);
}

loss_reported : (settle_failed key false stopping_one).1 ≡ true
unfolding settle_failed
loss_reported = refl

-- A fault of the projection that cannot be recorded leaves the turn ready at once.
abbrev failing : TurnServices ℕ
failing = record refusing {
  project = λ context snapshot duration. err (record { type_name = "ValueError"; kind = none });
}

abbrev ready_after : Option (TerminalCallbackDispatcher × ℕ) → Option TurnKey
ready_after none = none
ready_after (some (d, s)) = ready_key d

failed_turn_ready :
    ready_after (process_terminal failing key some_context done_turn (take_turn key one_ended) 0)
    ≡ some key
unfolding process_terminal project_once durable_fault_once claim_projection settle_projection
    claim_fault settle_fault finish_processing take_turn ready_key
failed_turn_ready = refl
