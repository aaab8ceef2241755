-- ===== src/Dispatcher/Events.antt =====
-- callback_dispatcher.py: the events of terminal turns, how they reach the callback store, and the
-- attempts to send them.
use Prim.Native.String.{◌++◌ as concat_text}
use superdev.Base.{
  if◌then◌else◌, string_eq, ◌==◌, nat_eq, pair_eq, option_string_eq, get_or, contains, ◌>>=◌,
  raise_if, ◌>>◌, Result, ok, err, lookup, ℕ, ◌+◌, String, Bool, true, false, not, Option, none,
  some, List, [], ◌∷◌,
}
use superdev.Json.{Fields, natural, int, text, obj, done, field}
use superdev.Models.{TurnSnapshot}
use superdev.Callbacks.{
  same_state, callback_event, CallbackEvent, CallbackBinding, CallbackOutboxEntry, enabled,
}
use superdev.Callbacks.Store.{
  enqueue_terminal, record_failed, record_written, record_terminal_fault, CallbackStore,
}
use superdev.Projection.{CompletionResponse}
use superdev.Projection.Wire.{completion_to_dict}
use superdev.Dispatcher.{is_terminal, Failure, TerminalProjectionContext}
use superdev.Dispatcher.Processing.{reason_of, TurnServices}

-- `CallbackArtifact`
pub record CallbackArtifact : Type 0 where
  pub event_id : String
  pub path : String
  pub sha256 : String
  pub size_bytes : ℕ

-- What lies outside: SHA-256 in hexadecimal over texts joined by NUL, the transport's
-- `encode_user_line` and `send`, and the artifact directory. What `now()` reads at a call is an
-- argument of it.
pub record CallbackPort : Type 0 where
  pub digest : List String → String
  pub encode_user_line : CallbackBinding → CallbackEvent → Option Failure
  pub publish_artifact : String → CompletionResponse → Result Failure CallbackArtifact
  pub send : Option CallbackBinding → CallbackEvent → Result Failure (Option String)

abbrev pub raises {ℓ} : {A : Type ℓ} → String → Result String A → Result Failure A
raises type_name (ok a) = ok a
raises type_name (err why) = err (record { type_name = type_name; kind = none })

abbrev pub check : Option Failure → Result Failure (Unit {0})
check none = ok tt
check (some f) = err f

unfoldable pub terminal_event_id : (List String → String) → String → String → String → String
terminal_event_id digest session_id turn_id event_kind =
    concat_text "terminal-" (digest (session_id ∷ turn_id ∷ event_kind ∷ []))

abbrev pub artifact_object : CallbackArtifact → Fields
artifact_object a =
    field "path" (text a.path)
      (field "sha256" (text a.sha256) (field "size_bytes" (int (natural a.size_bytes)) done))

-- The payload of `build_terminal_event`
abbrev pub terminal_payload :
    CompletionResponse → String → Option CallbackArtifact → Result String Fields
terminal_payload completion event_kind artifact =
    if event_kind == "turn_terminal"
    then ok (field "completion" (obj (completion_to_dict completion)) done)
    else elim artifact [
      | none ↦ err "terminal reference requires an artifact descriptor"
      | some a ↦ ok (
          field "artifact" (obj (artifact_object a))
            (field "turn_id" (text completion.turn.turn_id) done))
    ]

unfoldable pub build_terminal_event :
    (List String → String)
    → CompletionResponse
    → String
    → String
    → Option CallbackArtifact
    → Result String CallbackEvent
unfolding callback_event
build_terminal_event digest completion emitted_at event_kind artifact = do
  raise_if (not (is_terminal completion.turn.status)) "callback requires a terminal completion"
  raise_if (not (contains event_kind ("turn_terminal" ∷ "turn_terminal_reference" ∷ [])))
      "unsupported terminal callback kind"
  payload ← terminal_payload completion event_kind artifact
  callback_event "codex-worker.claude-callback/v1" event_kind
      (terminal_event_id digest completion.worker.session_id completion.turn.turn_id event_kind)
      emitted_at "next" completion.worker payload

-- `exc.code == FacadeFaultCode.CALLBACK_PAYLOAD_TOO_LARGE`: the kind of a fault is that of its code
abbrev pub is_too_large : Failure → Bool
is_too_large f = f.kind == some "callback_payload_too_large"

-- The event to queue: the completion, or a reference to its artifact where the line is too long
unfoldable pub sendable_event :
    CallbackPort → String → CallbackBinding → CompletionResponse → Result Failure CallbackEvent
unfolding build_terminal_event terminal_event_id
sendable_event port emitted_at binding completion = do
  event ←
      raises "ValueError"
        (build_terminal_event port.digest completion emitted_at "turn_terminal" none)
  elim (port.encode_user_line binding event) [
    | none ↦ ok event
    | some f ↦ if not (is_too_large f) then err f else (do
      artifact ←
          port.publish_artifact
            (terminal_event_id port.digest completion.worker.session_id completion.turn.turn_id
              "turn_terminal_reference")
            completion
      reference ← raises "ValueError" (
          build_terminal_event port.digest completion emitted_at "turn_terminal_reference"
            (some artifact))
      check (port.encode_user_line binding reference)
      ok reference)
  ]

abbrev pub is_enabled : CallbackBinding → Bool
is_enabled b = same_state b.state enabled

-- `_persist_completion`; the worker is that of the context
unfoldable pub persist_completion :
    CallbackPort
    → String
    → String
    → CompletionResponse
    → CallbackStore
    → Result Failure CallbackStore
unfolding sendable_event enqueue_terminal
persist_completion port emitted_at session_id completion s = elim (lookup session_id s.bindings) [
  | none ↦ ok s
  | some binding ↦
      if not (is_enabled binding)
      then ok s
      else sendable_event port emitted_at binding completion >>= λ event.
          raises "ValueError" (enqueue_terminal session_id event s) >>= λ (s', entry). ok s'
]

-- `_attempt`: a failure of the store's own writes is passed over
unfoldable pub attempt : CallbackPort → String → CallbackOutboxEntry → CallbackStore → CallbackStore
unfolding record_failed record_written
attempt port now entry s = elim entry.event [
  | none ↦ s
  | some event ↦ elim (port.send (lookup entry.session_id s.bindings) event) [
    | err f ↦ elim (record_failed entry.event_id (reason_of f) now s) [
      | ok (s', _) ↦ s'
      | err _ ↦ s
    ]
    | ok attempted_at ↦ elim (record_written entry.event_id (get_or attempted_at now) s) [
      | ok (s', _) ↦ s'
      | err _ ↦ s
    ]
  ]
]

-- The round of `_run` over the entries of `store.pending()`; the clock is read once for an entry.
abbrev pub attempt_all :
    CallbackPort → (ℕ → String) → ℕ → List CallbackOutboxEntry → CallbackStore → CallbackStore
attempt_all port clock readings [] s = s
attempt_all port clock readings (e ∷ es) s =
    attempt_all port clock (readings + 1) es (attempt port (clock readings) e s)

-- The services of the dispatcher over the callback store and the number of the wall clock's readings.
abbrev pub store_services :
    CallbackPort
    → (ℕ → String)
    → ℕ
    → (TerminalProjectionContext → TurnSnapshot → ℕ → Result Failure CompletionResponse)
    → TurnServices (CallbackStore × ℕ)
store_services port clock now project = record {
  now = now;
  project = project;
  persist = λ context completion (s, readings).
      elim (persist_completion port (clock readings) context.worker.session_id completion s) [
        | ok s' ↦ ((s', readings + 1), none)
        | err f ↦ ((s, readings + 1), some f)
      ];
  record_fault = λ key reason (s, readings).
      elim (record_terminal_fault key.0 (terminal_event_id port.digest key.0 key.1 "turn_terminal")
        reason (clock readings) (some key.1) s) [
          | ok (s', _) ↦ ((s', readings + 1), true)
          | err _ ↦ ((s, readings + 1), false)
        ];
}
