-- ===== src/Callbacks.antt =====
-- codex_worker/callback_store.py, callback_domain.py and the callback views of commands.py: the
-- callback bindings and the outbox of terminal events. This file has the values and what their
-- constructors check; a constructor that raises `ValueError` returns its message.
pub mod Checks
pub mod Store
mod Tests
use package.text.Mathlib.Text.{starts_with}
use superdev.Base.{
  leb, if◌then◌else◌, ◌==◌, nat_eq, string_eq, pair_eq, option_string_eq, is_some, length, any, all,
  contains, ◌>>◌, raise_if, Result, ok, ℕ, String, Bool, true, false, not, ◌&&◌, ◌||◌, Option, none,
  some, List, [], ◌∷◌,
}
use superdev.Json.{get, Json, Items, Fields, null, float, text, arr, obj, nil, cons, done, field}
use superdev.Models.Recovery.{codes}
use superdev.Models.Config.{is_finite}

pub data CallbackState : Type 0 where
  enabled disabled unavailable : CallbackState

abbrev pub same_state : CallbackState → CallbackState → Bool
same_state enabled enabled = true
same_state disabled disabled = true
same_state unavailable unavailable = true
same_state _ _ = false

pub data CallbackAttemptState : Type 0 where
  attempt_pending attempt_written attempt_failed : CallbackAttemptState

abbrev pub same_attempt_state : CallbackAttemptState → CallbackAttemptState → Bool
same_attempt_state attempt_pending attempt_pending = true
same_attempt_state attempt_written attempt_written = true
same_attempt_state attempt_failed attempt_failed = true
same_attempt_state _ _ = false

pub record CallbackAttemptView : Type 0 where
  pub event_id : String
  pub state : CallbackAttemptState
  pub reason : Option String
  pub attempted_at : Option String
  pub attempt_count : ℕ
  pub turn_id : Option String

-- The checks of `CallbackAttemptView` in `_check_contract`.
unfoldable pub callback_attempt_view :
    String
    → CallbackAttemptState
    → Option String
    → Option String
    → ℕ
    → Option String
    → Result String CallbackAttemptView
callback_attempt_view event_id state reason attempted_at attempt_count turn_id = do
  raise_if (event_id == "") "event_id must be a non-empty string"
  raise_if (reason == some "") "reason must be a non-empty string"
  raise_if (attempted_at == some "") "attempted_at must be a non-empty string"
  ok (record {
    event_id = event_id;
    state = state;
    reason = reason;
    attempted_at = attempted_at;
    attempt_count = attempt_count;
    turn_id = turn_id;
  })

pub record CallbackStatusView : Type 0 where
  pub state : CallbackState
  pub pending_terminal_count : ℕ
  pub last_terminal_attempt : Option CallbackAttemptView

pub record WorkerView : Type 0 where
  pub name : String
  pub session_id : String
  pub thread_id : String
  pub cwd : String
  pub tier : Option String
  pub model : String
  pub effort : String
  pub access : String
  pub attach : Option Fields
  pub config : Option Fields

-- `json.dumps(value, allow_nan=False)` returns
unfoldable mutual
  pub is_strict_json : Json → Bool
  is_strict_json (float bits) = is_finite bits
  is_strict_json (arr vs) = are_strict_items vs
  is_strict_json (obj fs) = are_strict_fields fs
  is_strict_json _ = true

  pub are_strict_items : Items → Bool
  are_strict_items nil = true
  are_strict_items (cons v vs) = is_strict_json v && are_strict_items vs

  pub are_strict_fields : Fields → Bool
  are_strict_fields done = true
  are_strict_fields (field k v fs) = is_strict_json v && are_strict_fields fs

pub record CallbackEvent : Type 0 where
  pub schema : String
  pub event : String
  pub event_id : String
  pub emitted_at : String
  pub priority : String
  pub worker : WorkerView
  pub payload : Fields

-- `CallbackEvent.__post_init__`
unfoldable pub callback_event :
    String → String → String → String → String → WorkerView → Fields → Result String CallbackEvent
unfolding is_strict_json
callback_event schema event event_id emitted_at priority worker payload = do
  raise_if (not (schema == "codex-worker.claude-callback/v1")) "unsupported callback schema"
  raise_if
      (not (contains event ("turn_terminal" ∷ "turn_terminal_reference" ∷ "worker_message" ∷ [])))
      "unsupported callback event"
  raise_if (event_id == "") "event_id must be a non-empty string"
  raise_if (emitted_at == "") "emitted_at must be a non-empty string"
  raise_if (not (contains priority ("now" ∷ "next" ∷ "later" ∷ []))) "unsupported callback priority"
  raise_if (not (are_strict_fields payload)) "payload must be JSON-compatible"
  ok (record {
    schema = schema;
    event = event;
    event_id = event_id;
    emitted_at = emitted_at;
    priority = priority;
    worker = worker;
    payload = payload;
  })

-- `value if isinstance(value, str) and value else None`
abbrev pub nonempty_or_none : Json → Option String
nonempty_or_none (text s) = if s == "" then none else some s
nonempty_or_none _ = none

-- `value.get(key) if isinstance(value, dict) else None`
abbrev pub get_in : String → Json → Json
get_in k (obj fs) = get k fs
get_in k _ = null

-- `_terminal_turn_id`
unfoldable pub terminal_turn_id : Option CallbackEvent → Option String
terminal_turn_id none = none
terminal_turn_id (some e) =
    if e.event == "turn_terminal_reference"
    then nonempty_or_none (get "turn_id" e.payload)
    else if e.event == "turn_terminal"
    then nonempty_or_none (get_in "turn_id" (get_in "turn" (get "completion" e.payload)))
    else none

pub record CallbackBinding : Type 0 where
  pub session_id : String
  pub state : CallbackState
  pub target_socket : Option String
  pub child_token : Option String
  pub claude_session_id : Option String
  pub claude_pid : Option ℕ
  pub claude_proc_start : Option String
  pub claude_config_dir : Option String
  pub captured_at : String
  pub last_terminal_attempt : Option CallbackAttemptView

-- `Path(path).is_absolute()`
abbrev pub is_absolute : String → Bool
is_absolute path = starts_with path "/"

-- `char in "0123456789abcdef"`, and the length
abbrev pub is_child_token : String → Bool
is_child_token s =
    length (codes s) == 32 && all (λ c. leb 48 c && leb c 57 || leb 97 c && leb c 102) (codes s)

-- `path is not None and not Path(path).is_absolute()`
abbrev pub is_relative : Option String → Bool
is_relative none = false
is_relative (some path) = not (is_absolute path)

abbrev pub is_bad_token : Option String → Bool
is_bad_token none = false
is_bad_token (some s) = not (is_child_token s)

abbrev pub is_zero : Option ℕ → Bool
is_zero none = false
is_zero (some n) = n == 0

-- Which parts of the route are there, in the order of `route`.
abbrev pub route_parts : CallbackBinding → List Bool
route_parts b =
    is_some b.target_socket
    ∷ is_some b.child_token
    ∷ is_some b.claude_session_id
    ∷ is_some b.claude_pid
    ∷ is_some b.claude_proc_start
    ∷ []

-- The route that a state allows.
abbrev pub check_route : CallbackBinding → Result String (Unit {0})
check_route b = elim b.state [
  | enabled ↦
      raise_if (any not (route_parts b) || not (is_some b.claude_config_dir))
        "enabled callback binding requires a complete capture"
  | disabled ↦
      raise_if (any (λ p. p) (route_parts b)) "non-enabled callback binding cannot retain a route"
      >> raise_if (is_some b.claude_config_dir)
          "disabled callback binding cannot retain a resolver root"
  | unavailable ↦
      raise_if (any (λ p. p) (route_parts b)) "non-enabled callback binding cannot retain a route"
]

-- `CallbackBinding.__post_init__`; a process id is a natural number here.
unfoldable pub callback_binding : CallbackBinding → Result String CallbackBinding
callback_binding b = do
  raise_if (b.session_id == "") "session_id must be a non-empty string"
  raise_if (b.captured_at == "") "captured_at must be a non-empty string"
  check_route b
  raise_if (is_relative b.claude_config_dir) "claude_config_dir must be absolute when present"
  raise_if (is_relative b.target_socket) "target_socket must be absolute"
  raise_if (is_bad_token b.child_token) "child_token must be lowercase hexadecimal"
  raise_if (is_zero b.claude_pid) "claude_pid must be positive"
  ok b

pub data CallbackOutboxState : Type 0 where
  pending_entry written_entry : CallbackOutboxState

abbrev pub is_pending : CallbackOutboxState → Bool
is_pending pending_entry = true
is_pending written_entry = false

pub record CallbackOutboxEntry : Type 0 where
  pub event_id : String
  pub session_id : String
  pub event : Option CallbackEvent
  pub state : CallbackOutboxState
  pub attempt_count : ℕ
  pub last_error : Option String

abbrev pub is_foreign : CallbackOutboxEntry → Bool
is_foreign e = elim e.event [
  | none ↦ false
  | some event ↦ not (event.event_id == e.event_id) || not (event.worker.session_id == e.session_id)
]

-- `CallbackOutboxEntry.__post_init__`
unfoldable pub callback_outbox_entry : CallbackOutboxEntry → Result String CallbackOutboxEntry
callback_outbox_entry e = do
  raise_if (e.event_id == "") "event_id must be a non-empty string"
  raise_if (e.session_id == "") "session_id must be a non-empty string"
  raise_if (is_pending e.state && not (is_some e.event)) "pending callback entry requires its event"
  raise_if (is_foreign e) "callback event identity does not match outbox entry"
  ok e
