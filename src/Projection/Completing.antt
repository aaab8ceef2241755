-- ===== src/Projection/Completing.antt =====
-- projection.py: `project_completion`.
use superdev.Base.{
  if◌then◌else◌, string_eq, ◌==◌, nat_eq, pair_eq, option_string_eq, get_or, get_last?, contains,
  ◌>>=◌, raise_if, ◌>>◌, Result, ok, err, String, Bool, true, false, not, ◌&&◌, Option, none, some,
  List, [], ◌∷◌,
}
use superdev.Json.{Json, Fields, null}
use superdev.Models.{error_to_dict, TurnSnapshot}
use superdev.Callbacks.{WorkerView}
use superdev.Projection.{
  select_completion_messages, derive_metrics, AgentMessageView, TurnView, RecoveryView,
  CompletionResponse,
}

-- The faults of `_incomplete`, and the `ValueError` of a constructor.
pub data ProjectionError : Type 0 where
  incomplete : String → List AgentMessageView → String → ProjectionError
  malformed : String → ProjectionError

abbrev pub reading {ℓ} : {A : Type ℓ} → Result String A → Result ProjectionError A
reading (ok a) = ok a
reading (err why) = err (malformed why)

-- `TurnView`: the literal check of its status
unfoldable pub turn_view : String → String → Option Fields → Result String TurnView
turn_view turn_id status error =
    if contains status ("in_progress" ∷ "completed" ∷ "failed" ∷ "interrupted" ∷ [])
    then ok (record { turn_id = turn_id; status = status; error = error })
    else err "invalid status"

-- `json.loads(messages[-1].text)`, where there must be a message
abbrev pub structured :
    (String → Option Json) → String → List AgentMessageView → Result ProjectionError Json
structured loads turn_id messages = elim (get_last? messages) [
  | none ↦ err (incomplete turn_id messages "no_agent_message")
  | some m ↦ elim (loads m.content) [
    | none ↦ err (incomplete turn_id messages "invalid_json")
    | some v ↦ ok v
  ]
]

abbrev pub is_empty_list {ℓ} : {A : Type ℓ} → List A → Bool
is_empty_list [] = true
is_empty_list (a ∷ as') = false

abbrev pub default_recovery : RecoveryView
default_recovery = record {
  status = "status";
  messages = "messages";
  interrupt = "interrupt";
  raw_resume = none;
}

-- `json.loads` is the parameter `loads`: `none` stands for its `ValueError`.
unfoldable pub project_completion :
    (String → Option Json)
    → WorkerView
    → TurnSnapshot
    → Option Fields
    → Json
    → Option RecoveryView
    → Result ProjectionError CompletionResponse
unfolding select_completion_messages turn_view derive_metrics error_to_dict
project_completion loads worker turn schema duration recovery = do
  messages ← reading (select_completion_messages turn.items (not (turn.status == "in_progress")))
  raise_if (turn.status == "completed" && is_empty_list messages)
      (incomplete turn.turn_id messages "no_agent_message")
  structured_output ← elim schema [
    | none ↦ ok null
    | some s ↦ structured loads turn.turn_id messages
  ]
  view ← reading (
      turn_view turn.turn_id turn.status
        (elim turn.error [ none ↦ none | some e ↦ some (error_to_dict e) ]))
  ok (record {
    worker = worker;
    turn = view;
    messages = messages;
    structured_output = structured_output;
    metrics = derive_metrics turn.items duration;
    recovery = get_or recovery default_recovery;
  })
