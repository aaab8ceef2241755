-- ===== src/Projection/Wire.antt =====
-- `to_dict` of the result views of commands.py, by `_dump` on each field.
use superdev.Base.{string_eq, nat_eq, pair_eq, option_string_eq, Dict, String, List, [], ◌∷◌}
use superdev.Json.{Items, Fields, text, arr, obj, nil, cons, done, field}
use superdev.Models.{optional_text, optional_object}
use superdev.Callbacks.{WorkerView}
use superdev.Projection.{
  CompletionSelection, MetricAvailability, AgentMessageView, TurnView, MetricEvidence, RecoveryView,
  CompletionResponse, explicit_final, terminal_fallback, live, measured, reported, derived, missing,
}

abbrev pub selection_text : CompletionSelection → String
selection_text explicit_final = "explicit_final"
selection_text terminal_fallback = "terminal_fallback"
selection_text live = "live"

abbrev pub availability_text : MetricAvailability → String
availability_text measured = "measured"
availability_text reported = "reported"
availability_text derived = "derived"
availability_text missing = "unavailable"

unfoldable pub worker_to_dict : WorkerView → Fields
worker_to_dict w = field "name" (text w.name) (
    field "session_id" (text w.session_id) (
      field "thread_id" (text w.thread_id) (
        field "cwd" (text w.cwd) (
          field "tier" (optional_text w.tier) (
            field "model" (text w.model) (
              field "effort" (text w.effort) (
                field "access" (text w.access) (
                  field "attach" (optional_object w.attach)
                    (field "config" (optional_object w.config) done)))))))))

unfoldable pub turn_view_to_dict : TurnView → Fields
turn_view_to_dict t =
    field "turn_id" (text t.turn_id)
      (field "status" (text t.status) (field "error" (optional_object t.error) done))

unfoldable pub message_to_dict : AgentMessageView → Fields
message_to_dict m = field "type" (text m.type) (
    field "item_id" (text m.item_id) (
      field "phase" (optional_text m.phase) (
        field "selection" (text (selection_text m.selection))
          (field "text" (text m.content) done))))

unfoldable pub metric_to_dict : MetricEvidence → Fields
metric_to_dict m = field "value" m.value (
    field "source" (text m.source)
      (field "availability" (text (availability_text m.availability)) done))

unfoldable pub recovery_to_dict : RecoveryView → Fields
recovery_to_dict r = field "status" (text r.status) (
    field "messages" (text r.messages)
      (field "interrupt" (text r.interrupt) (field "raw_resume" (optional_text r.raw_resume) done)))

abbrev pub messages_array : List AgentMessageView → Items
messages_array [] = nil
messages_array (m ∷ ms) = cons (obj (message_to_dict m)) (messages_array ms)

abbrev pub metrics_object : Dict String MetricEvidence → Fields
metrics_object [] = done
metrics_object ((k, m) ∷ d) = field k (obj (metric_to_dict m)) (metrics_object d)

unfoldable pub completion_to_dict : CompletionResponse → Fields
unfolding worker_to_dict turn_view_to_dict message_to_dict metric_to_dict recovery_to_dict
completion_to_dict c = field "worker" (obj (worker_to_dict c.worker)) (
    field "turn" (obj (turn_view_to_dict c.turn)) (
      field "messages" (arr (messages_array c.messages)) (
        field "structured_output" c.structured_output (
          field "metrics" (obj (metrics_object c.metrics))
            (field "recovery" (obj (recovery_to_dict c.recovery)) done)))))
