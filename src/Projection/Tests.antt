-- ===== src/Projection/Tests.antt =====
-- projection.py on concrete turns.
use superdev.Base.{
  if◌then◌else◌, string_eq, ◌==◌, nat_eq, pair_eq, option_string_eq, length, keep, ok, err, lookup,
  ℕ, String, ◌≡◌, refl, true, Option, none, some, [], ◌∷◌,
}
use superdev.Json.{get_field, Json, Fields, natural, null, int, text, obj, done, field}
use superdev.Models.{ItemRecord, TurnSnapshot}
use superdev.Callbacks.{WorkerView}
use superdev.Projection.{
  select_completion_messages, derive_metrics, CompletionResponse, explicit_final, terminal_fallback,
  derived,
}
use superdev.Projection.Completing.{default_recovery, project_completion, incomplete}
use superdev.Projection.History.{project_history_turn, chronological_history_pages}
use superdev.Projection.Metrics.{has_type, derive_metrics-counts}
use superdev.Projection.Messages.{Completes, project_completion-returns}

abbrev pub some_worker : WorkerView
some_worker = record {
  name = "w";
  session_id = "s1";
  thread_id = "t1";
  cwd = "/work";
  tier = none;
  model = "m";
  effort = "high";
  access = "full";
  attach = none;
  config = none;
}

abbrev command_item : ItemRecord
command_item = record {
  item_id = "i1";
  type = "commandExecution";
  content = field "durationMs" (int (natural 40)) done;
}

abbrev final_item : ItemRecord
final_item = record {
  item_id = "i2";
  type = "agentMessage";
  content = field "text" (text "{}") (field "phase" (text "final_answer") done);
}

abbrev remark_item : ItemRecord
remark_item = record {
  item_id = "i3";
  type = "agentMessage";
  content = field "text" (text "so far") (field "phase" (text "commentary") done);
}

abbrev pub done_turn : TurnSnapshot
done_turn = record {
  turn_id = "u1";
  status = "completed";
  error = none;
  items = command_item ∷ remark_item ∷ final_item ∷ [];
}

abbrev loads_empty : String → Option Json
loads_empty s = if s == "{}" then some (obj done) else none

abbrev pub done_completion : CompletionResponse
done_completion = record {
  worker = some_worker;
  turn = record { turn_id = "u1"; status = "completed"; error = none };
  messages =
      record {
        type = "agent_message";
        item_id = "i2";
        phase = some "final_answer";
        selection = explicit_final;
        content = "{}";
      }
      ∷ [];
  structured_output = obj done;
  metrics = derive_metrics done_turn.items null;
  recovery = default_recovery;
}

done_turn_projected :
    project_completion loads_empty some_worker done_turn (some done) null none ≡ ok done_completion
unfolding project_completion
done_turn_projected = refl

project_completion-returns_example : Completes loads_empty done_turn (some done) done_completion
project_completion-returns_example =
    project_completion-returns loads_empty some_worker done_turn (some done) null none
      done_turn_projected

derive_metrics-counts_example :
    ((counts : Fields) × (lookup "item_counts" (derive_metrics done_turn.items null)
        ≡ some (record { value = obj counts; source = "codex-worker"; availability = derived }))
      × ((type : String)
          → get_field type counts ≡ (
              if length (keep (has_type type) done_turn.items) == 0
              then none
              else some (int (natural (length (keep (has_type type) done_turn.items)))))))
    × (lookup "command_count" (derive_metrics done_turn.items null)
        ≡ some (record {
          value = int (natural (length (keep (has_type "commandExecution") done_turn.items)));
          source = "codex-worker";
          availability = derived;
        }))
derive_metrics-counts_example = derive_metrics-counts done_turn.items null

-- Without a final answer the last message stands in for it.
remark_selected :
    select_completion_messages (remark_item ∷ command_item ∷ []) true
    ≡ ok (
        record {
          type = "agent_message";
          item_id = "i3";
          phase = some "commentary";
          selection = terminal_fallback;
          content = "so far";
        }
        ∷ [])
unfolding select_completion_messages
remark_selected = refl

silent_turn_incomplete :
    project_completion loads_empty some_worker
      (record { turn_id = "u1"; status = "completed"; error = none; items = command_item ∷ [] })
      none
      null
      none
    ≡ err (incomplete "u1" [] "no_agent_message")
unfolding project_completion
silent_turn_incomplete = refl

history_read :
    project_history_turn (
      obj (
        field "id"
          (text "u1")
          (field "status" (text "inProgress") (field "startedAt" (int (natural 3)) done))))
    ≡ ok (record {
      turn_id = "u1";
      status = "in_progress";
      started_at = some 3;
      completed_at = none;
      messages = [];
      error = none;
    })
unfolding project_history_turn
history_read = refl

pages_in_order :
    chronological_history_pages {A = ℕ} ((4 ∷ 3 ∷ []) ∷ (2 ∷ 1 ∷ []) ∷ []) ≡ (1 ∷ 2 ∷ 3 ∷ 4 ∷ [])
unfolding chronological_history_pages
pages_in_order = refl
