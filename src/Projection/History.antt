-- ===== src/Projection/History.antt =====
-- projection.py: the turns of the provider's history.
use mathlib.Core.List.{reverse}
use superdev.Base.{
  if◌then◌else◌, string_eq, ◌==◌, nat_eq, pair_eq, option_string_eq, contains, ◌>>=◌, raise_if,
  ◌>>◌, map_result, Result, ok, err, ℕ, String, not, ◌||◌, Option, none, some, List, [], ◌∷◌, ◌++◌,
}
use superdev.Json.{get_field, get, without, as_text, as_list, Json, Fields, natural, null, int, obj}
use superdev.Models.{ItemRecord}
use superdev.Projection.{select_completion_messages, HistoryTurnView}

-- The items of a turn of the history
unfoldable pub history_item : Json → Result String ItemRecord
history_item (obj fs) = elim (as_text (get "id" fs)) [
  | none ↦ err "malformed Codex history item"
  | some id ↦ elim (as_text (get "type" fs)) [
    | none ↦ err "malformed Codex history item"
    | some type ↦
        if id == "" || type == ""
        then err "malformed Codex history item"
        else ok (record { item_id = id; type = type; content = without ("id" ∷ "type" ∷ []) fs })
  ]
]
history_item _ = err "malformed Codex history item"

-- `startedAt` and `completedAt`: absent, null, or an int that is not negative
abbrev pub timestamp_of : Json → Result String (Option ℕ)
timestamp_of null = ok none
timestamp_of (int (natural n)) = ok (some n)
timestamp_of _ = err "malformed Codex history timestamp"

abbrev pub history_error : Json → Result String (Option Fields)
history_error null = ok none
history_error (obj fs) = ok (some fs)
history_error _ = err "malformed Codex history error"

-- `turn.get("items", [])`
abbrev pub history_items : Option Json → Result String (List Json)
history_items none = ok []
history_items (some v) = elim (as_list v) [
  | none ↦ err "malformed Codex history items"
  | some vs ↦ ok vs
]

abbrev pub history_status : String → String
history_status status = if status == "inProgress" then "in_progress" else status

unfoldable pub project_history_turn : Json → Result String HistoryTurnView
unfolding history_item select_completion_messages
project_history_turn (obj turn) = elim (as_text (get "id" turn)) [
  | none ↦ err "malformed Codex history turn"
  | some id ↦ elim (as_text (get "status" turn)) [
    | none ↦ err "malformed Codex history turn"
    | some status ↦ do
      raise_if (not (contains status ("inProgress" ∷ "completed" ∷ "failed" ∷ "interrupted" ∷ [])))
          "malformed Codex history turn"
      items ← history_items (get_field "items" turn)
      records ← map_result history_item items
      started_at ← timestamp_of (get "startedAt" turn)
      completed_at ← timestamp_of (get "completedAt" turn)
      error ← history_error (get "error" turn)
      messages ← select_completion_messages records (not (status == "inProgress"))
      ok (record {
        turn_id = id;
        status = history_status status;
        started_at = started_at;
        completed_at = completed_at;
        messages = messages;
        error = error;
      })
  ]
]
project_history_turn _ = err "malformed Codex history turn"

abbrev pub flatten {ℓ} : {A : Type ℓ} → List (List A) → List A
flatten [] = []
flatten (page ∷ pages) = page ++ flatten pages

-- The pages come newest first, and so do the turns of a page.
unfoldable pub chronological_history_pages {ℓ} : {A : Type ℓ} → List (List A) → List A
chronological_history_pages pages = reverse (flatten pages)
