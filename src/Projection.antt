-- ===== src/Projection.antt =====
-- codex_worker/projection.py and the result views of commands.py: from the items of a turn to the
-- messages, the metrics and the response of a completion.
pub mod Completing
pub mod History
pub mod Messages
pub mod Metrics
pub mod Wire
pub mod Tests
use superdev.Base.{
  if◌then◌else◌, string_eq, ◌==◌, nat_eq, pair_eq, option_string_eq, get_or, keep, get_last?,
  contains, ◌>>=◌, ◌>>◌, map_result, Result, ok, err, Dict, lookup, insert, ℕ, ◌+◌, String, Bool,
  Option, none, some, List, [], ◌∷◌,
}
use superdev.Json.{
  get, as_text, as_object, Json, Fields, natural, negative, null, int, text, obj, done, field,
}
use superdev.Models.{ItemRecord}
use superdev.Callbacks.{WorkerView}

pub data CompletionSelection : Type 0 where
  explicit_final terminal_fallback live : CompletionSelection

pub data MetricAvailability : Type 0 where
  measured reported derived missing : MetricAvailability

pub record AgentMessageView : Type 0 where
  pub type : String
  pub item_id : String
  pub phase : Option String
  pub selection : CompletionSelection
  pub content : String

pub record TurnView : Type 0 where
  pub turn_id : String
  pub status : String
  pub error : Option Fields

pub record MetricEvidence : Type 0 where
  pub value : Json
  pub source : String
  pub availability : MetricAvailability

pub record RecoveryView : Type 0 where
  pub status : String
  pub messages : String
  pub interrupt : String
  pub raw_resume : Option String

pub record CompletionResponse : Type 0 where
  pub worker : WorkerView
  pub turn : TurnView
  pub messages : List AgentMessageView
  pub structured_output : Json
  pub metrics : Dict String MetricEvidence
  pub recovery : RecoveryView

pub record HistoryTurnView : Type 0 where
  pub turn_id : String
  pub status : String
  pub started_at : Option ℕ
  pub completed_at : Option ℕ
  pub messages : List AgentMessageView
  pub error : Option Fields

-- `phase in (None, "commentary", "final_answer")`
unfoldable pub phase_of : Json → Option (Option String)
phase_of null = some none
phase_of (text p) = if contains p ("commentary" ∷ "final_answer" ∷ []) then some (some p) else none
phase_of _ = none

unfoldable pub agent_view : ItemRecord → Result String AgentMessageView
unfolding phase_of
agent_view item = elim (as_text (get "text" item.content)) [
  | none ↦ err "malformed Codex agent message"
  | some content ↦ elim (phase_of (get "phase" item.content)) [
    | none ↦ err "malformed Codex agent message"
    | some phase ↦ ok (record {
      type = "agent_message";
      item_id = item.item_id;
      phase = phase;
      selection = live;
      content = content;
    })
  ]
]

abbrev pub is_agent : ItemRecord → Bool
is_agent item = item.type == "agentMessage"

abbrev pub is_final : AgentMessageView → Bool
is_final m = m.phase == some "final_answer"

-- `replace(item, selection=selection)` on each
abbrev pub select_all : CompletionSelection → List AgentMessageView → List AgentMessageView
select_all selection [] = []
select_all selection (m ∷ ms) = record m { selection = selection } ∷ select_all selection ms

-- `[replace(agents[-1], ...)] if agents else []`
abbrev pub fallback : List AgentMessageView → List AgentMessageView
fallback agents = elim (get_last? agents) [
  | none ↦ []
  | some m ↦ record m { selection = terminal_fallback } ∷ []
]

abbrev pub prefer_finals : List AgentMessageView → List AgentMessageView → List AgentMessageView
prefer_finals [] agents = fallback agents
prefer_finals (m ∷ ms) agents = select_all explicit_final (m ∷ ms)

unfoldable pub select_completion_messages :
    List ItemRecord → Bool → Result String (List AgentMessageView)
unfolding agent_view
select_completion_messages items terminal = do
  agents ← map_result agent_view (keep is_agent items)
  ok (if terminal then prefer_finals (keep is_final agents) agents else select_all live agents)

-- `counts[item.type] = counts.get(item.type, 0) + 1` for each item
abbrev pub count_types : List ItemRecord → Dict String ℕ → Dict String ℕ
count_types [] counts = counts
count_types (i ∷ is) counts =
    count_types is (insert i.type (get_or (lookup i.type counts) 0 + 1) counts)

abbrev pub is_command : ItemRecord → Bool
is_command item = item.type == "commandExecution"

-- `value` where `type(value) is int and value >= 0`
abbrev pub duration_of : ItemRecord → Option ℕ
duration_of item = elim (get "durationMs" item.content) [
  | int n ↦ elim n [ natural ms ↦ some ms | negative _ ↦ none ]
  | _ ↦ none
]

-- `duration_ms` and `have_duration` over the commands
abbrev pub add_durations : List ItemRecord → Option ℕ → Option ℕ
add_durations [] total = total
add_durations (i ∷ is) total = add_durations is (
    if is_command i
    then elim (duration_of i) [ none ↦ total | some ms ↦ some (get_or total 0 + ms) ]
    else total)

abbrev pub count_commands : List ItemRecord → ℕ → ℕ
count_commands [] n = n
count_commands (i ∷ is) n = count_commands is (if is_command i then n + 1 else n)

-- The first `tokenUsage` that is an object
abbrev pub first_usage : List ItemRecord → Option Fields → Option Fields
first_usage [] usage = usage
first_usage (i ∷ is) usage =
    first_usage is (elim usage [ none ↦ as_object (get "tokenUsage" i.content) | some u ↦ some u ])

abbrev pub counts_object : Dict String ℕ → Fields
counts_object [] = done
counts_object ((k, n) ∷ d) = field k (int (natural n)) (counts_object d)

unfoldable pub derive_metrics : List ItemRecord → Json → Dict String MetricEvidence
derive_metrics items duration =
    (
      "wall_duration_seconds",
      record { value = duration; source = "codex-worker"; availability = measured },
    )
    ∷ (
      "item_counts",
      record {
        value = obj (counts_object (count_types items []));
        source = "codex-worker";
        availability = derived;
      },
    )
    ∷ (
      "command_count",
      record {
        value = int (natural (count_commands items 0));
        source = "codex-worker";
        availability = derived;
      },
    )
    ∷ (
      "command_duration_ms",
      elim (add_durations items none) [
        | none ↦ record { value = null; source = "codex"; availability = missing }
        | some ms ↦ record { value = int (natural ms); source = "codex"; availability = derived }
      ],
    )
    ∷ (
      "token_usage",
      elim (first_usage items none) [
        | none ↦ record { value = null; source = "codex"; availability = missing }
        | some usage ↦ record { value = obj usage; source = "codex"; availability = reported }
      ],
    )
    ∷ []
