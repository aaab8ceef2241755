-- ===== src/Broker/Starting.antt =====
-- broker.py: the start of a turn, from the choice of its model to the answer of the app server.
use superdev.Base.{
  if◌then◌else◌, string_eq, ◌==◌, nat_eq, pair_eq, option_string_eq, is_some, get_or, keep,
  find_first, contains, add, all_distinct, ◌>>=◌, raise_if, ◌>>◌, map_result, Result, ok, err,
  String, Bool, false, not, ◌||◌, Option, none, some, List, [], ◌∷◌,
}
use superdev.Json.{get_field, get, as_text, as_list, Json, Fields, bool, arr, obj, nil}
use superdev.Models.{SessionRecord}
use superdev.Transport.{CallError}
use superdev.Runtime.{RuntimeError, RuntimeStore}
use superdev.Runtime.Starts.{reserve_start, cancel_start, reconcile_start}

-- `ModelSelectionError`, the other faults by their message, and the errors that `_from_lower` maps
pub data StartError : Type 0 where
  model_selection start_fault : String → StartError
  codex_failed : CallError → StartError
  runtime_failed : RuntimeError → StartError

pub record ModelInfo : Type 0 where
  pub id : String
  pub is_default : Bool
  pub supported_efforts : List String

-- `item.get("reasoningEffort") if isinstance(item, dict) else item`
abbrev pub effort_value : Json → Json
effort_value (obj fs) = get "reasoningEffort" fs
effort_value v = v

abbrev pub effort_of : Json → Result StartError String
effort_of item = elim (as_text (effort_value item)) [
  | none ↦ err (start_fault "Codex model efforts are malformed")
  | some e ↦ if e == "" then err (start_fault "Codex model efforts are malformed") else ok e
]

-- `_efforts`
unfoldable pub efforts : Fields → Result StartError (List String)
efforts raw =
    let value =
      get_or (get_field "supported_efforts" raw)
        (get_or (get_field "supportedReasoningEfforts" raw) (arr nil)) in
    elim (as_list value) [
      | none ↦ err (start_fault "Codex model efforts are malformed")
      | some items ↦ map_result effort_of items >>= λ es.
          raise_if (not (all_distinct es)) (start_fault "Codex model efforts are duplicated")
          >> ok es
    ]

abbrev pub as_flag : Json → Result StartError Bool
as_flag (bool b) = ok b
as_flag _ = err (start_fault "Codex model default flag is malformed")

-- One round of the loop of `_models`
unfoldable pub model_info : List String → Json → Result StartError ModelInfo
unfolding efforts
model_info seen (obj raw) = elim (as_text (get "id" raw)) [
  | none ↦ err (start_fault "Codex model list is malformed")
  | some id ↦ do
    raise_if (id == "") (start_fault "Codex model list is malformed")
    raise_if (contains id seen) (start_fault "Codex model list contains duplicate IDs")
    es ← efforts raw
    is_default ←
        as_flag
          (get_or (get_field "is_default" raw) (get_or (get_field "isDefault" raw) (bool false)))
    ok (record { id = id; is_default = is_default; supported_efforts = es })
]
model_info seen _ = err (start_fault "Codex model list is malformed")

-- The loop of `_models`
unfoldable pub models : List String → List Json → Result StartError (List ModelInfo)
unfolding model_info
models seen [] = ok []
models seen (raw ∷ raws) =
    model_info seen raw >>= λ m. models (add m.id seen) raws >>= λ ms. ok (m ∷ ms)

abbrev pub is_blank_text : Option String → Bool
is_blank_text none = false
is_blank_text (some s) = s == ""

-- The model that is selected: the one asked for, or the default when only an effort is
unfoldable pub select_model :
    List ModelInfo → Option String → Option String → Result StartError (Option ModelInfo)
select_model known_models (some model) effort =
    elim (find_first (λ m. m.id == model) known_models) [
      | none ↦ err (model_selection "model is not available from live discovery")
      | some m ↦ ok (some m)
    ]
select_model known_models none none = ok none
select_model known_models none (some effort) = elim (keep (λ m. m.is_default) known_models) [
  | [] ↦ err (model_selection "effort requires an explicit model when no default is advertised")
  | m ∷ [] ↦ ok (some m)
  | _ ∷ _ ∷ _ ↦ err (model_selection "live model list has multiple defaults")
]

abbrev pub is_unsupported : Option String → Option ModelInfo → Bool
is_unsupported (some effort) (some m) = not (contains effort m.supported_efforts)
is_unsupported _ _ = false

-- `_validate_model_effort`; the answer of `list_models` is read only after the first checks.
unfoldable pub validate_model_effort :
    Result CallError (List Json)
    → Option String
    → Option String
    → Result StartError (Option ModelInfo)
unfolding models select_model
validate_model_effort listed model effort = do
  raise_if (is_blank_text model) (model_selection "model must be a non-empty string")
  raise_if (is_blank_text effort) (model_selection "effort must be a non-empty string")
  raws ← elim listed [ err error ↦ err (codex_failed error) | ok raws ↦ ok raws ]
  known_models ← models [] raws
  selected ← select_model known_models model effort
  raise_if (is_unsupported effort selected)
      (model_selection "effort is not supported by selected live model")
  ok selected

-- The answers of the app server, to `model/list` and to `turn/start` with a model and an effort; and
-- what the other threads do to the runtime before the second.
pub record StartHost : Type 0 where
  pub list_models : Result CallError (List Json)
  pub start_turn : Option String → Option String → Result CallError String
  pub meanwhile : RuntimeStore → RuntimeStore

-- `cancel_start` in the handler, which raises again unless the cancel itself raises
unfoldable pub give_up :
    String → StartError → RuntimeStore → RuntimeStore × Result StartError String
unfolding cancel_start
give_up session_id error s = elim (cancel_start session_id s) [
  | ok s' ↦ (s', err error)
  | err e ↦ (s, err (runtime_failed e))
]

-- The inner `try` of `_start_turn_authoritatively`, with the answer of the app server
unfoldable pub answer_start :
    String → Result CallError String → RuntimeStore → RuntimeStore × Result StartError String
unfolding give_up reconcile_start
answer_start session_id (err error) s = give_up session_id (codex_failed error) s
answer_start session_id (ok turn_id) s =
    let bound = reconcile_start session_id turn_id s in
    elim bound.1 [
      | ok _ ↦ (bound.0, ok turn_id)
      | err e ↦ give_up session_id (runtime_failed e) bound.0
    ]

abbrev pub model_id : Option ModelInfo → Option String
model_id none = none
model_id (some m) = some m.id

-- `_start_turn_authoritatively` from the check of the prompt to the answer of the app server
unfoldable pub start_turn :
    StartHost
    → SessionRecord
    → String
    → Option String
    → Option String
    → RuntimeStore
    → RuntimeStore × Result StartError String
unfolding validate_model_effort reserve_start answer_start
start_turn host session prompt model effort s =
    if prompt == ""
    then (s, err (start_fault "prompt must be a non-empty string"))
    else let validated =
        validate_model_effort host.list_models
          (if is_some model || not (is_some effort) then model else session.model) effort in
      elim validated [
        | err error ↦ (s, err error)
        | ok selected ↦ elim (reserve_start session.session_id s) [
          | err e ↦ (s, err (runtime_failed e))
          | ok s' ↦
              answer_start session.session_id
                (host.start_turn (if is_some effort then model_id selected else model) effort)
                (host.meanwhile s')
        ]
      ]
