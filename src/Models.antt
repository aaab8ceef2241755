-- ===== src/Models.antt =====
-- codex_worker/models.py: the wire and domain values that the other parts share. A constructor
-- that validates returns a `Result` with the message of its `ValueError`.
pub mod Config
pub mod Maintenance
pub mod Recovery
pub mod Wire
mod Tests
use superdev.Base.{
  if◌then◌else◌, Result, ok, err, ◌>>=◌, ◌>>◌, map_result, all, ℕ, String, Bool, true, false, not,
  Option, none, some, List,
}
use superdev.Json.{
  Json, null, text, obj, Fields, done, field, get_field, get, as_text, as_object, as_list,
}
use Recovery.{is_recovery_command}

pub record ErrorDetail : Type 0 where
  pub kind : String
  pub recovery : Option String
  pub details : Option Fields

-- `isinstance(action, str)` and the command check, for every action
abbrev are_actions : List Json → Bool
are_actions vs = all (λ v. elim v [ text s ↦ is_recovery_command s | _ ↦ false ]) vs

-- A `details` object with `next_actions` must list literal public commands.
abbrev pub are_details : Option Fields → Bool
are_details none = true
are_details (some fs) = elim (get_field "next_actions" fs) [
  | none ↦ true
  | some v ↦ elim (as_list v) [ none ↦ false | some vs ↦ are_actions vs ]
]

abbrev is_optional_command : Option String → Bool
is_optional_command none = true
is_optional_command (some command) = is_recovery_command command

-- `ErrorDetail.__post_init__`
unfoldable pub error_detail : String → Option String → Option Fields → Result String ErrorDetail
error_detail kind recovery details =
    if not (is_optional_command recovery)
    then err "recovery action must be a literal public command"
    else if not (are_details details)
    then err "next_actions must contain literal public commands"
    else ok (record { kind = kind; recovery = recovery; details = details })

abbrev pub optional_text : Option String → Json
optional_text none = null
optional_text (some s) = text s

abbrev pub optional_object : Option Fields → Json
optional_object none = null
optional_object (some fs) = obj fs

-- `ErrorDetail.to_dict`: absent parts are left out
unfoldable pub error_to_dict : ErrorDetail → Fields
error_to_dict e =
    let details : Fields = elim e.details [
      | none ↦ done
      | some fs ↦ field "details" (obj fs) done
    ] in
    field "kind" (text e.kind)
      (elim e.recovery [ none ↦ details | some r ↦ field "recovery" (text r) details ])

-- `None` or a value of the right type
abbrev pub text_or_none : Json → Option (Option String)
text_or_none null = some none
text_or_none (text s) = some (some s)
text_or_none _ = none

abbrev pub object_or_none : Json → Option (Option Fields)
object_or_none null = some none
object_or_none (obj fs) = some (some fs)
object_or_none _ = none

-- `ErrorDetail.from_dict`
unfoldable pub error_from_dict : Json → Result String ErrorDetail
unfolding error_detail
error_from_dict (obj fs) = elim (as_text (get "kind" fs)) [
  | none ↦ err "invalid error detail"
  | some kind ↦ elim (text_or_none (get "recovery" fs)) [
    | none ↦ err "invalid error recovery"
    | some recovery ↦ elim (object_or_none (get "details" fs)) [
      | none ↦ err "invalid error details"
      | some details ↦ error_detail kind recovery details
    ]
  ]
]
error_from_dict _ = err "invalid error detail"

-- `data` is `content`: the word is reserved here.
pub record ItemRecord : Type 0 where
  pub item_id : String
  pub type : String
  pub content : Fields

unfoldable pub item_to_dict : ItemRecord → Fields
item_to_dict item =
    field "item_id" (text item.item_id)
      (field "type" (text item.type) (field "data" (obj item.content) done))

unfoldable pub item_from_dict : Json → Result String ItemRecord
item_from_dict (obj fs) = elim (as_text (get "item_id" fs)) [
  | none ↦ err "invalid item record"
  | some item_id ↦ elim (as_text (get "type" fs)) [
    | none ↦ err "invalid item record"
    | some type ↦ elim (as_object (get "data" fs)) [
      | none ↦ err "invalid item record"
      | some content ↦ ok (record { item_id = item_id; type = type; content = content })
    ]
  ]
]
item_from_dict _ = err "invalid item record"

pub record TurnSnapshot : Type 0 where
  pub turn_id : String
  pub status : String
  pub error : Option ErrorDetail
  pub items : List ItemRecord

-- `copy_turn_snapshot`: a value in this model has no identity to share, so what is left of the
-- deep copy is the trip through the dictionaries, which validates the error again.
unfoldable pub copy_turn_snapshot : TurnSnapshot → Result String TurnSnapshot
unfolding error_to_dict error_from_dict item_to_dict item_from_dict
copy_turn_snapshot t = do
  error ← elim t.error [
    | none ↦ ok none
    | some e ↦ error_from_dict (obj (error_to_dict e)) >>= λ c. ok (some c)
  ]
  items ← map_result (λ i. item_from_dict (obj (item_to_dict i))) t.items
  ok (record { turn_id = t.turn_id; status = t.status; error = error; items = items })

pub record EventRecord : Type 0 where
  pub cursor : ℕ
  pub event : String
  pub session_id : String
  pub thread_id : String
  pub turn_id : Option String
  pub item : Option ItemRecord
  pub error : Option ErrorDetail

pub record EventPage : Type 0 where
  pub events : List EventRecord
  pub next_cursor : ℕ
  pub truncated : Bool

pub record RuntimeStatus : Type 0 where
  pub attached : Bool
  pub active_turn_id : Option String
  pub latest_turn : Option TurnSnapshot

pub record SessionRecord : Type 0 where
  pub session_id : String
  pub thread_id : String
  pub cwd : String
  pub created_at : String
  pub updated_at : String
  pub name : Option String
  pub model : Option String
  pub effort : Option String
  pub tier : Option String
  pub access : Option String
  pub config : Option Fields

-- `exactly one of session_id or thread_id`
pub data IdentifierSelector : Type 0 where
  session_selector thread_selector : String → IdentifierSelector

-- `IdentifierSelector.__post_init__`
pub identifier_selector : Option String → Option String → Result String IdentifierSelector
identifier_selector (some s) none = ok (session_selector s)
identifier_selector none (some t) = ok (thread_selector t)
identifier_selector _ _ = err "exactly one of session_id or thread_id is required"
