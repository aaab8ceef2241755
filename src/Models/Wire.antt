-- ===== src/Models/Wire.antt =====
-- codex_worker/models.py: the dictionaries of the domain values and of a response.
use superdev.Models.{
  error_detail, optional_text, optional_object, error_to_dict, text_or_none, object_or_none,
  item_to_dict, ErrorDetail, TurnSnapshot, EventRecord, EventPage, RuntimeStatus, SessionRecord,
}
use superdev.Models.Config.{is_thread_config}
use superdev.Models.Maintenance.{is_bad_worker}
use mathlib.Core.Path.{subst}
use superdev.Base.{
  string_eq, nat_eq, pair_eq, option_string_eq, all, contains, ◌>>=◌, raise_if, ◌>>◌, >>=-eq-ok,
  raise_if-eq-ok, ok_inj, Result, ok, err, String, ◌≡◌, refl, sym, Bool, true, false, not, ◌&&◌,
  ◌||◌, Option, none, some, List, [], ◌∷◌,
}
use superdev.Json.{
  get, field_names, as_text, Integer, Json, Items, Fields, natural, null, bool, int, float, text,
  arr, obj, nil, cons, done, field,
}

abbrev item_array {ℓ} : {A : Type ℓ} → (A → Fields) → List A → Items
item_array to [] = nil
item_array to (x ∷ xs) = cons (obj (to x)) (item_array to xs)

-- `value.to_dict() if value else None`
abbrev dict_or_null {ℓ} : {A : Type ℓ} → (A → Fields) → Option A → Json
dict_or_null to none = null
dict_or_null to (some x) = obj (to x)

-- `TurnSnapshot.to_dict`
unfoldable pub turn_to_dict : TurnSnapshot → Fields
turn_to_dict t = field "turn_id" (text t.turn_id) (
    field "status" (text t.status) (
      field "error" (dict_or_null error_to_dict t.error)
        (field "items" (arr (item_array item_to_dict t.items)) done)))

-- `EventRecord.to_dict`
unfoldable pub event_to_dict : EventRecord → Fields
event_to_dict e = field "cursor" (int (natural e.cursor)) (
    field "event" (text e.event) (
      field "session_id" (text e.session_id) (
        field "thread_id" (text e.thread_id) (
          field "turn_id" (optional_text e.turn_id) (
            field "item" (dict_or_null item_to_dict e.item)
              (field "error" (dict_or_null error_to_dict e.error) done))))))

-- `EventPage.to_dict`
unfoldable pub page_to_dict : EventPage → Fields
page_to_dict p =
    field "events" (arr (item_array event_to_dict p.events)) (
      field "next_cursor" (int (natural p.next_cursor)) (field "truncated" (bool p.truncated) done))

-- `RuntimeStatus.to_dict`
unfoldable pub status_to_dict : RuntimeStatus → Fields
status_to_dict s = field "attached" (bool s.attached) (
    field "active_turn_id" (optional_text s.active_turn_id)
      (field "latest_turn" (dict_or_null turn_to_dict s.latest_turn) done))

-- `SessionRecord.to_dict`
unfoldable pub session_to_dict : SessionRecord → Fields
session_to_dict r = field "session_id" (text r.session_id) (
    field "thread_id" (text r.thread_id) (
      field "cwd" (text r.cwd) (
        field "created_at" (text r.created_at) (
          field "updated_at" (text r.updated_at) (
            field "name" (optional_text r.name) (
              field "model" (optional_text r.model) (
                field "effort" (optional_text r.effort) (
                  field "tier" (optional_text r.tier) (
                    field "access" (optional_text r.access)
                      (field "config" (optional_object r.config) done))))))))))

abbrev v1_fields : List String
v1_fields =
    "session_id" ∷ "thread_id" ∷ "cwd" ∷ "created_at" ∷ "updated_at" ∷ "name" ∷ "model" ∷ "effort"
    ∷ []

abbrev v2_fields : List String
v2_fields = "tier" ∷ "access" ∷ v1_fields

-- `set(value) == names`
abbrev pub has_exactly : List String → Fields → Bool
has_exactly names fs =
    all (λ k. contains k names) (field_names fs) && all (λ k. contains k (field_names fs)) names

abbrev is_session_object : Fields → Bool
is_session_object fs =
    has_exactly v1_fields fs || has_exactly v2_fields fs || has_exactly ("config" ∷ v2_fields) fs

abbrev need {ℓ} : {A : Type ℓ} → String → Option A → Result String A
need why none = err why
need why (some x) = ok x

abbrev is_one_of : List String → Option String → Bool
is_one_of names none = true
is_one_of names (some s) = contains s names

-- The name, the tier and the access of a record.
abbrev check_policy : Option String → Option String → Option String → Result String (Unit {0})
check_policy name tier access =
    raise_if (is_bad_worker name) "invalid worker name"
    >> raise_if
        (not (is_one_of ("medium" ∷ "very-smart" ∷ []) tier)
          || not (is_one_of ("full" ∷ "read_only" ∷ []) access))
        "invalid common policy"

-- `validate_thread_config(value.get("config"))` and the copy. Its messages are not told apart.
abbrev read_config : Json → Result String (Option Fields)
read_config v = need "invalid config" (object_or_none v) >>= λ config.
    raise_if (not (is_thread_config config)) "invalid config" >> ok config

-- The strings and the annotations of the object, in a record that has no config yet.
unfoldable read_strings : Fields → Result String SessionRecord
read_strings fs = do
  session_id ← need "invalid session record field" (as_text (get "session_id" fs))
  thread_id ← need "invalid session record field" (as_text (get "thread_id" fs))
  cwd ← need "invalid session record field" (as_text (get "cwd" fs))
  created_at ← need "invalid session record field" (as_text (get "created_at" fs))
  updated_at ← need "invalid session record field" (as_text (get "updated_at" fs))
  name ← need "invalid session annotation" (text_or_none (get "name" fs))
  model ← need "invalid session annotation" (text_or_none (get "model" fs))
  effort ← need "invalid session annotation" (text_or_none (get "effort" fs))
  tier ← need "invalid session annotation" (text_or_none (get "tier" fs))
  access ← need "invalid session annotation" (text_or_none (get "access" fs))
  ok (record {
    session_id = session_id;
    thread_id = thread_id;
    cwd = cwd;
    created_at = created_at;
    updated_at = updated_at;
    name = name;
    model = model;
    effort = effort;
    tier = tier;
    access = access;
    config = none;
  })

-- `SessionRecord.from_dict`
unfoldable pub session_from_dict : Json → Result String SessionRecord
unfolding read_strings
session_from_dict (obj fs) = do
  raise_if (not (is_session_object fs)) "invalid session record"
  read ← read_strings fs
  check_policy read.name read.tier read.access
  config ← read_config (get "config" fs)
  ok (record read { config = config })
session_from_dict _ = err "invalid session record"

-- `data` of RpcFault: the detail that its constructor validates
pub record RpcFault : Type 0 where
  pub code : Integer
  pub message : String
  pub detail : ErrorDetail

-- `RpcFault.__post_init__`
unfoldable pub rpc_fault :
    Integer → String → String → Option String → Option Fields → Result String RpcFault
unfolding error_detail
rpc_fault code message kind recovery details = do
  detail ← error_detail kind recovery details
  ok (record { code = code; message = message; detail = detail })

-- `RpcFault.to_dict`
unfoldable pub fault_to_dict : RpcFault → Fields
fault_to_dict f =
    field "code" (int f.code)
      (field "message" (text f.message) (field "data" (obj (error_to_dict f.detail)) done))

-- `rpc_response`; the request id is a JSON value
unfoldable pub rpc_response : Json → Option Fields → Option RpcFault → Result String Fields
rpc_response request_id (some result) none =
    ok (field "jsonrpc" (text "2.0") (field "id" request_id (field "result" (obj result) done)))
rpc_response request_id none (some fault) = ok (
    field "jsonrpc" (text "2.0")
      (field "id" request_id (field "error" (obj (fault_to_dict fault)) done)))
rpc_response request_id _ _ = err "exactly one of result or fault is required"

-- `session_result`
unfoldable pub session_result : SessionRecord → Bool → Fields
session_result r attached =
    field "session" (obj (session_to_dict r)) (field "attached" (bool attached) done)

text-round : (o : Option String) → text_or_none (optional_text o) ≡ some o
text-round none = refl
text-round (some s) = refl

object-round : (o : Option Fields) → object_or_none (optional_object o) ≡ some o
object-round none = refl
object-round (some fs) = refl

session_round :
    (r : SessionRecord)
    → check_policy r.name r.tier r.access ≡ ok tt
    → is_thread_config r.config ≡ true
    → session_from_dict (obj (session_to_dict r)) ≡ ok r
unfolding session_from_dict session_to_dict read_strings
session_round r policy valid = rw (text-round r.name) (
    rw (text-round r.model) (
      rw (text-round r.effort) (
        rw (text-round r.tier)
          (rw (text-round r.access) (rw policy (rw (object-round r.config) (rw valid refl)))))))

not_is_false : (b : Bool) → not b ≡ false → b ≡ true
not_is_false true h = refl
not_is_false false h = cc

read_config-is_thread_config :
    (v : Json) {c : Option Fields} → read_config v ≡ ok c → is_thread_config c ≡ true
read_config-is_thread_config v h =
    let (config, e, k) = >>=-eq-ok (need "invalid config" (object_or_none v)) _ h in
    let (valid, same) =
      raise_if-eq-ok (not (is_thread_config config)) "invalid config" (ok config) k in
    let is_c = ok_inj same in rw (sym is_c) (not_is_false (is_thread_config config) valid)

-- What `SessionRecord.from_dict` has returned is written by `to_dict` and read again unchanged:
-- whichever of the three shapes the first object had, the second is read to the same record.
pub session_from_dict-session_to_dict :
    (v : Json) (r : SessionRecord)
    → session_from_dict v ≡ ok r
    → session_from_dict (obj (session_to_dict r)) ≡ ok r
unfolding session_from_dict
session_from_dict-session_to_dict (obj fs) r h =
    let (shaped, h1) = raise_if-eq-ok (not (is_session_object fs)) "invalid session record" _ h in
    let (read, is_read, h2) = >>=-eq-ok (read_strings fs) _ h1 in
    let (u, policy, h3) = >>=-eq-ok (check_policy read.name read.tier read.access) _ h2 in
    let (config, is_config, h4) = >>=-eq-ok (read_config (get "config" fs)) _ h3 in
    let valid = read_config-is_thread_config (get "config" fs) is_config in
    let same = ok_inj h4 in
    subst (λ x. session_from_dict (obj (session_to_dict x)) ≡ ok x) same
      (session_round (record read { config = config }) policy valid)
session_from_dict-session_to_dict null r h = cc
session_from_dict-session_to_dict (bool b) r h = cc
session_from_dict-session_to_dict (int b) r h = cc
session_from_dict-session_to_dict (float b) r h = cc
session_from_dict-session_to_dict (text b) r h = cc
session_from_dict-session_to_dict (arr b) r h = cc
