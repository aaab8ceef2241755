-- ===== src/Broker/Inventory.antt =====
-- broker.py: `list_active_threads`, the inventory of the threads that are active in the app server.
use superdev.Base.{
  if◌then◌else◌, string_eq, ◌==◌, nat_eq, pair_eq, option_string_eq, is_some, get_or, keep,
  contains, add, ◌>>=◌, map_result, Result, ok, err, Dict, lookup, insert, ℕ, zero, suc, ◌+◌,
  String, Bool, true, false, not, ◌||◌, Option, none, some, List, [], ◌∷◌,
}
use superdev.Json.{get, as_text, as_object, as_list, Json, Fields, null, text, obj, done}
use superdev.Models.{SessionRecord}
use superdev.Models.Maintenance.{
  active_thread_item, active_inventory, ActiveThreadItem, ActiveInventory,
}
use superdev.Models.Wire.{has_exactly}
use superdev.Transport.{fault_details, call_error, CallError}

-- A failed request, which the broker reports as an `RpcFault`, the `ValueError` of a constructor,
-- and the `AttributeError` of `thread.get` on a thread that is not an object.
pub data InventoryError : Type 0 where
  upstream : CallError → InventoryError
  invalid : String → InventoryError
  attribute_error : InventoryError

abbrev pub page_error : String → CallError
page_error why = call_error "protocol_error" "thread/list" (some (fault_details why))

-- The flags of an active thread
unfoldable pub flag_texts : List Json → Option (List String)
flag_texts [] = some []
flag_texts (v ∷ vs) =
    let rest = flag_texts vs in
    elim v [
      | text flag ↦
          if flag == "" then none else elim rest [ none ↦ none | some flags ↦ some (flag ∷ flags) ]
      | _ ↦ none
    ]

-- The check of a thread's status, with the flags of an active one
unfoldable pub thread_status : Fields → Result CallError (Option (List String))
unfolding flag_texts
thread_status status = elim (as_text (get "type" status)) [
  | none ↦ err (page_error "unknown thread status")
  | some type ↦
      if type == "active"
      then (if not (has_exactly ("type" ∷ "activeFlags" ∷ []) status)
          then err (page_error "malformed active thread status")
          else elim (as_list (get "activeFlags" status)) [
            | none ↦ err (page_error "malformed active thread status")
            | some vs ↦ elim (flag_texts vs) [
              | none ↦ err (page_error "malformed active thread status")
              | some flags ↦ ok (some flags)
            ]
          ])
      else if contains type ("idle" ∷ "notLoaded" ∷ "systemError" ∷ [])
      then (if has_exactly ("type" ∷ []) status
          then ok none
          else err (page_error "malformed inactive thread status"))
      else err (page_error "unknown thread status")
]

-- A thread of a page: its id, and its flags when it is active.
abbrev pub ListedThread : Type 0
ListedThread = String × Option (List String)

unfoldable pub listed_thread : Json → Result CallError ListedThread
unfolding thread_status
listed_thread (obj thread) = elim (as_text (get "id" thread)) [
  | none ↦ err (page_error "malformed thread inventory item")
  | some id ↦ elim (as_object (get "status" thread)) [
    | none ↦ err (page_error "malformed thread inventory item")
    | some status ↦
        if id == ""
        then err (page_error "malformed thread inventory item")
        else thread_status status >>= λ flags. ok (id, flags)
  ]
]
listed_thread _ = err (page_error "malformed thread inventory item")

-- `value is None or isinstance(value, str) and value`; the outer `none` is a malformed cursor.
abbrev pub cursor_of : Json → Option (Option String)
cursor_of null = some none
cursor_of (text cursor) = if cursor == "" then none else some (some cursor)
cursor_of _ = none

abbrev pub is_null_or_text : Json → Bool
is_null_or_text null = true
is_null_or_text (text s) = true
is_null_or_text _ = false

-- `_validate_inventory_page`, with the threads and the next cursor that are read from the page
unfoldable pub inventory_page : Json → Result CallError (List ListedThread × Option String)
unfolding listed_thread
inventory_page (obj page) =
    if not (has_exactly ("data" ∷ "nextCursor" ∷ "backwardsCursor" ∷ []) page)
      || not (is_null_or_text (get "backwardsCursor" page))
    then err (page_error "malformed thread inventory page")
    else elim (as_list (get "data" page)) [
      | none ↦ err (page_error "malformed thread inventory page")
      | some vs ↦ elim (cursor_of (get "nextCursor" page)) [
        | none ↦ err (page_error "malformed thread inventory page")
        | some next ↦ map_result listed_thread vs >>= λ threads. ok (threads, next)
      ]
    ]
inventory_page _ = err (page_error "malformed thread inventory page")

-- `active.setdefault(thread_id, list(status["activeFlags"]))` for the active threads of a page
unfoldable pub collect : List ListedThread → Dict String (List String) → Dict String (List String)
collect [] active = active
collect ((id, none) ∷ threads) active = collect threads active
collect ((id, some flags) ∷ threads) active =
    collect threads (if is_some (lookup id active) then active else insert id flags active)

-- The answers of the app server: to `thread/list` with a cursor, as the request of that number, and
-- to `thread/read`.
pub record AppServer : Type 0 where
  pub thread_list : ℕ → Option String → Result CallError Json
  pub thread_read : String → Result CallError Json

module _ (server : AppServer) where
  -- The loop over the pages. `looks` is how often the clock is read before the deadline, and `page`
  -- the number of the request.
  unfoldable pub list_pages :
      ℕ
      → ℕ
      → Option String
      → List String
      → Dict String (List String)
      → Result CallError (Dict String (List String))
  list_pages zero page cursor seen active = err (call_error "timeout" "thread/list" none)
  list_pages (suc looks) page cursor seen active = server.thread_list page cursor >>= λ result.
      inventory_page result >>= λ (threads, next). elim next [
        | none ↦ ok (collect threads active)
        | some c ↦ elim (contains c seen || cursor == some c) [
          | true ↦ err (page_error "thread inventory cursor did not progress")
          | false ↦ list_pages looks (page + 1) (some c) (add c seen) (collect threads active)
        ]
      ]

abbrev pub is_in_progress_turn : Json → Bool
is_in_progress_turn (obj turn) = as_text (get "status" turn) == some "inProgress"
is_in_progress_turn _ = false

abbrev ambiguous : CallError
ambiguous =
    call_error "protocol_error" "thread/read"
      (some (fault_details "active inventory turn identity is ambiguous"))

-- `active[0]["id"]`, where there must be one turn in progress and its id a text that is not empty
abbrev pub only_turn_id : List Json → Result CallError String
only_turn_id (obj turn ∷ []) = elim (as_text (get "id" turn)) [
  | none ↦ err ambiguous
  | some id ↦ if id == "" then err ambiguous else ok id
]
only_turn_id _ = err ambiguous

abbrev pub is_active_status : Option Fields → Bool
is_active_status none = false
is_active_status (some status) = as_text (get "type" status) == some "active"

abbrev pub as_upstream {ℓ} : {A : Type ℓ} → Result CallError A → Result InventoryError A
as_upstream (ok a) = ok a
as_upstream (err error) = err (upstream error)

abbrev pub turn_id_in : String → Json → Result InventoryError String
turn_id_in thread_id null = err (upstream ambiguous)
turn_id_in thread_id (obj thread) =
    if not (as_text (get "id" thread) == some thread_id)
      || not (is_active_status (as_object (get "status" thread)))
    then err (upstream ambiguous)
    else as_upstream
        (only_turn_id (keep is_in_progress_turn (get_or (as_list (get "turns" thread)) [])))
turn_id_in thread_id _ = err attribute_error

-- `_inventory_turn_id`
unfoldable pub inventory_turn_id : AppServer → String → Result InventoryError String
inventory_turn_id server thread_id = as_upstream (server.thread_read thread_id) >>= λ result.
    turn_id_in thread_id (get "thread" (get_or (as_object result) done))

-- The item of an active thread; the session is the one that it belongs to.
abbrev pub active_item : String → Option SessionRecord → String → List String → ActiveThreadItem
active_item thread_id session turn_id flags = record {
  thread_id = thread_id;
  origin = if is_some session then "worker" else "unmapped_tui";
  worker = elim session [ none ↦ none | some s ↦ s.name ];
  session_id = elim session [ none ↦ none | some s ↦ some s.session_id ];
  turn_id = turn_id;
  active_flags = flags;
}

unfoldable pub inventory_item :
    String → Option SessionRecord → String → List String → Result String ActiveThreadItem
unfolding active_thread_item
inventory_item thread_id session turn_id flags =
    active_thread_item (active_item thread_id session turn_id flags)

abbrev pub as_invalid {ℓ} : {A : Type ℓ} → Result String A → Result InventoryError A
as_invalid (ok a) = ok a
as_invalid (err why) = err (invalid why)

-- `{record.thread_id: record for record in records}`
abbrev pub records_by_thread :
    List SessionRecord → Dict String SessionRecord → Dict String SessionRecord
records_by_thread [] by_thread = by_thread
records_by_thread (r ∷ rs) by_thread = records_by_thread rs (insert r.thread_id r by_thread)

-- The loop over the active threads, with as many looks at the clock before the deadline
unfoldable pub inventory_items :
    AppServer
    → ℕ
    → Dict String SessionRecord
    → Dict String (List String)
    → Result InventoryError (List ActiveThreadItem)
unfolding inventory_turn_id inventory_item
inventory_items server looks by_thread [] = ok []
inventory_items server zero by_thread (a ∷ active) =
    err (upstream (call_error "timeout" "thread/read" none))
inventory_items server (suc looks) by_thread ((thread_id, flags) ∷ active) =
    inventory_turn_id server thread_id >>= λ turn_id.
    as_invalid (inventory_item thread_id (lookup thread_id by_thread) turn_id flags) >>= λ item.
    inventory_items server looks by_thread active >>= λ items. ok (item ∷ items)

-- `list_active_threads`, with the records of the registry, which can be read, and the looks of both
-- loops
unfoldable pub list_active_threads :
    AppServer → ℕ → ℕ → List SessionRecord → Result InventoryError ActiveInventory
unfolding list_pages inventory_items active_inventory
list_active_threads server list_looks read_looks records =
    as_upstream (list_pages server list_looks 0 none [] []) >>= λ active.
    inventory_items server read_looks (records_by_thread records []) active >>= λ items.
    as_invalid (active_inventory items)
