-- ===== src/Callbacks/Store.antt =====
-- callback_store.py: `CallbackStore`. Its state is the file, as `_decode` leaves it; every
-- mutation writes the whole file under the lock, with sorted keys.
pub mod Sorting
pub mod Effects
pub mod Progress
pub mod History
pub mod Outbox
use Prim.Native.String.{compare}
use Prim.Native.Nat.{Ordering}
use superdev.Base.{
  if◌then◌else◌, ◌==◌, nat_eq, string_eq, pair_eq, option_string_eq, length, keep, contains,
  all_distinct, ◌>>=◌, ◌>>◌, raise_if, Result, ok, err, Dict, keys, values, lookup, insert, ℕ, ◌+◌,
  String, Bool, true, false, not, ◌&&◌, Option, none, some, List, [], ◌∷◌, map,
}
use superdev.Callbacks.{
  same_state, same_attempt_state, callback_attempt_view, terminal_turn_id, callback_binding,
  is_pending, callback_outbox_entry, CallbackAttemptState, CallbackAttemptView, CallbackStatusView,
  CallbackEvent, CallbackBinding, CallbackOutboxEntry, attempt_written, attempt_failed,
  pending_entry, written_entry,
}

-- `a < b` on texts
abbrev pub is_before : String → String → Bool
is_before a b = elim (compare a b) [ Ordering.lt ↦ true | _ ↦ false ]

abbrev pub place {ℓ} : {V : Type ℓ} → String → V → Dict String V → Dict String V
place k v [] = (k, v) ∷ []
place k v ((j, w) ∷ d) =
    let rest = place k v d in if is_before j k then (j, w) ∷ rest else (k, v) ∷ (j, w) ∷ d

-- `json.dumps(d, sort_keys=True)`, read back
unfoldable pub sort_keys {ℓ} : {V : Type ℓ} → Dict String V → Dict String V
sort_keys [] = []
sort_keys ((k, v) ∷ d) = place k v (sort_keys d)

pub record CallbackStore : Type 0 where
  pub bindings : Dict String CallbackBinding
  pub outbox : Dict String CallbackOutboxEntry

-- `_empty`
abbrev pub empty_store : CallbackStore
empty_store = record { bindings = []; outbox = [] }

-- `_write`: what the next `_load` reads
unfoldable pub write : CallbackStore → CallbackStore
write s = record { bindings = sort_keys s.bindings; outbox = sort_keys s.outbox }

-- The keys that `_decode` compares with the records.
abbrev pub bindings_match : Dict String CallbackBinding → Bool
bindings_match [] = true
bindings_match ((k, b) ∷ d) = (b.session_id == k) && bindings_match d

abbrev pub outbox_matches : Dict String CallbackOutboxEntry → Bool
outbox_matches [] = true
outbox_matches ((k, e) ∷ d) = (e.event_id == k) && outbox_matches d

-- `_decode`, once the records have been built
unfoldable pub decode : CallbackStore → Result String CallbackStore
decode s = do
  raise_if (not (bindings_match s.bindings)) "callback binding key does not match its record"
  raise_if (not (outbox_matches s.outbox)) "callback outbox key does not match its record"
  ok s

-- `CallbackStoreSnapshot`
pub record CallbackStoreSnapshot : Type 0 where
  pub bindings : List CallbackBinding
  pub outbox : List CallbackOutboxEntry

-- `CallbackStoreSnapshot.__post_init__`
unfoldable pub callback_store_snapshot :
    List CallbackBinding → List CallbackOutboxEntry → Result String CallbackStoreSnapshot
callback_store_snapshot bindings outbox =
    if all_distinct (map (λ b. b.session_id) bindings)
      && all_distinct (map (λ e. e.event_id) outbox)
    then ok (record { bindings = bindings; outbox = outbox })
    else err "duplicate callback snapshot key"

-- `snapshot`, by `_snapshot_from_state`
unfoldable pub snapshot : CallbackStore → Result String CallbackStoreSnapshot
snapshot s = callback_store_snapshot (values (sort_keys s.bindings)) (values (sort_keys s.outbox))

-- The loops of `replace_snapshot`
abbrev pub index_bindings :
    List CallbackBinding → Dict String CallbackBinding → Dict String CallbackBinding
index_bindings [] d = d
index_bindings (b ∷ bs) d = index_bindings bs (insert b.session_id b d)

abbrev pub index_outbox :
    Dict String CallbackBinding
    → List CallbackOutboxEntry
    → Dict String CallbackOutboxEntry
    → Result String (Dict String CallbackOutboxEntry)
index_outbox bindings [] d = ok d
index_outbox bindings (e ∷ es) d =
    if contains e.session_id (keys bindings)
    then index_outbox bindings es (insert e.event_id e d)
    else err "callback outbox session has no binding"

-- `replace_snapshot`: the records go in by their keys, which `_write` sorts
unfoldable pub replace_snapshot : CallbackStoreSnapshot → Result String CallbackStore
replace_snapshot v = do
  let bindings = index_bindings v.bindings []
  outbox ← index_outbox bindings v.outbox []
  ok (write (record { bindings = bindings; outbox = outbox }))

-- `==` on bindings
abbrev pub same_attempt : CallbackAttemptView → CallbackAttemptView → Bool
same_attempt a b =
    a.event_id == b.event_id
    && same_attempt_state a.state b.state
    && a.reason == b.reason
    && a.attempted_at == b.attempted_at
    && a.attempt_count == b.attempt_count
    && a.turn_id == b.turn_id

abbrev pub same_last_attempt : Option CallbackAttemptView → Option CallbackAttemptView → Bool
same_last_attempt none none = true
same_last_attempt (some a) (some b) = same_attempt a b
same_last_attempt _ _ = false

abbrev pub same_pid : Option ℕ → Option ℕ → Bool
same_pid none none = true
same_pid (some a) (some b) = a == b
same_pid _ _ = false

unfoldable pub same_binding : CallbackBinding → CallbackBinding → Bool
same_binding a b =
    a.session_id == b.session_id
    && same_state a.state b.state
    && a.target_socket == b.target_socket
    && a.child_token == b.child_token
    && a.claude_session_id == b.claude_session_id
    && same_pid a.claude_pid b.claude_pid
    && a.claude_proc_start == b.claude_proc_start
    && a.claude_config_dir == b.claude_config_dir
    && a.captured_at == b.captured_at
    && same_last_attempt a.last_terminal_attempt b.last_terminal_attempt

unfoldable pub bind : CallbackBinding → CallbackStore → Result String CallbackStore
bind b s = elim (lookup b.session_id s.bindings) [
  | none ↦ ok (write (record s { bindings = insert b.session_id b s.bindings }))
  | some existing ↦ if same_binding existing b then ok s else err "callback binding is immutable"
]

-- `enqueue_terminal`: the new file, and the entry that is pending, if there is one
unfoldable pub enqueue_terminal :
    String
    → CallbackEvent
    → CallbackStore
    → Result String (CallbackStore × Option CallbackOutboxEntry)
enqueue_terminal session_id event s =
    if not (contains session_id (keys s.bindings))
    then err "callback binding not found"
    else elim (lookup event.event_id s.outbox) [
      | some entry ↦
          if not (entry.session_id == session_id)
          then err "callback event id belongs to another session"
          else ok (s, if is_pending entry.state then some entry else none)
      | none ↦ do
        entry ← callback_outbox_entry (record {
          event_id = event.event_id;
          session_id = session_id;
          event = some event;
          state = pending_entry;
          attempt_count = 0;
          last_error = none;
        })
        ok (write (record s { outbox = insert event.event_id entry s.outbox }), some entry)
    ]

abbrev pub is_waiting : Option String → CallbackOutboxEntry → Bool
is_waiting none e = is_pending e.state
is_waiting (some session_id) e = is_pending e.state && e.session_id == session_id

unfoldable pub pending : Option String → CallbackStore → List CallbackOutboxEntry
pending session_id s = keep (is_waiting session_id) (values s.outbox)

-- `_set_attempt`; the record is built again, with its checks
unfoldable pub set_attempt :
    String → CallbackAttemptView → CallbackStore → Result String CallbackStore
set_attempt session_id attempt s = elim (lookup session_id s.bindings) [
  | none ↦ err "KeyError"
  | some b ↦ do
    b' ← callback_binding (record b { last_terminal_attempt = some attempt })
    ok (record s { bindings = insert session_id b' s.bindings })
]

-- `_entry_from_dict(state["outbox"].get(event_id))`
unfoldable pub find_entry : String → CallbackStore → Result String CallbackOutboxEntry
find_entry event_id s = elim (lookup event_id s.outbox) [
  | none ↦ err "malformed callback outbox entry"
  | some e ↦ ok e
]

-- What both outcomes of an attempt write: the entry, then the attempt on the binding.
unfoldable pub record_attempt :
    String
    → CallbackOutboxEntry
    → CallbackAttemptState
    → Option String
    → String
    → Option String
    → CallbackStore
    → Result String (CallbackStore × CallbackOutboxEntry)
record_attempt event_id entry state reason attempted_at turn_id s = do
  entry' ← callback_outbox_entry entry
  attempt ←
      callback_attempt_view event_id state reason (some attempted_at) entry'.attempt_count turn_id
  s' ← set_attempt entry'.session_id attempt (record s { outbox = insert event_id entry' s.outbox })
  ok (write s', entry')

unfoldable pub record_failed :
    String → String → String → CallbackStore → Result String (CallbackStore × CallbackOutboxEntry)
record_failed event_id error attempted_at s = do
  raise_if (error == "") "error must be a non-empty string"
  raise_if (attempted_at == "") "attempted_at must be a non-empty string"
  entry ← find_entry event_id s
  (if not (is_pending entry.state)
      then ok (s, entry)
      else record_attempt event_id
          (record entry { attempt_count = entry.attempt_count + 1; last_error = some error })
          attempt_failed (some error) attempted_at (terminal_turn_id entry.event) s)

unfoldable pub record_written :
    String → String → CallbackStore → Result String (CallbackStore × CallbackOutboxEntry)
record_written event_id attempted_at s = do
  raise_if (attempted_at == "") "attempted_at must be a non-empty string"
  entry ← find_entry event_id s
  (if not (is_pending entry.state)
      then ok (s, entry)
      else record_attempt event_id
          (record entry {
            event = none;
            state = written_entry;
            attempt_count = entry.attempt_count + 1;
            last_error = none;
          })
          attempt_written none attempted_at (terminal_turn_id entry.event) s)

-- `previous.attempt_count + 1 if previous is not None and previous.event_id == event_id else 1`
abbrev pub next_count : String → Option CallbackAttemptView → ℕ
next_count event_id none = 1
next_count event_id (some previous) =
    if previous.event_id == event_id then previous.attempt_count + 1 else 1

unfoldable pub record_terminal_fault :
    String
    → String
    → String
    → String
    → Option String
    → CallbackStore
    → Result String (CallbackStore × CallbackAttemptView)
record_terminal_fault session_id event_id error attempted_at turn_id s = do
  raise_if (session_id == "") "session_id must be a non-empty string"
  raise_if (event_id == "") "event_id must be a non-empty string"
  raise_if (error == "") "error must be a non-empty string"
  raise_if (attempted_at == "") "attempted_at must be a non-empty string"
  elim (lookup session_id s.bindings) [
    | none ↦ err "callback binding not found"
    | some b ↦ do
      attempt ←
          callback_attempt_view event_id attempt_failed (some error) (some attempted_at)
            (next_count event_id b.last_terminal_attempt) turn_id
      s' ← set_attempt session_id attempt s
      ok (write s', attempt)
  ]

unfoldable pub callback_status : String → CallbackStore → Result String CallbackStatusView
callback_status session_id s = elim (lookup session_id s.bindings) [
  | none ↦ err "callback binding not found"
  | some b ↦ ok (record {
    state = b.state;
    pending_terminal_count =
        length (keep (λ e. e.session_id == session_id && is_pending e.state) (values s.outbox));
    last_terminal_attempt = b.last_terminal_attempt;
  })
]
