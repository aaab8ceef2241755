-- ===== src/Runtime/Notify.antt =====
-- `on_notification` and `detach_all`: what the app server's notifications do to the sessions.
use superdev.Base.{
  if◌then◌else◌, string_eq, ◌==◌, nat_eq, pair_eq, option_string_eq, get_or, contains, ◌>>=◌,
  Result, ok, err, keys, lookup, ℕ, String, Bool, true, false, Option, none, some, List, [], ◌∷◌,
}
use superdev.Json.{get, as_text, as_object, Json, Fields, obj}
use superdev.Models.{error_detail, ErrorDetail, TurnSnapshot}
use superdev.Runtime.{
  retain_terminal, append_event, settle_terminal, by_thread, put_session, update_session,
  publish_to, RuntimeError, SessionRuntime, RuntimeStore, value_error,
}
use superdev.Runtime.Turns.{thread_id_of, apply_notification}

-- `_publish_terminal`, and what follows it once the observers have been called.
unfoldable pub publish_terminal :
    (ℕ → String → TurnSnapshot → RuntimeStore → RuntimeStore)
    → String
    → Option TurnSnapshot
    → RuntimeStore
    → RuntimeStore
publish_terminal react session_id none s = s
publish_terminal react session_id (some t) s =
    let s' = publish_to react s.terminal_observers session_id t s in
    update_session session_id (settle_terminal s'.event_limit t.turn_id) s'

-- What `detach_all` does to one session under its condition.
unfoldable pub detach_session :
    ℕ → ErrorDetail → SessionRuntime → SessionRuntime × Option TurnSnapshot
detach_session limit reason r =
    let lost = r.active_turn_id in
    let idle : SessionRuntime = record r {
      attached = false;
      active_turn_id = none;
      start_pending = false;
      awaiting_start_response = false;
      observed_start_turn_id = none;
      items = [];
    } in
    elim lost [
      | none ↦ (append_event limit "transport_error" none none (some reason) idle, none)
      | some t ↦
          let snapshot : TurnSnapshot = record {
            turn_id = t;
            status = "failed";
            error = some reason;
            items = get_or (lookup t r.items) [];
          } in
          (
            append_event limit "transport_error" (some t) none (some reason)
                (retain_terminal limit snapshot true (record idle { latest_turn = some snapshot })),
            some snapshot,
          )
    ]

-- One round of `detach_all`.
unfoldable pub detach_one :
    (ℕ → String → TurnSnapshot → RuntimeStore → RuntimeStore)
    → ErrorDetail
    → String
    → Option SessionRuntime
    → RuntimeStore
    → RuntimeStore
detach_one react reason k none s = s
detach_one react reason k (some r) s =
    let (r', lost) = detach_session s.event_limit reason r in
    publish_terminal react r.session.session_id lost (put_session k r' s)

-- The loop of `detach_all` over the sessions that there were when it began.
unfoldable pub detach_each :
    (ℕ → String → TurnSnapshot → RuntimeStore → RuntimeStore)
    → ErrorDetail
    → List String
    → RuntimeStore
    → RuntimeStore
detach_each react reason [] s = s
detach_each react reason (k ∷ ks) s =
    detach_each react reason ks (detach_one react reason k (lookup k s.sessions) s)

unfoldable pub detach_all :
    (ℕ → String → TurnSnapshot → RuntimeStore → RuntimeStore)
    → ErrorDetail
    → RuntimeStore
    → RuntimeStore
detach_all react reason s = detach_each react reason (keys s.sessions) s

-- The notifications that are about one thread.
abbrev pub is_thread_method : String → Bool
is_thread_method method =
    contains method
      ("turn/started" ∷ "turn/completed" ∷ "item/completed" ∷ "approval/declined" ∷ [])

-- `params if isinstance(params, dict) else {}`, for `transport/error`
abbrev pub transport_details : Fields → Option Fields
transport_details message = elim (as_object (get "params" message)) [
  | none ↦ none
  | some params ↦ as_object (get "details" params)
]

-- `on_notification` for a thread: the change, and the publication.
unfoldable pub notify_session :
    (Json → String)
    → (ℕ → String → TurnSnapshot → RuntimeStore → RuntimeStore)
    → String
    → Option Fields
    → Option SessionRuntime
    → RuntimeStore
    → Result RuntimeError RuntimeStore
notify_session str react method params none s = ok s
notify_session str react method none (some r) s = ok s
notify_session str react method (some params) (some r) s =
    apply_notification str s.event_limit method params r >>= λ (r', terminal).
    ok
      (publish_terminal react r.session.session_id terminal (put_session r.session.session_id r' s))

abbrev pub on_thread_notification :
    (Json → String)
    → (ℕ → String → TurnSnapshot → RuntimeStore → RuntimeStore)
    → String
    → Fields
    → RuntimeStore
    → Result RuntimeError RuntimeStore
on_thread_notification str react method message s =
    notify_session str react method (as_object (get "params" message))
      (by_thread (thread_id_of message) s) s

-- The branch `transport/error`, once the detail has been built.
abbrev pub lose_transport :
    (ℕ → String → TurnSnapshot → RuntimeStore → RuntimeStore)
    → Result String ErrorDetail
    → RuntimeStore
    → Result RuntimeError RuntimeStore
lose_transport react (err m) s = err (value_error m)
lose_transport react (ok reason) s = ok (detach_all react reason s)

abbrev pub on_method :
    (Json → String)
    → (ℕ → String → TurnSnapshot → RuntimeStore → RuntimeStore)
    → Option String
    → Fields
    → RuntimeStore
    → Result RuntimeError RuntimeStore
on_method str react none message s = ok s
on_method str react (some method) message s =
    if method == "transport/error"
    then lose_transport react (error_detail "transport_error" none (transport_details message)) s
    else if is_thread_method method
    then on_thread_notification str react method message s
    else ok s

unfoldable pub on_notification :
    (Json → String)
    → (ℕ → String → TurnSnapshot → RuntimeStore → RuntimeStore)
    → Json
    → RuntimeStore
    → Result RuntimeError RuntimeStore
on_notification str react (obj message) s =
    on_method str react (as_text (get "method" message)) message s
on_notification str react _ s = ok s
