-- ===== src/Runtime/Protocol.antt =====
-- The start protocol of a turn: `reserve_start`, then the response and the notifications of the
-- turn in either order.
use superdev.Base.{
  string_eq, ◌==◌, nat_eq, pair_eq, option_string_eq, Bool-cases, is_some, get_or, contains, ok,
  err, lookup, erase, ℕ, String, ◌≡◌, refl, ◌≢◌, ◌↔◌, inl, inr, true, false, Option, none, some, [],
  arith, eq_iff,
}
use superdev.Models.{ErrorDetail, TurnSnapshot}
use superdev.Runtime.{
  trim_terminals, mark_terminal_published, retain_terminal, append_event, SessionRuntime,
  turn_active, protocol_error,
}
use superdev.Runtime.Starts.{is_busy, require_attached, reserved, reserve, cancelled, bind_start}
use superdev.Runtime.Turns.{turn_started, finish_active, complete_turn}
use superdev.Runtime.Reads.{must_wait}

is_busy-parts :
    (r : SessionRuntime)
    → is_busy r ≡ false
    → (r.start_pending ≡ false) × (r.awaiting_start_response ≡ false) × (r.active_turn_id ≡ none)
is_busy-parts r idle = ground arith

-- What a reservation says of the session before and after it.
reserve-inverse :
    (r r' : SessionRuntime)
    → reserve r ≡ ok r'
    → (r' ≡ reserved r) × (r.attached ≡ true) × (is_busy r ≡ false)
unfolding reserve require_attached
reserve-inverse r r' h = elim (Bool-cases r.attached) [
  | inr gone ↦ cc (rw gone at h)
  | inl here ↦ elim (Bool-cases (is_busy r)) [
    | inl busy ↦ cc (rw (here, busy) at h)
    | inr idle ↦ (cc (rw (here, idle) at h), here, idle)
  ]
]

reserve-reserved : (r : SessionRuntime) → r.attached ≡ true → reserve (reserved r) ≡ err turn_active
unfolding reserve require_attached
reserve-reserved r here = rw here refl

reserve-idle :
    (r : SessionRuntime) → r.attached ≡ true → is_busy r ≡ false → reserve r ≡ ok (reserved r)
unfolding reserve require_attached
reserve-idle r here idle = rw (here, idle) refl

-- A session takes one turn at a time: a reservation is made exactly when it is attached and no turn
-- is pending, unanswered or active; and while it stands, the next one is refused.
pub reserve-exclusive :
    (r : SessionRuntime)
    → ((reserve r ≡ ok (reserved r)) ↔ ((r.attached ≡ true) × (is_busy r ≡ false)))
      × ((r' : SessionRuntime) → reserve r ≡ ok r' → reserve r' ≡ err turn_active)
reserve-exclusive r = (
  (
    λ h. let (same, here, idle) = reserve-inverse r (reserved r) h in (here, idle),
    λ (here, idle). reserve-idle r here idle,
  ),
  λ r' h. let (same, here, idle) = reserve-inverse r r' h in rw same (reserve-reserved r here),
)

same-text : (t : String) → (t == t) ≡ true
same-text t = ground (arith, eq_iff t t)

-- For a turn that is not remembered as published, after a reservation: whichever comes first, the
-- response or the notification that the turn has begun, the session ends up the same, with the turn
-- active and nothing reserved.
pub turn_started-bind_start :
    (limit : ℕ) (t : String) (r r' : SessionRuntime)
    → reserve r ≡ ok r'
    → contains t r.published_terminal_ids ≡ false
    → let first = bind_start t (turn_started limit t r') in
      let second = bind_start t r' in
      (first ≡ (turn_started limit t second.0, ok tt))
      × (second.1 ≡ ok tt)
      × (first.0.active_turn_id ≡ some t)
      × (first.0.start_pending ≡ false)
      × (first.0.awaiting_start_response ≡ false)
unfolding reserve require_attached turn_started bind_start append_event
turn_started-bind_start limit t r r' h fresh =
    let (same, here, idle) = reserve-inverse r r' h in
    let (p, a, none_active) = is_busy-parts r idle in
    rw (same, fresh, none_active, same-text t, fresh) (refl, refl, refl, refl, refl)

-- The response to a start whose turn has been seen.
bind_start-observed :
    (t : String) (r : SessionRuntime)
    → r.awaiting_start_response ≡ true
    → r.observed_start_turn_id ≡ some t
    → bind_start t r ≡ (cancelled r, ok tt)
unfolding bind_start
bind_start-observed t r waits seen = rw (waits, seen, same-text t) refl

-- The end of a turn that is not remembered as published.
pub complete_turn-fresh :
    (limit : ℕ) (t end : String) (error : Option ErrorDetail) (r : SessionRuntime)
    → contains t r.published_terminal_ids ≡ false
    → let snapshot : TurnSnapshot = record {
      turn_id = t;
      status = end;
      error = error;
      items = get_or (lookup t r.items) [];
    } in
      let r' = record (finish_active t r) {
        items = erase t r.items;
        latest_turn = some snapshot;
      } in
      complete_turn limit t end error r ≡ (
        append_event limit "turn_completed"
            (some t)
            none
            error
            (retain_terminal limit snapshot true (mark_terminal_published limit t r').0),
        some snapshot,
      )
unfolding complete_turn finish_active mark_terminal_published
complete_turn-fresh limit t end error r fresh = rw fresh refl

-- What the start protocol sees of it.
Ended : String → TurnSnapshot → SessionRuntime → Type 0
Ended t snapshot r =
    (r.awaiting_start_response ≡ true)
    × (r.observed_start_turn_id ≡ some t)
    × (r.active_turn_id ≡ none)
    × (r.start_pending ≡ false)
    × (r.latest_turn ≡ some snapshot)

recorded-Ended :
    (limit : ℕ) (t : String) (error : Option ErrorDetail) (snapshot : TurnSnapshot)
    (r : SessionRuntime)
    → Ended t snapshot r
    → Ended t snapshot (
        append_event limit "turn_completed"
          (some t)
          none
          error
          (retain_terminal limit snapshot true (mark_terminal_published limit t r).0))
unfolding Ended append_event retain_terminal trim_terminals mark_terminal_published
recorded-Ended limit t error snapshot r h =
    elim (Bool-cases (contains t r.published_terminal_ids)) [
      | inl old ↦ rw old h
      | inr new ↦ rw new h
    ]

finished :
    (t : String) (r : SessionRuntime) (snapshot : TurnSnapshot)
    → r.awaiting_start_response ≡ true
    → r.observed_start_turn_id ≡ none
    → r.active_turn_id ≡ none
    → Ended t snapshot
        (record (finish_active t r) { items = erase t r.items; latest_turn = some snapshot })
unfolding Ended finish_active
finished t r snapshot waits unseen inactive =
    rw (waits, unseen, inactive) (refl, refl, refl, refl, refl)

answered :
    (t : String) (snapshot : TurnSnapshot) (r : SessionRuntime)
    → Ended t snapshot r
    → ((bind_start t r).1 ≡ ok tt)
      × ((bind_start t r).0.active_turn_id ≡ none)
      × (must_wait none (bind_start t r).0 ≡ false)
      × ((bind_start t r).0.latest_turn ≡ some snapshot)
      × (true ≡ true)
unfolding Ended
answered t snapshot r (waits, seen, inactive, free, latest) =
    rw (bind_start-observed t r waits seen) (rw (inactive, latest) (refl, refl, refl, refl, refl))

-- A turn, not yet published, that ends before its reserved start is answered stays ended: the
-- response is accepted and leaves no active turn behind, a waiter need not wait any more, and the
-- latest turn is the snapshot that was published.
pub complete_turn-bind_start :
    (limit : ℕ) (t end : String) (error : Option ErrorDetail) (r r' : SessionRuntime)
    → reserve r ≡ ok r'
    → contains t r.published_terminal_ids ≡ false
    → let (done, published) = complete_turn limit t end error r' in
      let answered = bind_start t done in
      (answered.1 ≡ ok tt)
      × (answered.0.active_turn_id ≡ none)
      × (must_wait none answered.0 ≡ false)
      × (answered.0.latest_turn ≡ published)
      × (is_some published ≡ true)
complete_turn-bind_start limit t end error r r' h fresh =
    let (same, here, idle) = reserve-inverse r r' h in
    let (p, a, none_active) = is_busy-parts r idle in
    rw (same, complete_turn-fresh limit t end error (reserved r) fresh)
      (answered t _ _
        (recorded-Ended limit t error _ _ (finished t (reserved r) _ refl refl none_active)))

-- After a reservation, a response that names another turn than the notification of an unpublished
-- turn is an error, which gives the reservation up.
pub bind_start-mismatch :
    (limit : ℕ) (t returned : String) (r r' : SessionRuntime)
    → reserve r ≡ ok r'
    → contains t r.published_terminal_ids ≡ false
    → t ≢ returned
    → bind_start returned (turn_started limit t r') ≡ (
      cancelled (turn_started limit t r'),
      err (protocol_error "turn/start response id mismatches notification id"),
    )
unfolding reserve require_attached turn_started bind_start append_event
bind_start-mismatch limit t returned r r' h fresh other =
    let (same, here, idle) = reserve-inverse r r' h in
    let differ : (t == returned) ≡ false = ground (arith, eq_iff t returned, other) in
    rw (same, fresh, differ) refl
