-- ===== src/Runtime/Sessions.antt =====
-- Every operation on one session, in whatever state and with whatever outcome, keeps its invariant.
use superdev.Base.{
  ◌==◌, nat_eq, string_eq, pair_eq, option_string_eq, Bool-cases, Option-cases, is_some, if_both,
  contains, Ensures, Ensures-bind, Result, ok, Dict, erase, length-erase-le, ℕ, String, ◌≡◌, refl,
  inl, inr, Bool, true, false, not, ◌&&◌, Option, none, some, List, [], ◌∷◌, arith,
}
use superdev.Json.{get, Json, Fields}
use superdev.Models.{ErrorDetail, ItemRecord, TurnSnapshot, SessionRecord}
use superdev.Runtime.{
  removable, mark_terminal_published, retain_terminal, RuntimeError, SessionRuntime,
}
use superdev.Runtime.Starts.{attached_as, reserved, reserve, cancelled, bind_start}
use superdev.Runtime.Notify.{detach_session}
use superdev.Runtime.Turns.{
  turn_error, turn_of, turn_started, finish_active, complete_turn, status_of, turn_completed,
  is_current_turn, collect_item, item_of, record_item, item_completed, approval_declined,
  turn_started_by, turn_completed_by, apply_notification,
}
use superdev.Runtime.Reconcile.{set_active, reconcile_session}
use superdev.Runtime.Owners.{
  session-turn_started, session-complete_turn, session-item_completed, session-approval_declined,
}
use superdev.Runtime.Invariant.{
  append_event-IsValid, mark_terminal_published-IsValid, retain_terminal-IsValid, IsValid,
}

removable-erase :
    (t : String) (publishing : List String) (turns : Dict String TurnSnapshot)
    → removable publishing turns ≡ none
    → removable publishing (erase t turns) ≡ none
removable-erase t publishing [] h = refl
removable-erase t publishing ((u, turn) ∷ turns) h =
    ground (arith, removable-erase t publishing turns)

module _ {limit : ℕ} {r : SessionRuntime} (v : IsValid limit r) where
  -- A change outside the events, the published ids and the terminal turns needs its flags right.
  pub flags-IsValid :
      (session : SessionRecord) (attached : Bool) (active : Option String) (pending awaiting : Bool)
      (observed : Option String) (latest : Option TurnSnapshot)
      (items : Dict String (List ItemRecord))
      → (pending ≡ true → awaiting ≡ true)
      → (awaiting ≡ false → observed ≡ none)
      → IsValid limit (record r {
        session = session;
        attached = attached;
        active_turn_id = active;
        start_pending = pending;
        awaiting_start_response = awaiting;
        observed_start_turn_id = observed;
        latest_turn = latest;
        items = items;
      })
  flags-IsValid session attached active pending awaiting observed latest items p q = record {
    bounded = v.bounded;
    positive = v.positive;
    numbered = v.numbered;
    remembered = v.remembered;
    trimmed = v.trimmed;
    reserved = p;
    unobserved = q;
  }

  pub attached_as-IsValid : (session : SessionRecord) → IsValid limit (attached_as session r)
  attached_as-IsValid session = flags-IsValid _ _ _ _ _ _ _ _ v.reserved v.unobserved

  pub cancelled-IsValid : IsValid limit (cancelled r)
  cancelled-IsValid = flags-IsValid _ _ _ _ _ _ _ _ (λ p. cc) (λ p. refl)

  pub release-IsValid :
      (t : String) → IsValid limit (record r { terminal_turns = erase t r.terminal_turns })
  release-IsValid t = record {
    bounded = v.bounded;
    positive = v.positive;
    numbered = v.numbered;
    remembered = v.remembered;
    trimmed = λ over.
        removable-erase t r.publishing_terminal_ids r.terminal_turns
          (v.trimmed (ground (arith, over, length-erase-le t r.terminal_turns)));
    reserved = v.reserved;
    unobserved = v.unobserved;
  }

  pub collect_item-IsValid :
      (t : Option String) (item : ItemRecord) → IsValid limit (collect_item t item r)
  unfolding collect_item
  collect_item-IsValid none item = v
  collect_item-IsValid (some t) item = elim (Bool-cases (is_current_turn t r)) [
    | inl current ↦ rw current (flags-IsValid _ _ _ _ _ _ _ _ v.reserved v.unobserved)
    | inr other ↦ rw other v
  ]

  pub finish_active-IsValid : (t : String) → IsValid limit (finish_active t r)
  unfolding finish_active
  finish_active-IsValid t =
      flags-IsValid _ _ _ _ _ _ _ _ (ground (arith, v.reserved)) (ground (arith, v.unobserved))

  pub bind_start-IsValid : (t : String) → IsValid limit (bind_start t r).0
  unfolding bind_start
  bind_start-IsValid t =
      let P = λ (p : SessionRuntime × Result RuntimeError (Unit {0})). IsValid limit p.0 in
      if_both P (not r.awaiting_start_response) v (
        if_both P (is_some r.observed_start_turn_id)
          (if_both P (r.observed_start_turn_id == some t) cancelled-IsValid cancelled-IsValid)
          (if_both P (is_some r.active_turn_id && not (r.active_turn_id == some t))
            cancelled-IsValid (flags-IsValid _ _ _ _ _ _ _ _ (λ p. cc) (λ p. refl))))

  pub reserved-IsValid : IsValid limit (reserved r)
  reserved-IsValid = flags-IsValid _ _ _ _ _ _ _ _ (λ p. refl) (λ p. cc)

  pub reserve-IsValid : {r' : SessionRuntime} → reserve r ≡ ok r' → IsValid limit r'
  unfolding reserve
  reserve-IsValid {r'} h = let e : r' ≡ reserved r = ground arith in rw e reserved-IsValid

  pub turn_started-IsValid : (t : String) → IsValid limit (turn_started limit t r)
  unfolding turn_started
  turn_started-IsValid t =
      elim (Bool-cases (contains t r.published_terminal_ids && not r.awaiting_start_response)) [
        | inl stale ↦ rw stale v
        | inr fresh ↦ rw fresh (
            append_event-IsValid
              (flags-IsValid _ _ _ _ _ _ _ _ (λ p. cc) (ground (arith, v.unobserved)))
              "turn_started" (some t) none none)
      ]

-- The common end of the operations that record a terminal turn.
record_terminal-IsValid :
    {limit : ℕ} {r : SessionRuntime} (t : TurnSnapshot) (k : String)
    → IsValid limit r
    → IsValid limit (
        retain_terminal limit t
          (mark_terminal_published limit k r).1
          (mark_terminal_published limit k r).0)
record_terminal-IsValid t k v = retain_terminal-IsValid t _ (mark_terminal_published-IsValid v k)

module _ {limit : ℕ} {r : SessionRuntime} (v : IsValid limit r) where
  pub complete_turn-IsValid :
      (t status : String) (error : Option ErrorDetail)
      → IsValid limit (complete_turn limit t status error r).0
  unfolding complete_turn
  complete_turn-IsValid t status error =
      if_both (λ (p : SessionRuntime × Option TurnSnapshot). IsValid limit p.0)
        (contains t r.published_terminal_ids && not (r.active_turn_id == some t)) v
        (append_event-IsValid
          (record_terminal-IsValid _ t (
            let f = finish_active-IsValid v t in
            flags-IsValid f _ _ _ _ _ _ _ _ f.reserved f.unobserved))
          "turn_completed" (some t) none error)

  pub record_item-IsValid :
      (turn_id : Option String) (item : Option ItemRecord)
      → IsValid limit (record_item limit turn_id item r)
  unfolding record_item
  record_item-IsValid turn_id none = v
  record_item-IsValid turn_id (some item) =
      append_event-IsValid (collect_item-IsValid v turn_id item) "item_completed" turn_id
        (some item) none

  pub item_completed-IsValid : (params : Fields) → IsValid limit (item_completed limit params r)
  unfolding item_completed
  item_completed-IsValid params = record_item-IsValid _ (item_of params)

  pub approval_declined-IsValid :
      (str : Json → String) (params : Fields) → IsValid limit (approval_declined str limit params r)
  unfolding approval_declined
  approval_declined-IsValid str params = append_event-IsValid v "approval_declined" _ _ none

  pub detach_session-IsValid :
      (reason : ErrorDetail) → IsValid limit (detach_session limit reason r).0
  unfolding detach_session
  detach_session-IsValid reason = elim (Option-cases r.active_turn_id) [
    | inl idle ↦
        rw (idle, detach_session)
          (append_event-IsValid (flags-IsValid v _ _ _ _ _ _ _ _ (λ p. cc) (λ p. refl))
            "transport_error" none none (some reason))
    | inr (t, lost) ↦
        rw (lost, detach_session)
          (append_event-IsValid
            (retain_terminal-IsValid _ true (flags-IsValid v _ _ _ _ _ _ _ _ (λ p. cc) (λ p. refl)))
            "transport_error" (some t) none (some reason))
  ]

  pub set_active-IsValid : (active : Option TurnSnapshot) → IsValid limit (set_active active r)
  set_active-IsValid none = flags-IsValid v _ _ _ _ _ _ _ _ v.reserved v.unobserved
  set_active-IsValid (some t) =
      flags-IsValid v _ _ _ _ _ _ _ _ v.reserved (ground (arith, v.unobserved))

  pub reconcile_session-IsValid :
      (active terminal : Option TurnSnapshot)
      → IsValid limit (reconcile_session limit active terminal r).0
  unfolding reconcile_session
  reconcile_session-IsValid active none = set_active-IsValid active
  reconcile_session-IsValid active (some t) =
      record_terminal-IsValid t t.turn_id (
        let f = set_active-IsValid active in
        flags-IsValid f _ _ _ _ _ _ _ _ f.reserved f.unobserved)

-- What a notification leaves: a valid state of the same session.
abbrev pub Keeps : ℕ → SessionRuntime → SessionRuntime → Type 0
Keeps limit r r' = IsValid limit r' × (r'.session ≡ r.session)

module _ {limit : ℕ} {r : SessionRuntime} (v : IsValid limit r) where
  turn_started_by-Keeps : (t : Option (String × Fields)) → Keeps limit r (turn_started_by limit t r)
  turn_started_by-Keeps none = (v, refl)
  turn_started_by-Keeps (some (t, _)) = (turn_started-IsValid v t, session-turn_started limit r t)

  turn_completed_by-Keeps :
      (t : Option (String × Fields))
      → Ensures (λ p. Keeps limit r p.0) (turn_completed_by limit t r)
  unfolding turn_completed
  turn_completed_by-Keeps none = (v, refl)
  turn_completed_by-Keeps (some (t, turn)) =
      if_both (Ensures (λ p. Keeps limit r p.0))
        (contains t r.published_terminal_ids && not (r.active_turn_id == some t)) (v, refl)
        (Ensures-bind (λ p. Keeps limit r p.0) (turn_error (status_of turn) (get "error" turn)) _
          (λ error made. (
            complete_turn-IsValid v t (status_of turn) error,
            session-complete_turn limit r t (status_of turn) error,
          )))

  pub apply_notification-Keeps :
      (str : Json → String) (method : String) (params : Fields)
      → Ensures (λ p. Keeps limit r p.0) (apply_notification str limit method params r)
  unfolding apply_notification
  apply_notification-Keeps str method params =
      let P =
        Ensures {E = RuntimeError}
          (λ (p : SessionRuntime × Option TurnSnapshot). Keeps limit r p.0) in
      if_both P (method == "turn/started") (turn_started_by-Keeps (turn_of params)) (
        if_both P (method == "turn/completed") (turn_completed_by-Keeps (turn_of params)) (
          if_both P (method == "item/completed")
            (item_completed-IsValid v params, session-item_completed limit r params)
            (approval_declined-IsValid v str params, session-approval_declined limit r str params)))
