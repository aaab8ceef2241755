-- ===== src/Callbacks/Checks.antt =====
-- A constructor that returns gives the record that it was asked for, and it has passed the checks.
use superdev.Base.{
  ◌==◌, nat_eq, string_eq, pair_eq, option_string_eq, is_some, Result-cases, ok, err, ℕ, String,
  ◌≡◌, ap, ◌∙◌, ◌⊎◌, inl, inr, false, not, ◌&&◌, Option, arith,
}
use superdev.Callbacks.{
  callback_attempt_view, callback_binding, is_pending, is_foreign, callback_outbox_entry,
  CallbackAttemptState, CallbackAttemptView, CallbackBinding, CallbackOutboxEntry,
}

callback_binding-eq-ok :
    (b : CallbackBinding) {b' : CallbackBinding}
    → callback_binding b ≡ ok b'
    → (b' ≡ b) × ((b.session_id == "") ≡ false)
unfolding callback_binding
callback_binding-eq-ok b h = ground (arith, h)

callback_outbox_entry-eq-ok :
    (e : CallbackOutboxEntry) {e' : CallbackOutboxEntry}
    → callback_outbox_entry e ≡ ok e'
    → (e' ≡ e) × ((is_pending e.state && not (is_some e.event)) ≡ false) × (is_foreign e ≡ false)
unfolding callback_outbox_entry
callback_outbox_entry-eq-ok e h = ground (arith, h)

callback_attempt_view-eq-ok :
    (event_id : String) (state : CallbackAttemptState) (reason attempted_at : Option String)
    (attempt_count : ℕ) (turn_id : Option String) {v : CallbackAttemptView}
    → callback_attempt_view event_id state reason attempted_at attempt_count turn_id ≡ ok v
    → v ≡ record {
      event_id = event_id;
      state = state;
      reason = reason;
      attempted_at = attempted_at;
      attempt_count = attempt_count;
      turn_id = turn_id;
    }
unfolding callback_attempt_view
callback_attempt_view-eq-ok event_id state reason attempted_at attempt_count turn_id h =
    ground (arith, h)

pub callback_binding-cases :
    (b : CallbackBinding)
    → (callback_binding b ≡ ok b) ⊎ ((m : String) × (callback_binding b ≡ err m))
callback_binding-cases b = elim (Result-cases (callback_binding b)) [
  | inl (b', h) ↦ let (same, _) = callback_binding-eq-ok b h in inl (h ∙ ap (λ x. ok x) same)
  | inr (m, h) ↦ inr (m, h)
]

pub callback_outbox_entry-cases :
    (e : CallbackOutboxEntry)
    → ((callback_outbox_entry e ≡ ok e)
        × ((is_pending e.state && not (is_some e.event)) ≡ false)
        × (is_foreign e ≡ false))
      ⊎ ((m : String) × (callback_outbox_entry e ≡ err m))
callback_outbox_entry-cases e = elim (Result-cases (callback_outbox_entry e)) [
  | inl (e', h) ↦
      let (same, full, own) = callback_outbox_entry-eq-ok e h in
      inl (h ∙ ap (λ x. ok x) same, full, own)
  | inr (m, h) ↦ inr (m, h)
]

abbrev pub attempt_of :
    String
    → CallbackAttemptState
    → Option String
    → Option String
    → ℕ
    → Option String
    → CallbackAttemptView
attempt_of event_id state reason attempted_at attempt_count turn_id = record {
  event_id = event_id;
  state = state;
  reason = reason;
  attempted_at = attempted_at;
  attempt_count = attempt_count;
  turn_id = turn_id;
}

pub callback_attempt_view-cases :
    (event_id : String) (state : CallbackAttemptState) (reason attempted_at : Option String) (n : ℕ)
    (turn_id : Option String)
    → (callback_attempt_view event_id state reason attempted_at n turn_id
        ≡ ok (attempt_of event_id state reason attempted_at n turn_id))
      ⊎ ((m : String) × (callback_attempt_view event_id state reason attempted_at n turn_id
            ≡ err m))
callback_attempt_view-cases event_id state reason attempted_at n turn_id =
    elim (Result-cases (callback_attempt_view event_id state reason attempted_at n turn_id)) [
      | inl (v, h) ↦ inl (
          h
          ∙ ap (λ x. ok x)
              (callback_attempt_view-eq-ok event_id state reason attempted_at n turn_id h))
      | inr (m, h) ↦ inr (m, h)
    ]
