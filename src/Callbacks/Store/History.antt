-- ===== src/Callbacks/Store/History.antt =====
-- The calls that bind, queue and record attempts, in any order. `replace_snapshot`, which puts another
-- file in place, is not among them.
use mathlib.Core.Path.{subst}
use superdev.Base.{
  string_eq, ◌==◌, nat_eq, pair_eq, option_string_eq, Bool-cases, Option-cases, contains, ok, Dict,
  keys, lookup, insert, lookup-insert, String, ◌≡◌, refl, ap, ◌∙◌, inl, inr, false, Option, none,
  some, arith, eq_iff,
}
use superdev.Callbacks.{
  CallbackAttemptView, CallbackEvent, CallbackBinding, CallbackOutboxEntry, attempt_failed,
  pending_entry,
}
use superdev.Callbacks.Checks.{callback_outbox_entry-cases, attempt_of, callback_attempt_view-cases}
use superdev.Callbacks.Store.{
  sort_keys, write, same_binding, bind, enqueue_terminal, record_failed, record_written, next_count,
  record_terminal_fault, CallbackStore,
}
use superdev.Callbacks.Store.Sorting.{lookup-sort_keys}
use superdev.Callbacks.Store.Effects.{with_attempt, set_attempt-cases}
use superdev.Callbacks.Store.Progress.{
  EntryAdvances-refl, Advances-refl, Advances-trans, unchanged-Advances, record_failed-Advances,
  record_written-Advances, Advances,
}

Keeps {ℓ} : {V : Type ℓ} → Dict String V → Dict String V → Type ℓ
Keeps {V} d d' = (k : String) (v : V) → lookup k d ≡ some v → lookup k d' ≡ some v

sort_keys-Keeps {ℓ} : {V : Type ℓ} (d : Dict String V) → Keeps d (sort_keys d)
unfolding Keeps
sort_keys-Keeps d k v h = lookup-sort_keys k d ∙ h

insert-Keeps {ℓ} :
    {V : Type ℓ} (j : String) (w : V) (d : Dict String V)
    → lookup j d ≡ none
    → Keeps d (sort_keys (insert j w d))
unfolding Keeps
insert-Keeps j w d new k v h = elim (Bool-cases (j == k)) [
  | inl same ↦ let key : j ≡ k = (eq_iff j k).0 same in absurd (cc (new, h, key))
  | inr other ↦ lookup-sort_keys k (insert j w d) ∙ lookup-insert j k w d ∙ rw other h
]

Keeps-Advances :
    {s s' : CallbackStore} → Keeps s.bindings s'.bindings → Keeps s.outbox s'.outbox → Advances s s'
unfolding Keeps
Keeps-Advances p q = record {
  routes = λ k b h. (b, p k b h, refl);
  entries = λ k e h. (e, q k e h, EntryAdvances-refl e);
}

bind-Advances :
    (b : CallbackBinding) (s : CallbackStore) {s' : CallbackStore}
    → bind b s ≡ ok s'
    → Advances s s'
unfolding bind write
bind-Advances b s {s'} h = elim (Option-cases (lookup b.session_id s.bindings)) [
  | inl new ↦
      let stored : write (record s { bindings = insert b.session_id b s.bindings }) ≡ s' =
        cc (rw (new, bind) at h) in
      subst (λ x. Advances s x) stored
        (Keeps-Advances (insert-Keeps b.session_id b s.bindings new) (sort_keys-Keeps s.outbox))
  | inr (old, found) ↦ elim (Bool-cases (same_binding old b)) [
    | inl same ↦
        let kept : s ≡ s' = cc (rw (found, same, bind) at h) in
        subst (λ x. Advances s x) kept (Advances-refl s)
    | inr other ↦ cc (rw (found, other, bind) at h)
  ]
]

enqueue_terminal-Advances :
    (session_id : String) (event : CallbackEvent) (s : CallbackStore) {s' : CallbackStore}
    {e : Option CallbackOutboxEntry}
    → enqueue_terminal session_id event s ≡ ok (s', e)
    → Advances s s'
unfolding enqueue_terminal write
enqueue_terminal-Advances session_id event s {s'} {e} h =
    elim (Bool-cases (contains session_id (keys s.bindings))) [
      | inr missing ↦ cc (rw (missing, enqueue_terminal) at h)
      | inl bound ↦ elim (Option-cases (lookup event.event_id s.outbox)) [
        | inr (old, found) ↦ elim (Bool-cases (old.session_id == session_id)) [
          | inl own ↦ unchanged-Advances (rw (bound, found, own, enqueue_terminal) at h)
          | inr foreign ↦ cc (rw (bound, found, foreign, enqueue_terminal) at h)
        ]
        | inl new ↦
            let entry : CallbackOutboxEntry = record {
              event_id = event.event_id;
              session_id = session_id;
              event = some event;
              state = pending_entry;
              attempt_count = 0;
              last_error = none;
            } in
            elim (callback_outbox_entry-cases entry) [
              | inr (m, refused) ↦ cc (rw (bound, new, refused, enqueue_terminal) at h)
              | inl (built, _, _) ↦
                  let stored : write (record s { outbox = insert event.event_id entry s.outbox })
                      ≡ s' =
                    cc (rw (bound, new, built, enqueue_terminal) at h) in
                  subst (λ x. Advances s x) stored
                    (Keeps-Advances (sort_keys-Keeps s.bindings)
                      (insert-Keeps event.event_id entry s.outbox new))
            ]
      ]
    ]

-- An attempt that is set on a binding changes nothing else of the store.
set_attempt-Advances :
    (session_id : String) (attempt : CallbackAttemptView) (b : CallbackBinding) (s : CallbackStore)
    → lookup session_id s.bindings ≡ some b
    → Advances s
        (write (record s { bindings = insert session_id (with_attempt attempt b) s.bindings }))
unfolding write
set_attempt-Advances session_id attempt b s bound = record {
  routes = λ k x h. elim (Bool-cases (session_id == k)) [
    | inl own ↦
        let key : session_id ≡ k = (eq_iff session_id k).0 own in
        let same : b ≡ x = cc (bound, h, key) in
        (
          record x { last_terminal_attempt = some attempt },
          lookup-sort_keys k (insert session_id (with_attempt attempt b) s.bindings)
              ∙ lookup-insert session_id k (with_attempt attempt b) s.bindings
              ∙ rw own (ap (λ y. some (with_attempt attempt y)) same),
          refl,
        )
    | inr other ↦ (
      x,
      lookup-sort_keys k (insert session_id (with_attempt attempt b) s.bindings)
          ∙ lookup-insert session_id k (with_attempt attempt b) s.bindings
          ∙ rw other h,
      refl,
    )
  ];
  entries = λ k e h. (e, lookup-sort_keys k s.outbox ∙ h, EntryAdvances-refl e);
}

-- A fault that is recorded has passed the checks of its arguments.
record_terminal_fault-checked :
    (session_id event_id error attempted_at : String) (turn_id : Option String) (s : CallbackStore)
    {r : CallbackStore × CallbackAttemptView}
    → record_terminal_fault session_id event_id error attempted_at turn_id s ≡ ok r
    → ((session_id == "") ≡ false)
      × ((event_id == "") ≡ false)
      × ((error == "") ≡ false)
      × ((attempted_at == "") ≡ false)
unfolding record_terminal_fault
record_terminal_fault-checked session_id event_id error attempted_at turn_id s h = ground (arith, h)

record_terminal_fault-Advances :
    (session_id event_id error attempted_at : String) (turn_id : Option String) (s : CallbackStore)
    {s' : CallbackStore} {v : CallbackAttemptView}
    → record_terminal_fault session_id event_id error attempted_at turn_id s ≡ ok (s', v)
    → Advances s s'
unfolding record_terminal_fault
record_terminal_fault-Advances session_id event_id error attempted_at turn_id s {s'} {v} h =
    let (c₀, c₁, c₂, c₃) =
      record_terminal_fault-checked session_id event_id error attempted_at turn_id s h in
    elim (Option-cases (lookup session_id s.bindings)) [
      | inl missing ↦ cc (rw (c₀, c₁, c₂, c₃, missing, record_terminal_fault) at h)
      | inr (b, found) ↦
          let n = next_count event_id b.last_terminal_attempt in
          let attempt =
            attempt_of event_id attempt_failed (some error) (some attempted_at) n turn_id in
          elim (callback_attempt_view-cases event_id attempt_failed (some error) (some attempted_at)
            n turn_id) [
              | inr (m, refused) ↦
                  cc (rw (c₀, c₁, c₂, c₃, found, refused, record_terminal_fault) at h)
              | inl viewed ↦ elim (set_attempt-cases session_id attempt s) [
                | inr (m, refused) ↦
                    cc (rw (c₀, c₁, c₂, c₃, found, viewed, refused, record_terminal_fault) at h)
                | inl (b', bound, marked) ↦
                    let stored : write (record s {
                      bindings = insert session_id (with_attempt attempt b') s.bindings;
                    })
                        ≡ s' =
                      cc (rw (c₀, c₁, c₂, c₃, found, viewed, marked, record_terminal_fault) at h) in
                    subst (λ x. Advances s x) stored
                      (set_attempt-Advances session_id attempt b' s bound)
              ]
            ]
    ]

-- One call of the store that returns, other than `replace_snapshot`; reading it changes nothing.
pub data Step : CallbackStore → CallbackStore → Type 0 where
  binding_made : {s s' : CallbackStore} (b : CallbackBinding) → bind b s ≡ ok s' → Step s s'
  event_queued :
      {s s' : CallbackStore} {e : Option CallbackOutboxEntry} (session_id : String)
      (event : CallbackEvent)
      → enqueue_terminal session_id event s ≡ ok (s', e)
      → Step s s'
  attempt_failed_on :
      {s s' : CallbackStore} {e : CallbackOutboxEntry} (event_id error attempted_at : String)
      → record_failed event_id error attempted_at s ≡ ok (s', e)
      → Step s s'
  event_sent :
      {s s' : CallbackStore} {e : CallbackOutboxEntry} (event_id attempted_at : String)
      → record_written event_id attempted_at s ≡ ok (s', e)
      → Step s s'
  fault_noted :
      {s s' : CallbackStore} {v : CallbackAttemptView}
      (session_id event_id error attempted_at : String) (turn_id : Option String)
      → record_terminal_fault session_id event_id error attempted_at turn_id s ≡ ok (s', v)
      → Step s s'

pub data Steps : CallbackStore → CallbackStore → Type 0 where
  stay : {s : CallbackStore} → Steps s s
  then_step : {s s' s'' : CallbackStore} → Step s s' → Steps s' s'' → Steps s s''

Step-Advances : {s s' : CallbackStore} → Step s s' → Advances s s'
Step-Advances {s} (binding_made b h) = bind-Advances b s h
Step-Advances {s} (event_queued session_id event h) = enqueue_terminal-Advances session_id event s h
Step-Advances {s} (attempt_failed_on event_id error attempted_at h) =
    record_failed-Advances event_id error attempted_at s h
Step-Advances {s} (event_sent event_id attempted_at h) =
    record_written-Advances event_id attempted_at s h
Step-Advances {s} (fault_noted session_id event_id error attempted_at turn_id h) =
    record_terminal_fault-Advances session_id event_id error attempted_at turn_id s h

-- Whatever calls of `bind`, `enqueue_terminal`, `record_failed`, `record_written` and
-- `record_terminal_fault` return, in whatever order: a binding stays, with its route, and an entry stays,
-- with its names, counts its attempts up, keeps its event as long as it is pending, and never
-- changes again once it has been written.
pub Steps-Advances : {s s' : CallbackStore} → Steps s s' → Advances s s'
Steps-Advances {s} stay = Advances-refl s
Steps-Advances (then_step first rest) = Advances-trans (Step-Advances first) (Steps-Advances rest)
