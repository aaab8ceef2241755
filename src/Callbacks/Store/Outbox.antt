-- ===== src/Callbacks/Store/Outbox.antt =====
-- A terminal event is queued once, and what is shown of the attempts is what was recorded.
use mathlib.Core.Path.{subst}
use superdev.Base.{
  if◌then◌else◌, string_eq, ◌==◌, nat_eq, pair_eq, option_string_eq, Bool-cases, Option-cases,
  is_some, length, keep, contains, ok, Dict, keys, values, lookup, insert, contains-keys,
  lookup-insert_self, ◌+◌, String, ◌≡◌, refl, sym, ap, ◌∙◌, inl, inr, true, false, ◌&&◌, Option,
  none, some, eq_iff,
}
use superdev.Callbacks.{
  terminal_turn_id, is_pending, CallbackAttemptView, CallbackStatusView, CallbackEvent,
  CallbackBinding, CallbackOutboxEntry, attempt_written, pending_entry, written_entry,
}
use superdev.Callbacks.Checks.{callback_outbox_entry-cases}
use superdev.Callbacks.Store.{
  sort_keys, write, enqueue_terminal, find_entry, record_written, callback_status, CallbackStore,
}
use superdev.Callbacks.Store.Sorting.{lookup-sort_keys}
use superdev.Callbacks.Store.Effects.{with_attempt, record_attempt-Recorded, Recorded}

-- The answers of `enqueue_terminal` for an event that is there.
enqueue_terminal-found :
    (session_id : String) (event : CallbackEvent) (s : CallbackStore) (e : CallbackOutboxEntry)
    → contains session_id (keys s.bindings) ≡ true
    → lookup event.event_id s.outbox ≡ some e
    → e.session_id ≡ session_id
    → enqueue_terminal session_id event s ≡ ok (s, if is_pending e.state then some e else none)
unfolding enqueue_terminal
enqueue_terminal-found session_id event s e bound found own =
    let same : (e.session_id == session_id) ≡ true = (eq_iff e.session_id session_id).1 own in
    rw (bound, found, same, enqueue_terminal) refl

sorted-bound :
    (k : String) (s : CallbackStore)
    → contains k (keys s.bindings) ≡ true
    → contains k (keys (sort_keys s.bindings)) ≡ true
sorted-bound k s h =
    contains-keys k (sort_keys s.bindings)
    ∙ ap (λ o. is_some o) (lookup-sort_keys k s.bindings)
    ∙ sym (contains-keys k s.bindings)
    ∙ h

sorted-found :
    (k : String) (e : CallbackOutboxEntry) (d : Dict String CallbackOutboxEntry)
    → lookup k (sort_keys (insert k e d)) ≡ some e
sorted-found k e d = lookup-sort_keys k (insert k e d) ∙ lookup-insert_self k e d

-- What a call of `enqueue_terminal` leaves behind: an entry of its session under the event's id.
pub record Queued (session_id event_id : String) (s : CallbackStore)
    (answer : Option CallbackOutboxEntry) : Type 0 where
  pub entry : CallbackOutboxEntry
  pub bound : contains session_id (keys s.bindings) ≡ true
  pub found : lookup event_id s.outbox ≡ some entry
  pub own : entry.session_id ≡ session_id
  pub answered : (if is_pending entry.state then some entry else none) ≡ answer

pub enqueue_terminal-Queued :
    (session_id : String) (event : CallbackEvent) (s s' : CallbackStore)
    (e : Option CallbackOutboxEntry)
    → enqueue_terminal session_id event s ≡ ok (s', e)
    → Queued session_id event.event_id s' e
unfolding enqueue_terminal write
enqueue_terminal-Queued session_id event s s' e h =
    elim (Bool-cases (contains session_id (keys s.bindings))) [
      | inr missing ↦ cc (rw (missing, enqueue_terminal) at h)
      | inl bound ↦ elim (Option-cases (lookup event.event_id s.outbox)) [
        | inr (old, found) ↦ elim (Bool-cases (old.session_id == session_id)) [
          | inl own ↦
              let result = rw (bound, found, own, enqueue_terminal) at h in
              let same : s ≡ s' = cc result in
              subst (λ x. Queued session_id event.event_id x e) same
                (record {
                  entry = old;
                  bound = bound;
                  found = found;
                  own = (eq_iff old.session_id session_id).0 own;
                  answered = cc result;
                })
          | inr foreign ↦ cc (rw (bound, found, foreign, enqueue_terminal) at h)
        ]
        | inl new ↦
            let entry : CallbackOutboxEntry = record {
              event_id = event.event_id;
              session_id = session_id;
              event = some event;
              state = pending_entry;
              attempt_count = 0;
              last_error = none;
            } in
            elim (callback_outbox_entry-cases entry) [
              | inr (m, refused) ↦ cc (rw (bound, new, refused, enqueue_terminal) at h)
              | inl (built, _, _) ↦
                  let s₁ = write (record s { outbox = insert event.event_id entry s.outbox }) in
                  let result = rw (bound, new, built, enqueue_terminal) at h in
                  let stored : s₁ ≡ s' = cc result in
                  subst (λ x. Queued session_id event.event_id x e) stored
                    (record {
                      entry = entry;
                      bound = sorted-bound session_id s bound;
                      found = sorted-found event.event_id entry s.outbox;
                      own = refl;
                      answered = cc result;
                    })
            ]
      ]
    ]

-- Another event with the same id is answered with the entry that is there.
pub enqueue_terminal-again :
    (session_id : String) (event : CallbackEvent) (s : CallbackStore)
    (e : Option CallbackOutboxEntry)
    → Queued session_id event.event_id s e
    → enqueue_terminal session_id event s ≡ ok (s, e)
enqueue_terminal-again session_id event s e q =
    enqueue_terminal-found session_id event s q.entry q.bound q.found q.own
    ∙ ap (λ x. ok (s, x)) q.answered

-- Queueing is idempotent: an event that has been queued is answered again in the same way, and the
-- file does not change.
pub enqueue_terminal-twice :
    (session_id : String) (event : CallbackEvent) (s s' : CallbackStore)
    (e : Option CallbackOutboxEntry)
    → enqueue_terminal session_id event s ≡ ok (s', e)
    → enqueue_terminal session_id event s' ≡ ok (s', e)
enqueue_terminal-twice session_id event s s' e h =
    enqueue_terminal-again session_id event s' e (enqueue_terminal-Queued session_id event s s' e h)

-- What a recorded attempt leaves behind.
Recorded-read :
    (event_id : String) (e : CallbackOutboxEntry) (s s' : CallbackStore)
    → Recorded event_id e s s'
    → (lookup event_id s'.outbox ≡ some e)
      × ((b : CallbackBinding) × (attempt : CallbackAttemptView) × (lookup e.session_id s'.bindings
            ≡ some (with_attempt attempt b))
          × (attempt.event_id ≡ event_id)
          × (attempt.attempt_count ≡ e.attempt_count))
Recorded-read event_id e s s' r =
    let self = (eq_iff event_id event_id).1 refl in
    let own = (eq_iff e.session_id e.session_id).1 refl in
    (
      r.entries event_id ∙ rw self refl,
      (r.b, r.attempt, r.attempts e.session_id ∙ rw own refl, r.named, r.counted),
    )

find_entry-found :
    (event_id : String) (e : CallbackOutboxEntry) (s : CallbackStore)
    → lookup event_id s.outbox ≡ some e
    → find_entry event_id s ≡ ok e
unfolding find_entry
find_entry-found event_id e s found = rw (found, find_entry) refl

-- `record_written`, on an entry that was waiting.
record_written-waiting :
    (event_id attempted_at : String) (s s' : CallbackStore) (e old : CallbackOutboxEntry)
    → record_written event_id attempted_at s ≡ ok (s', e)
    → lookup event_id s.outbox ≡ some old
    → is_pending old.state ≡ true
    → Recorded event_id e s s'
      × (e ≡ record old {
        event = none;
        state = written_entry;
        attempt_count = old.attempt_count + 1;
        last_error = none;
      })
unfolding record_written
record_written-waiting event_id attempted_at s s' e old h found waits =
    elim (Bool-cases (attempted_at == "")) [
      | inl undated ↦ cc (rw (undated, record_written) at h)
      | inr dated ↦
          let got = find_entry-found event_id old s found in
          let entry : CallbackOutboxEntry = record old {
            event = none;
            state = written_entry;
            attempt_count = old.attempt_count + 1;
            last_error = none;
          } in
          let (same, r) =
            record_attempt-Recorded event_id entry attempt_written none attempted_at
              (terminal_turn_id old.event) s (rw (dated, got, waits, record_written) at h) in
          (subst (λ x. Recorded event_id x s s') (sym same) r, same)
    ]

-- Once its writing has been recorded, an event that was pending is not queued again: the caller is told that there
-- is nothing to send, and the status of the session shows the attempt, with its number.
pub record_written-final :
    (event_id attempted_at : String) (event : CallbackEvent) (s s' : CallbackStore)
    (e old : CallbackOutboxEntry)
    → record_written event_id attempted_at s ≡ ok (s', e)
    → lookup event_id s.outbox ≡ some old
    → is_pending old.state ≡ true
    → event.event_id ≡ event_id
    → (enqueue_terminal old.session_id event s' ≡ ok (s', none))
      × ((v : CallbackStatusView) × (attempt : CallbackAttemptView) × (callback_status
              old.session_id s'
            ≡ ok v)
          × (v.last_terminal_attempt ≡ some attempt)
          × (attempt.event_id ≡ event_id)
          × (attempt.attempt_count ≡ old.attempt_count + 1))
unfolding callback_status
record_written-final event_id attempted_at event s s' e old h found waits named =
    let (r, same) = record_written-waiting event_id attempted_at s s' e old h found waits in
    let (stored, (b, attempt, bound, about, counted)) = Recorded-read event_id e s s' r in
    let own : e.session_id ≡ old.session_id = ap (λ x. x.session_id) same in
    let bound' : lookup old.session_id s'.bindings ≡ some (with_attempt attempt b) =
      subst (λ k. lookup k s'.bindings ≡ some (with_attempt attempt b)) own bound in
    let stored' : lookup event.event_id s'.outbox ≡ some e = rw named stored in
    let done : is_pending e.state ≡ false = ap (λ x. is_pending x.state) same in
    (
      enqueue_terminal-found old.session_id event s' e
            (contains-keys old.session_id s'.bindings ∙ rw bound' refl) stored' own
          ∙ rw done refl,
      (
        record {
          state = b.state;
          pending_terminal_count = length (
              keep (λ x. (x.session_id == old.session_id) && is_pending x.state)
                (values s'.outbox));
          last_terminal_attempt = some attempt;
        },
        attempt,
        rw (bound', callback_status) refl,
        refl,
        about,
        counted ∙ ap (λ x. x.attempt_count) same,
      ),
    )
