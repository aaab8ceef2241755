-- ===== src/Callbacks/Store/Progress.antt =====
-- The life of a binding and of an outbox entry under the operations of the store.
use mathlib.Core.Path.{subst}
use superdev.Base.{
  ◌==◌, nat_eq, string_eq, pair_eq, option_string_eq, Bool-cases, Option-cases, Result, ok, err,
  lookup, ◌+◌, ◌≤◌, String, ◌≡◌, refl, ap, ◌∙◌, ◌⊎◌, inl, inr, true, false, Option, none, some,
  arith, eq_iff,
}
use superdev.Callbacks.{
  terminal_turn_id, is_pending, CallbackEvent, CallbackBinding, CallbackOutboxState,
  CallbackOutboxEntry, attempt_written, attempt_failed, written_entry,
}
use superdev.Callbacks.Store.{find_entry, record_failed, record_written, CallbackStore}
use superdev.Callbacks.Store.Effects.{with_attempt, record_attempt-Recorded, Recorded}

-- A binding keeps everything but its last attempt.
abbrev pub SameRoute : CallbackBinding → CallbackBinding → Type 0
SameRoute b b' = b' ≡ record b { last_terminal_attempt = b'.last_terminal_attempt }

-- An entry keeps its names, counts its attempts up, does not change any more once it is written,
-- and has its event as long as it is pending.
pub record EntryAdvances (e e' : CallbackOutboxEntry) : Type 0 where
  pub same_event_id : e'.event_id ≡ e.event_id
  pub same_session_id : e'.session_id ≡ e.session_id
  pub counts_up : e.attempt_count ≤ e'.attempt_count
  pub written_stays : is_pending e.state ≡ false → e' ≡ e
  pub pending_keeps : is_pending e'.state ≡ true → e'.event ≡ e.event

pub record Advances (s s' : CallbackStore) : Type 0 where
  pub routes :
      (k : String) (b : CallbackBinding)
      → lookup k s.bindings ≡ some b
      → (b' : CallbackBinding) × (lookup k s'.bindings ≡ some b') × SameRoute b b'
  pub entries :
      (k : String) (e : CallbackOutboxEntry)
      → lookup k s.outbox ≡ some e
      → (e' : CallbackOutboxEntry) × (lookup k s'.outbox ≡ some e') × EntryAdvances e e'

pub EntryAdvances-refl : (e : CallbackOutboxEntry) → EntryAdvances e e
EntryAdvances-refl e = record {
  same_event_id = refl;
  same_session_id = refl;
  counts_up = omega arith;
  written_stays = λ h. refl;
  pending_keeps = λ h. refl;
}

pub Advances-refl : (s : CallbackStore) → Advances s s
Advances-refl s = record {
  routes = λ k b h. (b, h, refl);
  entries = λ k e h. (e, h, EntryAdvances-refl e);
}

EntryAdvances-trans :
    {a b c : CallbackOutboxEntry} → EntryAdvances a b → EntryAdvances b c → EntryAdvances a c
EntryAdvances-trans {a} {b} {c} p q = record {
  same_event_id = q.same_event_id ∙ p.same_event_id;
  same_session_id = q.same_session_id ∙ p.same_session_id;
  counts_up = omega (arith, p.counts_up, q.counts_up);
  written_stays = λ h. let e = p.written_stays h in q.written_stays (rw e h) ∙ e;
  pending_keeps = λ h. elim (Bool-cases (is_pending b.state)) [
    | inl waits ↦ q.pending_keeps h ∙ p.pending_keeps waits
    | inr done ↦ absurd (cc (h, done, q.written_stays done))
  ];
}

pub Advances-trans : {a b c : CallbackStore} → Advances a b → Advances b c → Advances a c
Advances-trans p q = record {
  routes = λ k x h.
      let (y, found, same) = p.routes k x h in
      let (z, found', same') = q.routes k y found in
      (
        z,
        found',
        same'
            ∙ ap {A = CallbackBinding}
                (λ b. record b { last_terminal_attempt = z.last_terminal_attempt }) same,
      );
  entries = λ k x h.
      let (y, found, step) = p.entries k x h in
      let (z, found', step') = q.entries k y found in (z, found', EntryAdvances-trans step step');
}

-- One entry is replaced by one that follows it, and the attempt is written on its binding.
Recorded-Advances :
    {event_id : String} {old entry : CallbackOutboxEntry} {s s' : CallbackStore}
    → lookup event_id s.outbox ≡ some old
    → EntryAdvances old entry
    → Recorded event_id entry s s'
    → Advances s s'
Recorded-Advances {event_id} {old} {entry} {s} {s'} found step r = record {
  routes = λ k b h. elim (Bool-cases (entry.session_id == k)) [
    | inl own ↦
        let key : entry.session_id ≡ k = (eq_iff entry.session_id k).0 own in
        let same : r.b ≡ b = cc (r.bound, h, key) in
        (
          record b { last_terminal_attempt = some r.attempt },
          r.attempts k ∙ rw own (ap (λ x. some (with_attempt r.attempt x)) same),
          refl,
        )
    | inr other ↦ (b, r.attempts k ∙ rw other h, refl)
  ];
  entries = λ k e h. elim (Bool-cases (event_id == k)) [
    | inl own ↦
        let key : event_id ≡ k = (eq_iff event_id k).0 own in
        let same : old ≡ e = cc (found, h, key) in
        (entry, r.entries k ∙ rw own refl, subst (λ x. EntryAdvances x entry) same step)
    | inr other ↦ (e, r.entries k ∙ rw other h, EntryAdvances-refl e)
  ];
}

-- An attempt counts one up, and leaves a pending entry with its event or makes it a written one.
EntryAdvances-attempt :
    (old : CallbackOutboxEntry) (state : CallbackOutboxState) (event : Option CallbackEvent)
    (last_error : Option String)
    → is_pending old.state ≡ true
    → (is_pending state ≡ true → event ≡ old.event)
    → EntryAdvances old (record old {
      state = state;
      event = event;
      attempt_count = old.attempt_count + 1;
      last_error = last_error;
    })
EntryAdvances-attempt old state event last_error waits kept = record {
  same_event_id = refl;
  same_session_id = refl;
  counts_up = omega arith;
  written_stays = λ done. absurd (cc (waits, done));
  pending_keeps = kept;
}

pub find_entry-cases :
    (event_id : String) (s : CallbackStore)
    → ((e : CallbackOutboxEntry) × (lookup event_id s.outbox ≡ some e)
        × (find_entry event_id s ≡ ok e))
      ⊎ ((m : String) × (find_entry event_id s ≡ err m))
unfolding find_entry
find_entry-cases event_id s = elim (Option-cases (lookup event_id s.outbox)) [
  | inl missing ↦ inr ("malformed callback outbox entry", rw (missing, find_entry) refl)
  | inr (e, found) ↦ inl (e, found, rw (found, find_entry) refl)
]

pub unchanged-Advances :
    {A : Type 0} {s s' : CallbackStore} {a a' : A}
    → ◌≡◌ {A = Result String (CallbackStore × A)} (ok (s, a)) (ok (s', a'))
    → Advances s s'
unchanged-Advances {s} {s'} h =
    let same : s ≡ s' = cc h in subst (λ x. Advances s x) same (Advances-refl s)

pub record_failed-Advances :
    (event_id error attempted_at : String) (s : CallbackStore) {s' : CallbackStore}
    {e : CallbackOutboxEntry}
    → record_failed event_id error attempted_at s ≡ ok (s', e)
    → Advances s s'
unfolding record_failed
record_failed-Advances event_id error attempted_at s {s'} {e} h = elim (Bool-cases (error == "")) [
  | inl silent ↦ cc (rw (silent, record_failed) at h)
  | inr loud ↦ elim (Bool-cases (attempted_at == "")) [
    | inl undated ↦ cc (rw (loud, undated, record_failed) at h)
    | inr dated ↦ elim (find_entry-cases event_id s) [
      | inr (m, missing) ↦ cc (rw (loud, dated, missing, record_failed) at h)
      | inl (old, found, got) ↦ elim (Bool-cases (is_pending old.state)) [
        | inl waits ↦
            let step = rw (loud, dated, got, waits, record_failed) at h in
            Recorded-Advances found
              (EntryAdvances-attempt old old.state old.event (some error) waits (λ _. refl))
              (record_attempt-Recorded event_id
                (record old { attempt_count = old.attempt_count + 1; last_error = some error })
                attempt_failed (some error) attempted_at (terminal_turn_id old.event) s step).1
        | inr written ↦ unchanged-Advances (rw (loud, dated, got, written, record_failed) at h)
      ]
    ]
  ]
]

pub record_written-Advances :
    (event_id attempted_at : String) (s : CallbackStore) {s' : CallbackStore}
    {e : CallbackOutboxEntry}
    → record_written event_id attempted_at s ≡ ok (s', e)
    → Advances s s'
unfolding record_written
record_written-Advances event_id attempted_at s {s'} {e} h =
    elim (Bool-cases (attempted_at == "")) [
      | inl undated ↦ cc (rw (undated, record_written) at h)
      | inr dated ↦ elim (find_entry-cases event_id s) [
        | inr (m, missing) ↦ cc (rw (dated, missing, record_written) at h)
        | inl (old, found, got) ↦ elim (Bool-cases (is_pending old.state)) [
          | inl waits ↦
              let step = rw (dated, got, waits, record_written) at h in
              Recorded-Advances found
                (EntryAdvances-attempt old written_entry none none waits
                  (λ waiting. absurd (cc waiting)))
                (record_attempt-Recorded event_id
                  (record old {
                    event = none;
                    state = written_entry;
                    attempt_count = old.attempt_count + 1;
                    last_error = none;
                  })
                  attempt_written none attempted_at (terminal_turn_id old.event) s step).1
          | inr written ↦ unchanged-Advances (rw (dated, got, written, record_written) at h)
        ]
      ]
    ]
