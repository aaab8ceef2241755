-- ===== src/Callbacks/Store/Effects.antt =====
-- What the operations that record an attempt do to the entries and the bindings.
use mathlib.Core.Path.{subst}
use superdev.Base.{
  if◌then◌else◌, ◌==◌, nat_eq, string_eq, pair_eq, option_string_eq, Option-cases, is_some, Result,
  ok, err, lookup, insert, lookup-insert, String, ◌≡◌, refl, sym, ◌∙◌, ◌⊎◌, inl, inr, false, not,
  ◌&&◌, Option, some,
}
use superdev.Callbacks.{
  is_pending, is_foreign, CallbackAttemptState, CallbackAttemptView, CallbackBinding,
  CallbackOutboxEntry,
}
use superdev.Callbacks.Checks.{
  callback_binding-cases, callback_outbox_entry-cases, attempt_of, callback_attempt_view-cases,
}
use superdev.Callbacks.Store.{write, set_attempt, record_attempt, CallbackStore}
use superdev.Callbacks.Store.Sorting.{lookup-sort_keys}

abbrev pub with_attempt : CallbackAttemptView → CallbackBinding → CallbackBinding
with_attempt attempt b = record b { last_terminal_attempt = some attempt }

pub set_attempt-cases :
    (session_id : String) (attempt : CallbackAttemptView) (s : CallbackStore)
    → ((b : CallbackBinding) × (lookup session_id s.bindings ≡ some b)
        × (set_attempt session_id attempt s
            ≡ ok (record s { bindings = insert session_id (with_attempt attempt b) s.bindings })))
      ⊎ ((m : String) × (set_attempt session_id attempt s ≡ err m))
unfolding set_attempt
set_attempt-cases session_id attempt s = elim (Option-cases (lookup session_id s.bindings)) [
  | inl missing ↦ inr ("KeyError", rw (missing, set_attempt) refl)
  | inr (b, found) ↦ elim (callback_binding-cases (with_attempt attempt b)) [
    | inl built ↦ inl (b, found, rw (found, built, set_attempt) refl)
    | inr (m, refused) ↦ inr (m, rw (found, refused, set_attempt) refl)
  ]
]

-- The entry and the attempt, as they are read back.
pub record Recorded (event_id : String) (entry : CallbackOutboxEntry) (s s' : CallbackStore)
    : Type 0 where
  pub b : CallbackBinding
  pub attempt : CallbackAttemptView
  pub counted : attempt.attempt_count ≡ entry.attempt_count
  pub named : attempt.event_id ≡ event_id
  pub bound : lookup entry.session_id s.bindings ≡ some b
  pub well_formed :
      (is_pending entry.state && not (is_some entry.event) ≡ false) × (is_foreign entry ≡ false)
  pub entries :
      (k : String) → lookup k s'.outbox ≡ (if event_id == k then some entry else lookup k s.outbox)
  pub attempts :
      (k : String)
      → lookup k s'.bindings ≡ (
          if entry.session_id == k
          then some (record b { last_terminal_attempt = some attempt })
          else lookup k s.bindings)

ok-pair {ℓ κ} :
    {A : Type ℓ} {B : Type κ} (a c : A) (b d : B)
    → ◌≡◌ {A = Result String (A × B)} (ok (a, b)) (ok (c, d))
    → (a ≡ c) × (b ≡ d)
ok-pair a c b d h = (cc, cc)

written-Recorded :
    (event_id : String) (entry : CallbackOutboxEntry) (attempt : CallbackAttemptView)
    (b : CallbackBinding) (s : CallbackStore)
    → attempt.attempt_count ≡ entry.attempt_count
    → attempt.event_id ≡ event_id
    → lookup entry.session_id s.bindings ≡ some b
    → ((is_pending entry.state && not (is_some entry.event)) ≡ false) × (is_foreign entry ≡ false)
    → Recorded event_id entry s (
        write (record {
          bindings = insert entry.session_id (with_attempt attempt b) s.bindings;
          outbox = insert event_id entry s.outbox;
        }))
unfolding write
written-Recorded event_id entry attempt b s counted named bound good = record {
  b = b;
  attempt = attempt;
  counted = counted;
  named = named;
  bound = bound;
  well_formed = good;
  entries = λ k.
      lookup-sort_keys k (insert event_id entry s.outbox) ∙ lookup-insert event_id k entry s.outbox;
  attempts = λ k.
      lookup-sort_keys k (insert entry.session_id (with_attempt attempt b) s.bindings)
      ∙ lookup-insert entry.session_id k (with_attempt attempt b) s.bindings;
}

pub record_attempt-Recorded :
    (event_id : String) (entry : CallbackOutboxEntry) (state : CallbackAttemptState)
    (reason : Option String) (attempted_at : String) (turn_id : Option String) (s : CallbackStore)
    {s' : CallbackStore} {entry' : CallbackOutboxEntry}
    → record_attempt event_id entry state reason attempted_at turn_id s ≡ ok (s', entry')
    → (entry' ≡ entry) × Recorded event_id entry s s'
unfolding record_attempt
record_attempt-Recorded event_id entry state reason attempted_at turn_id s {s'} {entry'} h =
    elim (callback_outbox_entry-cases entry) [
      | inr (m, refused) ↦ cc (rw (refused, record_attempt) at h)
      | inl (built, full, own) ↦
          elim (callback_attempt_view-cases event_id state reason (some attempted_at)
            entry.attempt_count turn_id) [
              | inr (m, refused) ↦ cc (rw (built, refused, record_attempt) at h)
              | inl viewed ↦
                  elim (set_attempt-cases entry.session_id
                    (attempt_of event_id state reason (some attempted_at) entry.attempt_count
                      turn_id)
                    (record s { outbox = insert event_id entry s.outbox })) [
                      | inr (m, refused) ↦ cc (rw (built, viewed, refused, record_attempt) at h)
                      | inl (b, found, marked) ↦
                          let stored = rw (built, viewed, marked, record_attempt) at h in
                          (
                            sym (ok-pair _ _ _ _ stored).1,
                            subst (λ x. Recorded event_id entry s x) (ok-pair _ _ _ _ stored).0
                                (written-Recorded event_id entry
                                  (attempt_of event_id state reason (some attempted_at)
                                    entry.attempt_count turn_id)
                                  b s refl refl found (full, own)),
                          )
                    ]
            ]
    ]
