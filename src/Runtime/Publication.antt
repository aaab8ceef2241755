-- ===== src/Runtime/Publication.antt =====
-- Notifications, lost transports and authoritative thread reads keep the store consistent, with
-- observers in between that use the store through its operations.
use superdev.Json.{get, as_text, as_object, Json, Fields, obj}
use superdev.Base.{
  ◌==◌, nat_eq, string_eq, pair_eq, option_string_eq, if_both, Ensures, Ensures-eq-ok, Ensures-bind,
  Result, ok, err, keys, lookup, ℕ, String, ◌≡◌, refl, Option, none, some, List, [], ◌∷◌,
}
use superdev.Models.{error_detail, ErrorDetail, TurnSnapshot}
use superdev.Runtime.{
  by_thread, put_session, publish_to, RuntimeError, SessionRuntime, RuntimeStore,
}
use superdev.Runtime.Reconcile.{read_thread, reconcile_found, reconcile_thread}
use superdev.Runtime.Sessions.{
  detach_session-IsValid, reconcile_session-IsValid, Keeps, apply_notification-Keeps,
}
use superdev.Runtime.Owners.{session-detach_session, session-reconcile_session}
use superdev.Runtime.Notify.{
  publish_terminal, detach_one, detach_each, detach_all, is_thread_method, transport_details,
  notify_session, lose_transport, on_method, on_notification,
}
use superdev.Runtime.Turns.{thread_id_of, apply_notification}
use superdev.Runtime.Store.{keep-IsConsistent, by_thread-found, settle-IsConsistent, IsConsistent}

module _ (react : ℕ → String → TurnSnapshot → RuntimeStore → RuntimeStore)
    (polite : (o : ℕ) (k : String) (t : TurnSnapshot) (s : RuntimeStore)
      → IsConsistent s
      → IsConsistent (react o k t s))
    (str : Json → String) where
  publish_to-IsConsistent :
      (os : List ℕ) (k : String) (t : TurnSnapshot) (s : RuntimeStore)
      → IsConsistent s
      → IsConsistent (publish_to react os k t s)
  unfolding publish_to
  publish_to-IsConsistent [] k t s c = c
  publish_to-IsConsistent (o ∷ os) k t s c =
      publish_to-IsConsistent os k t (react o k t s) (polite o k t s c)

  publish_terminal-IsConsistent :
      (k : String) (t : Option TurnSnapshot) (s : RuntimeStore)
      → IsConsistent s
      → IsConsistent (publish_terminal react k t s)
  unfolding publish_terminal
  publish_terminal-IsConsistent k none s c = c
  publish_terminal-IsConsistent k (some t) s c =
      settle-IsConsistent (publish_to-IsConsistent s.terminal_observers k t s c) k t.turn_id

  -- What an operation does to one session, and the publication of the turn that it ended.
  commit-IsConsistent :
      {s : RuntimeStore} {r r' : SessionRuntime} (t : Option TurnSnapshot)
      → IsConsistent s
      → lookup r.session.session_id s.sessions ≡ some r
      → Keeps s.event_limit r r'
      → IsConsistent
          (publish_terminal react r.session.session_id t (put_session r.session.session_id r' s))
  commit-IsConsistent {r} t c there (v, same) =
      publish_terminal-IsConsistent r.session.session_id t _
        (keep-IsConsistent r.session.session_id c there v same)

  detach_one-IsConsistent :
      (reason : ErrorDetail) (k : String) (o : Option SessionRuntime) {s : RuntimeStore}
      → IsConsistent s
      → lookup k s.sessions ≡ o
      → IsConsistent (detach_one react reason k o s)
  unfolding detach_one
  detach_one-IsConsistent reason k none c there = c
  detach_one-IsConsistent reason k (some r) {s} c there =
      publish_terminal-IsConsistent r.session.session_id _ _ (
        keep-IsConsistent k c there (detach_session-IsValid (c.valid k r there) reason)
          (session-detach_session s.event_limit r reason))

  detach_each-IsConsistent :
      (reason : ErrorDetail) (ks : List String) (s : RuntimeStore)
      → IsConsistent s
      → IsConsistent (detach_each react reason ks s)
  unfolding detach_each
  detach_each-IsConsistent reason [] s c = c
  detach_each-IsConsistent reason (k ∷ ks) s c =
      detach_each-IsConsistent reason ks _
        (detach_one-IsConsistent reason k (lookup k s.sessions) c refl)

  -- Losing the transport keeps the store consistent.
  pub detach_all-IsConsistent :
      (reason : ErrorDetail) (s : RuntimeStore)
      → IsConsistent s
      → IsConsistent (detach_all react reason s)
  unfolding detach_all
  detach_all-IsConsistent reason s c = detach_each-IsConsistent reason (keys s.sessions) s c

  notify_session-IsConsistent :
      (method : String) (params : Option Fields) (o : Option SessionRuntime) {s : RuntimeStore}
      → IsConsistent s
      → ((r : SessionRuntime) → o ≡ some r → lookup r.session.session_id s.sessions ≡ some r)
      → Ensures IsConsistent (notify_session str react method params o s)
  unfolding notify_session
  notify_session-IsConsistent method params none c there = c
  notify_session-IsConsistent method none (some r) c there = c
  notify_session-IsConsistent method (some params) (some r) {s} c there =
      Ensures-bind IsConsistent (apply_notification str s.event_limit method params r) _ (λ p made.
        commit-IsConsistent p.1 c (there r refl) (
          Ensures-eq-ok (λ q. Keeps s.event_limit r q.0) _
            (apply_notification-Keeps (c.valid r.session.session_id r (there r refl)) str method
              params)
            made))

  lose_transport-IsConsistent :
      (reason : Result String ErrorDetail) {s : RuntimeStore}
      → IsConsistent s
      → Ensures IsConsistent (lose_transport react reason s)
  lose_transport-IsConsistent (err m) c = tt
  lose_transport-IsConsistent (ok reason) {s} c = detach_all-IsConsistent reason s c

  on_method-IsConsistent :
      (method : Option String) (message : Fields) {s : RuntimeStore}
      → IsConsistent s
      → Ensures IsConsistent (on_method str react method message s)
  on_method-IsConsistent none message c = c
  on_method-IsConsistent (some method) message {s} c =
      let P = Ensures {E = RuntimeError} IsConsistent in
      if_both P (method == "transport/error")
        (lose_transport-IsConsistent
          (error_detail "transport_error" none (transport_details message)) c)
        (if_both P (is_thread_method method)
          (notify_session-IsConsistent method (as_object (get "params" message))
            (by_thread (thread_id_of message) s) c (by_thread-found c (thread_id_of message)))
          c)

  -- A notification that is handled without an exception keeps a consistent store consistent,
  -- whatever it is, with observers that keep it consistent themselves.
  pub on_notification-IsConsistent :
      (message : Json) {s : RuntimeStore}
      → IsConsistent s
      → Ensures IsConsistent (on_notification str react message s)
  unfolding on_notification
  on_notification-IsConsistent (obj message) c =
      on_method-IsConsistent (as_text (get "method" message)) message c
  on_notification-IsConsistent _ c = c

  reconcile_found-IsConsistent :
      (thread : Fields) (o : Option SessionRuntime) {s : RuntimeStore}
      → IsConsistent s
      → ((r : SessionRuntime) → o ≡ some r → lookup r.session.session_id s.sessions ≡ some r)
      → Ensures (λ p. IsConsistent p.0) (reconcile_found react thread o s)
  unfolding reconcile_found
  reconcile_found-IsConsistent thread none c there = tt
  reconcile_found-IsConsistent thread (some r) {s} c there =
      Ensures-bind (λ p. IsConsistent p.0) (read_thread s.event_limit thread) _
        (λ p made. commit-IsConsistent _ c (there r refl) (
          reconcile_session-IsValid (c.valid r.session.session_id r (there r refl)) p.0 p.1,
          session-reconcile_session s.event_limit r p.0 p.1,
        ))

  -- Reconciling a thread that was read again, where it succeeds, keeps a consistent store
  -- consistent, with observers that keep it consistent themselves.
  pub reconcile_thread-IsConsistent :
      (thread : Json) {s : RuntimeStore}
      → IsConsistent s
      → Ensures (λ p. IsConsistent p.0) (reconcile_thread react thread s)
  unfolding reconcile_thread
  reconcile_thread-IsConsistent (obj thread) {s} c =
      reconcile_found-IsConsistent thread (by_thread (as_text (get "id" thread)) s) c
        (by_thread-found c (as_text (get "id" thread)))
  reconcile_thread-IsConsistent _ c = tt
