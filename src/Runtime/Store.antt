-- ===== src/Runtime/Store.antt =====
-- The invariant of the whole store, and that every operation of `RuntimeStore` keeps it: each
-- session is valid, a session stands under its id, and the thread table leads to it and to it only.
use superdev.Base.{
  ◌==◌, nat_eq, string_eq, pair_eq, option_string_eq, Bool-cases, Option-cases, if_both, >>=-eq-ok,
  Result-cases, Result, ok, lookup, insert, erase, lookup-insert_self, lookup-insert_ne,
  lookup-insert_cases, String, ◌≡◌, refl, sym, ap, ◌∙◌, inl, inr, Option, none, some, arith, eq_iff,
}
use superdev.Models.{SessionRecord}
use superdev.Runtime.{
  new_runtime, settle_terminal, find_session, by_thread, put_session, update_session, RuntimeError,
  SessionRuntime, RuntimeStore,
}
use superdev.Runtime.Starts.{
  attached_as, attach, reserve, reserve_start, cancelled, cancel_start, reconcile_start,
}
use superdev.Runtime.Reads.{release_terminal_snapshot}
use superdev.Runtime.Sessions.{
  attached_as-IsValid, cancelled-IsValid, release-IsValid, bind_start-IsValid, reserve-IsValid,
}
use superdev.Runtime.Owners.{session-settle_terminal, session-bind_start, session-reserve}
use superdev.Runtime.Invariant.{settle_terminal-IsValid, new_runtime-IsValid, IsValid}

pub record IsConsistent (s : RuntimeStore) : Type 0 where
  pub valid :
      (k : String) (r : SessionRuntime) → lookup k s.sessions ≡ some r → IsValid s.event_limit r
  pub keyed :
      (k : String) (r : SessionRuntime) → lookup k s.sessions ≡ some r → r.session.session_id ≡ k
  pub routed :
      (k : String) (r : SessionRuntime)
      → lookup k s.sessions ≡ some r
      → lookup r.session.thread_id s.thread_sessions ≡ some k
  pub owned :
      (t k : String)
      → lookup t s.thread_sessions ≡ some k
      → (r : SessionRuntime) × (lookup k s.sessions ≡ some r) × (r.session.thread_id ≡ t)

-- A session is replaced by a valid state of the same session.
put_session-IsConsistent :
    {s : RuntimeStore} (k : String) {r r' : SessionRuntime}
    → IsConsistent s
    → lookup k s.sessions ≡ some r
    → IsValid s.event_limit r'
    → r'.session.session_id ≡ r.session.session_id
    → r'.session.thread_id ≡ r.session.thread_id
    → IsConsistent (put_session k r' s)
put_session-IsConsistent {s} k {r} {r'} c found v same_id same_thread = record {
  valid = λ j q h. elim (lookup-insert_cases k j r' q s.sessions h) [
    | inl (at, is) ↦ rw (← is) v
    | inr (ne, old) ↦ c.valid j q old
  ];
  keyed = λ j q h. elim (lookup-insert_cases k j r' q s.sessions h) [
    | inl (at, is) ↦ rw (← is, ← at) (same_id ∙ c.keyed k r found)
    | inr (ne, old) ↦ c.keyed j q old
  ];
  routed = λ j q h. elim (lookup-insert_cases k j r' q s.sessions h) [
    | inl (at, is) ↦ rw (← is, ← at, same_thread) (c.routed k r found)
    | inr (ne, old) ↦ c.routed j q old
  ];
  owned = λ t j h.
      let (q, there, thread) = c.owned t j h in
      elim (Bool-cases (k == j)) [
        | inl same ↦
            let at : k ≡ j = (eq_iff k j).0 same in
            let was : r ≡ q = cc (found, there, at) in
            (r', rw (← at) (lookup-insert_self k r' s.sessions), same_thread ∙ rw was thread)
        | inr other ↦ (
          q,
          lookup-insert_ne k j r' s.sessions (ground (arith, other, eq_iff k j)) ∙ there,
          thread,
        )
      ];
}

-- The same, where an operation leaves the record of the session alone.
pub keep-IsConsistent :
    {s : RuntimeStore} (k : String) {r r' : SessionRuntime}
    → IsConsistent s
    → lookup k s.sessions ≡ some r
    → IsValid s.event_limit r'
    → r'.session ≡ r.session
    → IsConsistent (put_session k r' s)
keep-IsConsistent k c found v same =
    put_session-IsConsistent k c found v (ap (λ (u : SessionRecord). u.session_id) same)
      (ap (λ (u : SessionRecord). u.thread_id) same)

find_session-found :
    (k : String) (s : RuntimeStore) (r : SessionRuntime)
    → find_session k s ≡ ok r
    → lookup k s.sessions ≡ some r
unfolding find_session
find_session-found k s r h = ground arith

module _ {s : RuntimeStore} (c : IsConsistent s) where
  -- A session found by its thread stands under its own id.
  pub by_thread-found :
      (t : Option String) (r : SessionRuntime)
      → by_thread t s ≡ some r
      → lookup r.session.session_id s.sessions ≡ some r
  unfolding by_thread
  by_thread-found none r h = cc
  by_thread-found (some t) r h = elim (Option-cases (lookup t s.thread_sessions)) [
    | inl missing ↦ cc (rw (missing, by_thread) at h)
    | inr (k, at) ↦
        let there : lookup k s.sessions ≡ some r = rw (at, by_thread) at h in
        ap (λ j. lookup j s.sessions) (c.keyed k r there) ∙ there
  ]

  -- Reserving a start, where it succeeds, keeps a consistent store consistent.
  pub reserve_start-IsConsistent :
      (k : String) {s' : RuntimeStore} → reserve_start k s ≡ ok s' → IsConsistent s'
  unfolding reserve_start
  reserve_start-IsConsistent k {s'} h =
      let (r, found, rest) = >>=-eq-ok (find_session k s) _ h in
      let (r', made, is) = >>=-eq-ok (reserve r) _ rest in
      let there = find_session-found k s r found in
      let e : s' ≡ put_session k r' s = cc is in
      rw e (
        keep-IsConsistent k c there (reserve-IsValid (c.valid k r there) made)
          (session-reserve s.event_limit r made))

  pub cancel_start-IsConsistent :
      (k : String) {s' : RuntimeStore} → cancel_start k s ≡ ok s' → IsConsistent s'
  unfolding cancel_start
  cancel_start-IsConsistent k {s'} h =
      let (r, found, is) = >>=-eq-ok (find_session k s) _ h in
      let there = find_session-found k s r found in
      let e : s' ≡ put_session k (cancelled r) s = cc is in
      rw e (keep-IsConsistent k c there (cancelled-IsValid (c.valid k r there)) refl)

  pub release_terminal_snapshot-IsConsistent :
      (k t : String) {s' : RuntimeStore} → release_terminal_snapshot k t s ≡ ok s' → IsConsistent s'
  unfolding release_terminal_snapshot
  release_terminal_snapshot-IsConsistent k t {s'} h =
      let (r, found, is) = >>=-eq-ok (find_session k s) _ h in
      let there = find_session-found k s r found in
      let e : s' ≡ put_session k (record r { terminal_turns = erase t r.terminal_turns }) s =
        cc is in
      rw e (keep-IsConsistent k c there (release-IsValid (c.valid k r there) t) refl)

  -- Binding the response of a start keeps a consistent store consistent, also when it is refused.
  pub reconcile_start-IsConsistent :
      (k returned : String) → IsConsistent (reconcile_start k returned s).0
  unfolding reconcile_start
  reconcile_start-IsConsistent k returned = elim (Result-cases (find_session k s)) [
    | inr (e, unknown) ↦ rw (unknown, reconcile_start) c
    | inl (r, found) ↦
        let there = find_session-found k s r found in
        rw (found, reconcile_start)
          (if_both (λ (p : RuntimeStore × Result RuntimeError (Unit {0})). IsConsistent p.0)
            (returned == "") c
            (keep-IsConsistent k c there (bind_start-IsValid (c.valid k r there) returned)
              (session-bind_start s.event_limit r returned)))
  ]

  pub settle-IsConsistent :
      (k t : String) → IsConsistent (update_session k (settle_terminal s.event_limit t) s)
  settle-IsConsistent k t = elim (Option-cases (lookup k s.sessions)) [
    | inl missing ↦ rw (missing, update_session) c
    | inr (r, there) ↦
        rw (there, update_session)
          (keep-IsConsistent k c there (settle_terminal-IsValid t (c.valid k r there))
            (session-settle_terminal s.event_limit r t))
  ]

  -- A new session, whose thread belongs to nobody or is already on record as its own.
  enter-IsConsistent :
      (session : SessionRecord)
      → lookup session.session_id s.sessions ≡ none
      → ((k : String)
          → lookup session.thread_id s.thread_sessions ≡ some k
          → k ≡ session.session_id)
      → IsConsistent (record s {
        sessions = insert session.session_id (new_runtime session) s.sessions;
        thread_sessions = insert session.thread_id session.session_id s.thread_sessions;
      })
  enter-IsConsistent session absent mine =
      let k = session.session_id in
      let fresh = new_runtime session in
      record {
        valid = λ j q h. elim (lookup-insert_cases k j fresh q s.sessions h) [
          | inl (at, is) ↦ rw (← is) (new_runtime-IsValid s.event_limit session)
          | inr (ne, old) ↦ c.valid j q old
        ];
        keyed = λ j q h. elim (lookup-insert_cases k j fresh q s.sessions h) [
          | inl (at, is) ↦ rw (← is, ← at) (unfold new_runtime in refl)
          | inr (ne, old) ↦ c.keyed j q old
        ];
        routed = λ j q h. elim (lookup-insert_cases k j fresh q s.sessions h) [
          | inl (at, is) ↦
              rw (← is, ← at)
                (unfold new_runtime in lookup-insert_self session.thread_id k s.thread_sessions)
          | inr (ne, old) ↦
              lookup-insert_ne session.thread_id q.session.thread_id k s.thread_sessions (λ clash.
                ne (sym (mine j (ap (λ t. lookup t s.thread_sessions) clash ∙ c.routed j q old))))
              ∙ c.routed j q old
        ];
        owned = λ t j h. elim (lookup-insert_cases session.thread_id t k j s.thread_sessions h) [
          | inl (at, is) ↦
              (fresh, rw (← is) (lookup-insert_self k fresh s.sessions), unfold new_runtime in at)
          | inr (ne, old) ↦
              let (q, there, thread) = c.owned t j old in
              (
                q,
                lookup-insert_ne k j fresh s.sessions
                      (λ clash. cc (absent, there, ap (λ i. lookup i s.sessions) clash))
                    ∙ there,
                thread,
              )
        ];
      }

  -- Attaching a session, where it succeeds, keeps a consistent store consistent: each session is
  -- valid and stands under its own id, and a thread leads to the one session that has it.
  pub attach-IsConsistent :
      (session : SessionRecord) {s' : RuntimeStore} → attach session s ≡ ok s' → IsConsistent s'
  unfolding attach
  attach-IsConsistent session {s'} h = elim (Option-cases (lookup session.session_id s.sessions)) [
    | inl absent ↦
        let mine : (k : String)
            → lookup session.thread_id s.thread_sessions ≡ some k
            → k ≡ session.session_id =
          λ k owner. ground (arith, absent, owner, eq_iff k session.session_id) in
        let e : s' ≡ record s {
          sessions = insert session.session_id (new_runtime session) s.sessions;
          thread_sessions = insert session.thread_id session.session_id s.thread_sessions;
        } =
          ground (arith, absent) in
        rw e (enter-IsConsistent session absent mine)
    | inr (r, there) ↦
        let thread : r.session.thread_id ≡ session.thread_id =
          ground (arith, there, eq_iff r.session.thread_id session.thread_id) in
        let e : s' ≡ put_session session.session_id (attached_as session r) s =
          ground (arith, there) in
        rw e (
          put_session-IsConsistent session.session_id c there
            (attached_as-IsValid (c.valid session.session_id r there) session)
            (sym (c.keyed session.session_id r there)) (sym thread))
  ]
