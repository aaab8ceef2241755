-- ===== src/Runtime/Starts.antt =====
-- Attaching a session, and the start protocol of a turn: `reserve_start`, then `reconcile_start`
-- with the id that the app server returned, or `cancel_start`.
use superdev.Base.{
  if◌then◌else◌, ◌==◌, nat_eq, string_eq, pair_eq, option_string_eq, is_some, ◌>>=◌, ◌>>◌, raise_if,
  Result, ok, err, lookup, insert, String, Bool, true, false, not, ◌&&◌, ◌||◌, Option, none, some,
}
use superdev.Models.{SessionRecord}
use superdev.Runtime.{
  new_runtime, find_session, put_session, RuntimeError, SessionRuntime, RuntimeStore,
  session_detached, turn_active, protocol_error,
}

-- `runtime.start_pending or runtime.awaiting_start_response or runtime.active_turn_id is not None`
abbrev pub is_busy : SessionRuntime → Bool
is_busy r = r.start_pending || r.awaiting_start_response || is_some r.active_turn_id

abbrev pub attached_as : SessionRecord → SessionRuntime → SessionRuntime
attached_as session r = record r { session = session; attached = true }

-- The checks of `attach` on a session that is there, or a new one.
unfoldable pub attach_session :
    SessionRecord → Option SessionRuntime → RuntimeStore → Result RuntimeError RuntimeStore
unfolding new_runtime
attach_session session none s = ok (record s {
  sessions = insert session.session_id (new_runtime session) s.sessions;
  thread_sessions = insert session.thread_id session.session_id s.thread_sessions;
})
attach_session session (some r) s =
    if r.session.thread_id == session.thread_id
    then ok (put_session session.session_id (attached_as session r) s)
    else err (protocol_error "session attachment changed thread identity")

unfoldable pub attach : SessionRecord → RuntimeStore → Result RuntimeError RuntimeStore
unfolding attach_session
attach session s =
    let owner = lookup session.thread_id s.thread_sessions in
    if is_some owner && not (owner == some session.session_id)
    then err (protocol_error "thread is already attached to another session")
    else attach_session session (lookup session.session_id s.sessions) s

unfoldable pub require_attached : SessionRuntime → Result RuntimeError (Unit {0})
require_attached r = raise_if (not r.attached) (session_detached r.session.session_id)

abbrev pub reserved : SessionRuntime → SessionRuntime
reserved r = record r {
  start_pending = true;
  awaiting_start_response = true;
  observed_start_turn_id = none;
}

-- What `reserve_start` does under the session's condition.
unfoldable pub reserve : SessionRuntime → Result RuntimeError SessionRuntime
unfolding require_attached
reserve r = do
  require_attached r
  raise_if (is_busy r) turn_active
  ok (record r {
    start_pending = true;
    awaiting_start_response = true;
    observed_start_turn_id = none;
  })

unfoldable pub reserve_start : String → RuntimeStore → Result RuntimeError RuntimeStore
unfolding reserve find_session
reserve_start session_id s = do
  r ← find_session session_id s
  r' ← reserve r
  ok (put_session session_id r' s)

abbrev pub cancelled : SessionRuntime → SessionRuntime
cancelled r = record r {
  start_pending = false;
  awaiting_start_response = false;
  observed_start_turn_id = none;
}

unfoldable pub cancel_start : String → RuntimeStore → Result RuntimeError RuntimeStore
unfolding find_session
cancel_start session_id s = do
  r ← find_session session_id s
  ok (put_session session_id (cancelled r) s)

-- What `reconcile_start` does under the condition. The reservation is given up before the ids are
-- compared, so the state comes back beside the error too.
unfoldable pub bind_start :
    String → SessionRuntime → SessionRuntime × Result RuntimeError (Unit {0})
bind_start returned r =
    if not r.awaiting_start_response
    then (r, err (protocol_error "turn/start response has no reservation"))
    else if is_some r.observed_start_turn_id
    then (if r.observed_start_turn_id == some returned then (cancelled r, ok tt) else (
      cancelled r,
      err (protocol_error "turn/start response id mismatches notification id"),
    ))
    else if is_some r.active_turn_id && not (r.active_turn_id == some returned)
    then (cancelled r, err (protocol_error "turn/start response mismatches active turn"))
    else (record (cancelled r) { active_turn_id = some returned }, ok tt)

unfoldable pub reconcile_start :
    String → String → RuntimeStore → RuntimeStore × Result RuntimeError (Unit {0})
unfolding bind_start find_session
reconcile_start session_id returned s = elim (find_session session_id s) [
  | err e ↦ (s, err e)
  | ok r ↦
      if returned == ""
      then (s, err (protocol_error "turn/start response omitted its turn id"))
      else (let (r', done) = bind_start returned r in (put_session session_id r' s, done))
]

unfoldable pub require_idle : String → RuntimeStore → Result RuntimeError (Unit {0})
unfolding require_attached find_session
require_idle session_id s = do
  r ← find_session session_id s
  require_attached r
  raise_if (is_busy r) turn_active
