-- ===== src/Dispatcher.antt =====
-- codex_worker/callback_dispatcher.py: `TerminalCallbackDispatcher`. Each function that changes the
-- dispatcher is one section under its condition; what a thread does between two sections (the
-- projection, the writes of the callback store) hands its outcome to the second one.
pub mod Claims
pub mod Resting
pub mod Forgetting
pub mod Claiming
pub mod Leading
pub mod Turns
pub mod Refinement
pub mod Steps
pub mod Processing
pub mod Events
pub mod Timing
pub mod Queueing
pub mod Working
pub mod Draining
pub mod Answering
mod Tests
use superdev.Base.{
  if◌then◌else◌, string_eq, nat_eq, pair_eq, option_string_eq, is_some, length, find_first,
  contains, discard, add, ◌>>=◌, Result, ok, err, Dict, keys, lookup, insert, erase, ℕ, String,
  Bool, true, false, not, ◌&&◌, ◌||◌, Option, none, some, List, [], ◌∷◌, ◌++◌,
}
use superdev.Json.{Fields}
use superdev.Models.{copy_turn_snapshot, TurnSnapshot}
use superdev.Callbacks.{WorkerView}
use superdev.Projection.{RecoveryView, CompletionResponse}

-- The session and the turn.
abbrev pub TurnKey : Type 0
TurnKey = String × String

-- An exception: the name of its type, and the kind of a `FacadeFault`.
pub record Failure : Type 0 where
  pub type_name : String
  pub kind : Option String

-- A moment of the monotonic clock is a number of its ticks.
pub record TerminalProjectionContext : Type 0 where
  pub worker : WorkerView
  pub output_schema : Option Fields
  pub started_at : ℕ
  pub recovery : RecoveryView

-- `thread_alive`: there is a thread and it is alive
pub record TerminalCallbackDispatcher : Type 0 where
  pub contexts : Dict TurnKey TerminalProjectionContext
  pub snapshots : Dict TurnKey TurnSnapshot
  pub completions : Dict TurnKey CompletionResponse
  pub projection_errors : Dict TurnKey Failure
  pub projection_owners : List TurnKey
  pub persistence_owners : List TurnKey
  pub processing : List TurnKey
  pub callback_done : List TurnKey
  pub callback_abandoned : List TurnKey
  pub client_done : List TurnKey
  pub started : Bool
  pub stopping : Bool
  pub thread_alive : Bool

abbrev pub new_dispatcher : TerminalCallbackDispatcher
new_dispatcher = record {
  contexts = [];
  snapshots = [];
  completions = [];
  projection_errors = [];
  projection_owners = [];
  persistence_owners = [];
  processing = [];
  callback_done = [];
  callback_abandoned = [];
  client_done = [];
  started = false;
  stopping = false;
  thread_alive = false;
}

-- `start`, after `store.pending()` has returned; whether it starts the thread
unfoldable pub start : TerminalCallbackDispatcher → TerminalCallbackDispatcher × Bool
start d =
    if d.started
    then (d, false)
    else (record d { started = true; stopping = false; thread_alive = true }, true)

-- `isolated != existing` is decided by the dataclasses' `==`, the parameter `same`. A copy of a
-- context is the context.
unfoldable pub observe :
    (TerminalProjectionContext → TerminalProjectionContext → Bool)
    → TurnKey
    → TerminalProjectionContext
    → TerminalCallbackDispatcher
    → Result String TerminalCallbackDispatcher
observe same key context d = elim (lookup key d.contexts) [
  | none ↦ ok (record d { contexts = insert key context d.contexts })
  | some existing ↦
      if same existing context
      then ok (record d { contexts = insert key context d.contexts })
      else err "terminal projection context is immutable"
]

abbrev pub is_terminal : String → Bool
is_terminal status = contains status ("completed" ∷ "failed" ∷ "interrupted" ∷ [])

abbrev pub keep_first {ℓ} : {V : Type ℓ} → TurnKey → V → Dict TurnKey V → Dict TurnKey V
keep_first key v d = elim (lookup key d) [ none ↦ insert key v d | some _ ↦ d ]

-- `_handoff`; `copy_turn_snapshot` may raise
unfoldable pub handoff :
    String → TurnSnapshot → TerminalCallbackDispatcher → Result String TerminalCallbackDispatcher
unfolding copy_turn_snapshot
handoff session_id snapshot d =
    if not (is_terminal snapshot.status)
    then ok d
    else copy_turn_snapshot snapshot >>= λ isolated.
        ok (record d { snapshots = keep_first (session_id, snapshot.turn_id) isolated d.snapshots })

-- `observe_turn`; `retained` is what `runtime.terminal_snapshot` returns
unfoldable pub observe_turn :
    (TerminalProjectionContext → TerminalProjectionContext → Bool)
    → String
    → String
    → TerminalProjectionContext
    → Option TurnSnapshot
    → TerminalCallbackDispatcher
    → Result String TerminalCallbackDispatcher
unfolding observe handoff
observe_turn same session_id turn_id context retained d =
    observe same (session_id, turn_id) context d >>= λ d'. elim retained [
      | none ↦ ok d'
      | some snapshot ↦ handoff session_id snapshot d'
    ]

unfoldable pub queue :
    (TerminalProjectionContext → TerminalProjectionContext → Bool)
    → TerminalProjectionContext
    → TurnSnapshot
    → Option TurnSnapshot
    → TerminalCallbackDispatcher
    → Result String TerminalCallbackDispatcher
unfolding observe_turn handoff
queue same context snapshot retained d =
    observe_turn same context.worker.session_id snapshot.turn_id context retained d >>= λ d'.
    handoff context.worker.session_id snapshot d'

-- `_on_terminal`: the new dispatcher, and whether the snapshot of the runtime is released
unfoldable pub on_terminal :
    String
    → TurnSnapshot
    → TerminalCallbackDispatcher
    → Result String (TerminalCallbackDispatcher × Bool)
unfolding handoff
on_terminal session_id snapshot d =
    let key : TurnKey = (session_id, snapshot.turn_id) in
    if not (is_some (lookup key d.contexts))
    then ok (d, false)
    else handoff session_id snapshot d >>= λ d'. ok (d', contains key d.client_done)

-- Whether a turn that has a snapshot can be processed.
abbrev pub is_ready : TerminalCallbackDispatcher → TurnKey → Bool
is_ready d key =
    is_some (lookup key d.contexts)
    && not (contains key d.processing)
    && not (contains key d.callback_done)
    && not (contains key d.callback_abandoned)

unfoldable pub ready_key : TerminalCallbackDispatcher → Option TurnKey
ready_key d = find_first (is_ready d) (keys d.snapshots)

-- The section of `_run` and of `_drain_ready` that takes a turn: `self._processing.add(key)`
unfoldable pub take_turn : TurnKey → TerminalCallbackDispatcher → TerminalCallbackDispatcher
take_turn key d = record d { processing = add key d.processing }

abbrev pub is_settled : TurnKey → TerminalCallbackDispatcher → Bool
is_settled key d = contains key d.callback_done || contains key d.callback_abandoned

-- `_cleanup`
unfoldable pub cleanup : TurnKey → TerminalCallbackDispatcher → TerminalCallbackDispatcher
cleanup key d =
    if not (is_settled key d) || not (contains key d.client_done) || contains key d.processing
    then d
    else record d {
      contexts = erase key d.contexts;
      snapshots = erase key d.snapshots;
      completions = erase key d.completions;
      projection_errors = erase key d.projection_errors;
      projection_owners = discard key d.projection_owners;
      persistence_owners = discard key d.persistence_owners;
      processing = discard key d.processing;
      callback_done = discard key d.callback_done;
      callback_abandoned = discard key d.callback_abandoned;
      client_done = discard key d.client_done;
    }

-- `abandon_completion`, and the sections of `completion_for` that do the same
unfoldable pub abandon_completion :
    TurnKey → TerminalCallbackDispatcher → TerminalCallbackDispatcher
unfolding cleanup
abandon_completion key d = cleanup key (record d { client_done = add key d.client_done })

-- `worker_available or shutdown_worker` in `completion_for`
abbrev pub has_worker : TerminalCallbackDispatcher → Bool
has_worker d = d.started && not d.stopping && d.thread_alive || d.stopping && d.thread_alive

-- `shutdown`: its first section, and its last one
unfoldable pub begin_shutdown : TerminalCallbackDispatcher → TerminalCallbackDispatcher
begin_shutdown d = record d { stopping = true }

unfoldable pub end_shutdown : TerminalCallbackDispatcher → TerminalCallbackDispatcher
end_shutdown d = if d.thread_alive then d else record d { started = false }

-- `_run` returns: the thread is not alive any more
unfoldable pub thread_ends : TerminalCallbackDispatcher → TerminalCallbackDispatcher
thread_ends d = record d { thread_alive = false }

abbrev pub add_all : List TurnKey → List TurnKey → List TurnKey
add_all [] set = set
add_all (key ∷ more) set = add_all more (add key set)

unfoldable pub tracked_turn_count : TerminalCallbackDispatcher → ℕ
tracked_turn_count d = length (
    add_all
      (keys d.contexts
        ++ (keys d.snapshots
            ++ (keys d.completions
                ++ (keys d.projection_errors
                    ++ (d.projection_owners
                        ++ (d.persistence_owners ++ (d.callback_abandoned ++ d.processing)))))))
      [])
