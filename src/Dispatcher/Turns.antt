-- ===== src/Dispatcher/Turns.antt =====
-- What the dispatcher is for one turn: a record in place of the ten tables, and each section as a
-- function on it. This is the specification that the tables of `Dispatcher` implement.
use superdev.Base.{
  if◌then◌else◌, string_eq, nat_eq, pair_eq, option_string_eq, is_some, contains, Result, ok, err,
  lookup, Bool, true, false, not, ◌&&◌, ◌||◌, Option, none, some,
}
use superdev.Models.{TurnSnapshot}
use superdev.Projection.{CompletionResponse}
use superdev.Dispatcher.{
  TurnKey, observe, keep_first, take_turn, abandon_completion, Failure, TerminalProjectionContext,
  TerminalCallbackDispatcher,
}
use superdev.Dispatcher.Claims.{
  claim_projection, settle_projection, claim_persistence, claim_fallback, claim_fault,
  settle_persisted, settle_failed, settle_fallback, settle_fault, finish_processing,
  retry_processing,
}

pub record TrackedTurn : Type 0 where
  pub context : Option TerminalProjectionContext
  pub snapshot : Option TurnSnapshot
  pub completion : Option CompletionResponse
  pub error : Option Failure
  pub projecting : Bool
  pub persisting : Bool
  pub processed : Bool
  pub delivered : Bool
  pub lost : Bool
  pub answered : Bool

-- A turn of which the dispatcher knows nothing.
abbrev pub untracked : TrackedTurn
untracked = record {
  context = none;
  snapshot = none;
  completion = none;
  error = none;
  projecting = false;
  persisting = false;
  processed = false;
  delivered = false;
  lost = false;
  answered = false;
}

-- A turn is forgotten once its callback is settled, its client has been answered, and no thread
-- processes it.
unfoldable pub forget : TrackedTurn → TrackedTurn
forget t = if not (t.delivered || t.lost) || not t.answered || t.processed then t else untracked

abbrev pub deliver : TrackedTurn → TrackedTurn
deliver t = forget (record t { persisting = false; delivered = true })

abbrev pub lose : TrackedTurn → TrackedTurn
lose t = forget (record t { persisting = false; lost = true })

abbrev pub try_again : TrackedTurn → TrackedTurn
try_again t = record t { persisting = false }

-- The sections that are about a turn, with the outcome of what a thread did before them.
pub data Section : Type 0 where
  observing : TerminalProjectionContext → Section
  handing : TurnSnapshot → Section
  taking claiming_projection claiming_persistence claiming_fallback claiming_fault : Section
  settling_projection : Result Failure CompletionResponse → Section
  settling_persisted finishing retrying answering : Section
  settling_failed settling_fallback settling_fault : Bool → Section

module _ (same : TerminalProjectionContext → TerminalProjectionContext → Bool) where
  -- The section on the dispatcher; `observe` leaves it alone when it raises.
  unfoldable pub run_section :
      Section → TurnKey → TerminalCallbackDispatcher → TerminalCallbackDispatcher
  unfolding observe take_turn claim_projection settle_projection claim_persistence claim_fallback
      claim_fault settle_persisted settle_failed settle_fallback settle_fault finish_processing
      retry_processing abandon_completion
  run_section (observing context) key d = elim (observe same key context d) [
    | ok d' ↦ d'
    | err _ ↦ d
  ]
  run_section (handing snapshot) key d = record d {
    snapshots = keep_first key snapshot d.snapshots;
  }
  run_section taking key d = take_turn key d
  run_section claiming_projection key d = (claim_projection key d).0
  run_section claiming_persistence key d = (claim_persistence key d).0
  run_section claiming_fallback key d = (claim_fallback key d).0
  run_section claiming_fault key d = (claim_fault key d).0
  run_section (settling_projection outcome) key d = settle_projection key outcome d
  run_section settling_persisted key d = settle_persisted key d
  run_section finishing key d = finish_processing key d
  run_section retrying key d = retry_processing key d
  run_section answering key d = abandon_completion key d
  run_section (settling_failed recorded) key d = (settle_failed key recorded d).0
  run_section (settling_fallback recorded) key d = (settle_fallback key recorded d).0
  run_section (settling_fault recorded) key d = (settle_fault key recorded d).0

  -- The section on the turn; `stopping` is whether the dispatcher is being shut down.
  unfoldable pub turn_section : Section → Bool → TrackedTurn → TrackedTurn
  unfolding forget
  turn_section (observing context) stopping t = elim t.context [
    | none ↦ record t { context = some context }
    | some existing ↦ if same existing context then record t { context = some context } else t
  ]
  turn_section (handing snapshot) stopping t = elim t.snapshot [
    | none ↦ record t { snapshot = some snapshot }
    | some _ ↦ t
  ]
  turn_section taking stopping t = record t { processed = true }
  turn_section claiming_projection stopping t =
      if is_some t.completion || is_some t.error then t else record t { projecting = true }
  turn_section claiming_persistence stopping t =
      if t.delivered || t.lost then t else record t { persisting = true }
  turn_section claiming_fallback stopping t =
      if t.delivered || t.lost then t else record t { persisting = true }
  turn_section claiming_fault stopping t = if t.delivered then t else record t { persisting = true }
  turn_section (settling_projection (ok completion)) stopping t = record t {
    projecting = false;
    completion = some completion;
  }
  turn_section (settling_projection (err error)) stopping t = record t {
    projecting = false;
    error = some error;
  }
  turn_section settling_persisted stopping t = deliver t
  turn_section finishing stopping t = forget (record t { processed = false })
  turn_section retrying stopping t = record t { processed = false }
  turn_section answering stopping t = forget (record t { answered = true })
  turn_section (settling_failed recorded) stopping t =
      if recorded && stopping then deliver t else if stopping then lose t else try_again t
  turn_section (settling_fallback recorded) stopping t = if recorded then deliver t else lose t
  turn_section (settling_fault recorded) stopping t =
      if recorded then deliver t else if stopping then lose t else try_again t

-- What the tables hold of a turn.
unfoldable pub tracked_turn : TurnKey → TerminalCallbackDispatcher → TrackedTurn
tracked_turn key d = record {
  context = lookup key d.contexts;
  snapshot = lookup key d.snapshots;
  completion = lookup key d.completions;
  error = lookup key d.projection_errors;
  projecting = contains key d.projection_owners;
  persisting = contains key d.persistence_owners;
  processed = contains key d.processing;
  delivered = contains key d.callback_done;
  lost = contains key d.callback_abandoned;
  answered = contains key d.client_done;
}
