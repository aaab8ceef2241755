-- ===== src/Dispatcher/Claims.antt =====
-- callback_dispatcher.py: the sections in which a thread claims the projection or the persistence of
-- a turn, and settles it.
use superdev.Base.{
  if◌then◌else◌, string_eq, nat_eq, pair_eq, option_string_eq, contains, discard, add, Result, ok,
  err, lookup, insert, Bool, true, false, ◌&&◌, ◌||◌, none, some,
}
use superdev.Projection.{CompletionResponse}
use superdev.Dispatcher.{TurnKey, is_settled, cleanup, Failure, TerminalCallbackDispatcher}

-- How a thread leaves the loop at the head of a section that wants an ownership.
pub data Claim {ℓ} (A : Type ℓ) : Type ℓ where
  known : A → Claim A
  owned : Claim A
  waits : Claim A

-- The loop of `_project_once`: what is known of the projection, or that the thread owns it now.
unfoldable pub claim_projection :
    TurnKey
    → TerminalCallbackDispatcher
    → TerminalCallbackDispatcher × Claim (Result Failure CompletionResponse)
claim_projection key d = elim (lookup key d.completions) [
  | some completion ↦ (d, known (ok completion))
  | none ↦ elim (lookup key d.projection_errors) [
    | some error ↦ (d, known (err error))
    | none ↦
        if contains key d.projection_owners
        then (d, waits)
        else (record d { projection_owners = add key d.projection_owners }, owned)
  ]
]

-- The section after the projector has returned or raised.
unfoldable pub settle_projection :
    TurnKey
    → Result Failure CompletionResponse
    → TerminalCallbackDispatcher
    → TerminalCallbackDispatcher
settle_projection key (err error) d = record d {
  projection_owners = discard key d.projection_owners;
  projection_errors = insert key error d.projection_errors;
}
settle_projection key (ok completion) d = record d {
  projection_owners = discard key d.projection_owners;
  completions = insert key completion d.completions;
}

-- The loop of `_persist_once`
unfoldable pub claim_persistence :
    TurnKey → TerminalCallbackDispatcher → TerminalCallbackDispatcher × Claim (Unit {0})
claim_persistence key d =
    if is_settled key d
    then (d, known tt)
    else if contains key d.persistence_owners
    then (d, waits)
    else (record d { persistence_owners = add key d.persistence_owners }, owned)

-- The first section of `_persist_fallback_once`, which does not wait: whether it owns the turn
unfoldable pub claim_fallback :
    TurnKey → TerminalCallbackDispatcher → TerminalCallbackDispatcher × Bool
claim_fallback key d =
    if is_settled key d || contains key d.persistence_owners
    then (d, false)
    else (record d { persistence_owners = add key d.persistence_owners }, true)

-- The loop of `_durable_fault_once`
unfoldable pub claim_fault :
    TurnKey → TerminalCallbackDispatcher → TerminalCallbackDispatcher × Claim (Unit {0})
claim_fault key d =
    if contains key d.callback_done
    then (d, known tt)
    else if contains key d.persistence_owners
    then (d, waits)
    else (record d { persistence_owners = add key d.persistence_owners }, owned)

-- The section after the completion has been persisted.
unfoldable pub settle_persisted : TurnKey → TerminalCallbackDispatcher → TerminalCallbackDispatcher
unfolding cleanup
settle_persisted key d = cleanup key (record d {
  persistence_owners = discard key d.persistence_owners;
  callback_done = add key d.callback_done;
})

abbrev pub abandon : TurnKey → TerminalCallbackDispatcher → TerminalCallbackDispatcher
abandon key d = cleanup key (record d {
  persistence_owners = discard key d.persistence_owners;
  callback_abandoned = add key d.callback_abandoned;
})

abbrev pub disown : TurnKey → TerminalCallbackDispatcher → TerminalCallbackDispatcher
disown key d = record d { persistence_owners = discard key d.persistence_owners }

-- The section of `_persist_once` after a failure; `recorded` is whether the fault was recorded. The
-- second part is whether the loss is reported.
unfoldable pub settle_failed :
    TurnKey → Bool → TerminalCallbackDispatcher → TerminalCallbackDispatcher × Bool
unfolding settle_persisted cleanup
settle_failed key recorded d =
    if recorded && d.stopping
    then (settle_persisted key d, false)
    else if d.stopping
    then (abandon key d, true)
    else (disown key d, false)

-- The section of `_persist_fallback_once` after a failure
unfoldable pub settle_fallback :
    TurnKey → Bool → TerminalCallbackDispatcher → TerminalCallbackDispatcher × Bool
unfolding settle_persisted cleanup
settle_fallback key recorded d =
    if recorded then (settle_persisted key d, false) else (abandon key d, true)

-- The section of `_durable_fault_once` after the attempt to record the fault
unfoldable pub settle_fault :
    TurnKey → Bool → TerminalCallbackDispatcher → TerminalCallbackDispatcher × Bool
unfolding settle_persisted cleanup
settle_fault key recorded d =
    if recorded
    then (settle_persisted key d, false)
    else if d.stopping
    then (abandon key d, true)
    else (disown key d, false)

-- The last section of `_process_terminal`, but for a callback that is to be tried again
unfoldable pub finish_processing : TurnKey → TerminalCallbackDispatcher → TerminalCallbackDispatcher
unfolding cleanup
finish_processing key d = cleanup key (record d { processing = discard key d.processing })

-- That section for a callback that is to be tried again
unfoldable pub retry_processing : TurnKey → TerminalCallbackDispatcher → TerminalCallbackDispatcher
retry_processing key d = record d { processing = discard key d.processing }
