-- ===== src/Dispatcher/Processing.antt =====
-- callback_dispatcher.py: the methods that a thread runs from one section to the next. `none` means
-- that the thread waits for the owner of the turn.
use superdev.Base.{
  if◌then◌else◌, string_eq, nat_eq, pair_eq, option_string_eq, get_or, Result, ok, err, lookup, ℕ,
  zero, suc, ◌-◌, String, Bool, true, not, Option, none, some,
}
use superdev.Models.{TurnSnapshot}
use superdev.Projection.{CompletionResponse}
use superdev.Dispatcher.{
  TurnKey, ready_key, take_turn, cleanup, abandon_completion, has_worker, Failure,
  TerminalProjectionContext, TerminalCallbackDispatcher,
}
use superdev.Dispatcher.Claims.{
  claim_projection, settle_projection, claim_persistence, claim_fallback, claim_fault,
  settle_persisted, settle_failed, settle_fallback, settle_fault, finish_processing,
  retry_processing, known, owned, waits,
}

-- What the dispatcher asks of the projector, the store and the clock. `S` is the state of the store.
pub record TurnServices (S : Type 0) : Type 0 where
  pub now : ℕ
  pub project : TerminalProjectionContext → TurnSnapshot → ℕ → Result Failure CompletionResponse
  pub persist : TerminalProjectionContext → CompletionResponse → S → S × Option Failure
  pub record_fault : TurnKey → String → S → S × Bool

-- `exc.kind if isinstance(exc, FacadeFault) else type(exc).__name__`
abbrev pub reason_of : Failure → String
reason_of f = get_or f.kind f.type_name

module _ {S : Type 0} (w : TurnServices S) where
  open w use {now, project, persist, record_fault}

  -- `_project_once`
  unfoldable pub project_once :
      TurnKey
      → TerminalProjectionContext
      → TurnSnapshot
      → TerminalCallbackDispatcher
      → Option (TerminalCallbackDispatcher × Result Failure CompletionResponse)
  project_once key context snapshot d =
      let claim = claim_projection key d in
      elim claim.1 [
        | known outcome ↦ some (claim.0, outcome)
        | waits ↦ none
        | owned ↦
            let outcome = project context snapshot (now - context.started_at) in
            some (settle_projection key outcome claim.0, outcome)
      ]

  -- `_persist_once`: the result is whether the thread is done with the callback.
  unfoldable pub persist_once :
      TurnKey
      → TerminalProjectionContext
      → CompletionResponse
      → TerminalCallbackDispatcher
      → S
      → Option (TerminalCallbackDispatcher × S × Bool)
  persist_once key context completion d s =
      let claim = claim_persistence key d in
      elim claim.1 [
        | known _ ↦ some (claim.0, s, true)
        | waits ↦ none
        | owned ↦
            let (s', failure) = persist context completion s in
            elim failure [
              | none ↦ some (settle_persisted key claim.0, s', true)
              | some f ↦
                  let (s'', recorded) = record_fault key (reason_of f) s' in
                  some ((settle_failed key recorded claim.0).0, s'', d.stopping)
            ]
      ]

  -- `_durable_fault_once`
  unfoldable pub durable_fault_once :
      TurnKey → String → TerminalCallbackDispatcher → S → Option (TerminalCallbackDispatcher × S)
  durable_fault_once key reason d s =
      let claim = claim_fault key d in
      elim claim.1 [
        | known _ ↦ some (claim.0, s)
        | waits ↦ none
        | owned ↦
            let (s', recorded) = record_fault key reason s in
            some ((settle_fault key recorded claim.0).0, s')
      ]

  -- `_persist_fallback_once`
  unfoldable pub persist_fallback_once :
      TurnKey
      → TerminalProjectionContext
      → CompletionResponse
      → TerminalCallbackDispatcher
      → S
      → TerminalCallbackDispatcher × S
  persist_fallback_once key context completion d s =
      let claim = claim_fallback key d in
      if not claim.1
      then (claim.0, s)
      else let (s', failure) = persist context completion s in
        elim failure [
          | none ↦ (settle_persisted key claim.0, s')
          | some f ↦
              let (s'', recorded) = record_fault key (reason_of f) s' in
              ((settle_fallback key recorded claim.0).0, s'')
        ]

  abbrev pub after_persist :
      TurnKey → TerminalCallbackDispatcher × S × Bool → TerminalCallbackDispatcher × S
  after_persist key (d, s, callback_done) =
      if callback_done then (finish_processing key d, s) else (retry_processing key d, s)

  -- `_process_terminal`
  unfoldable pub process_terminal :
      TurnKey
      → TerminalProjectionContext
      → TurnSnapshot
      → TerminalCallbackDispatcher
      → S
      → Option (TerminalCallbackDispatcher × S)
  process_terminal key context snapshot d s = elim (project_once key context snapshot d) [
    | none ↦ none
    | some (d', err error) ↦ elim (durable_fault_once key error.type_name d' s) [
      | none ↦ none
      | some (d'', s') ↦ some (finish_processing key d'', s')
    ]
    | some (d', ok completion) ↦ elim (persist_once key context completion d' s) [
      | none ↦ none
      | some r ↦ some (after_persist key r)
    ]
  ]

  -- `_drain_ready`; the number is how often the clock is read before the deadline
  unfoldable pub drain_ready :
      ℕ → TerminalCallbackDispatcher → S → Option (TerminalCallbackDispatcher × S)
  drain_ready zero d s = some (d, s)
  drain_ready (suc looks) d s = elim (ready_key d) [
    | none ↦ some (d, s)
    | some key ↦ elim (lookup key d.contexts) [
      | none ↦ none
      | some context ↦ elim (lookup key d.snapshots) [
        | none ↦ none
        | some snapshot ↦ elim (process_terminal key context snapshot (take_turn key d) s) [
          | none ↦ none
          | some (d', s') ↦ drain_ready looks d' s'
        ]
      ]
    ]
  ]

  -- `completion_for`, once the snapshot has been handed in. The dispatcher knows the turn, as it has
  -- been observed; the answer is the completion, or what the projector raised.
  unfoldable pub completion_for :
      TurnKey
      → TerminalProjectionContext
      → TurnSnapshot
      → TerminalCallbackDispatcher
      → S
      → Option (TerminalCallbackDispatcher × S × Result Failure CompletionResponse)
  completion_for key context snapshot d s = elim (project_once key context snapshot d) [
    | none ↦ none
    | some (d', err error) ↦ elim (durable_fault_once key error.type_name d' s) [
      | none ↦ none
      | some (d'', s') ↦ some (abandon_completion key d'', s', err error)
    ]
    | some (d', ok completion) ↦
        let answered = abandon_completion key d' in
        if has_worker d'
        then some (answered, s, ok completion)
        else let (d'', s') = persist_fallback_once key context completion answered s in
          some (cleanup key d'', s', ok completion)
  ]
