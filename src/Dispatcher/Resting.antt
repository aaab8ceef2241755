-- ===== src/Dispatcher/Resting.antt =====
-- A processed turn of callback_dispatcher.py, which is at rest.
use superdev.Base.{
  string_eq, nat_eq, pair_eq, option_string_eq, Result, ok, err, ◌≡◌, refl, ◌∙◌, Bool, true, false,
  some, arith,
}
use superdev.Models.{TurnSnapshot}
use superdev.Projection.{CompletionResponse}
use superdev.Dispatcher.{
  TurnKey, take_turn, Failure, TerminalProjectionContext, TerminalCallbackDispatcher,
}
use superdev.Dispatcher.Claims.{finish_processing}
use superdev.Dispatcher.Turns.{
  forget, run_section, turn_section, tracked_turn, TrackedTurn, taking, finishing,
}
use superdev.Dispatcher.Processing.{project_once, process_terminal, TurnServices}
use superdev.Dispatcher.Working.{
  ready, Moved-stopping, any_context, Leads, Leads-section, Leads-trans, Idle, Open, Settled,
}
use superdev.Dispatcher.Leading.{project_once-Leads, persist_once-Leads, durable_fault_once-Leads}

-- A turn that is not to be processed, and that no thread owns.
pub record AtRest (t : TrackedTurn) : Type 0 where
  pub idle : Idle t
  pub unready : ready t ≡ false

finishes-AtRest :
    (stopping : Bool) (t : TrackedTurn)
    → Settled t
    → AtRest (turn_section any_context finishing stopping t)
unfolding turn_section forget
finishes-AtRest stopping t p = ground (arith, p.settled)

takes-Open :
    (stopping : Bool) (t : TrackedTurn)
    → Idle t × (ready t ≡ true)
    → Open true (turn_section any_context taking stopping t)
unfolding turn_section
takes-Open stopping t (i, r) = ground arith

module _ {S : Type 0} (w : TurnServices S) (key : TurnKey) where
  finish_processing-Leads :
      (d : TerminalCallbackDispatcher)
      → Settled (tracked_turn key d)
      → Leads AtRest key d (finish_processing key d)
  unfolding run_section
  finish_processing-Leads d p =
      Leads-section Settled AtRest finishing key d (finishes-AtRest d.stopping) p

  process_terminal-after :
      (context : TerminalProjectionContext) (snapshot : TurnSnapshot)
      (d d' : TerminalCallbackDispatcher) (s : S) (outcome : Result Failure CompletionResponse)
      → project_once w key context snapshot d ≡ some (d', outcome)
      → d'.stopping ≡ true
      → Open true (tracked_turn key d')
      → (d'' : TerminalCallbackDispatcher) × (s' : S) × (process_terminal w key context snapshot d s
          ≡ some (d'', s'))
        × Leads AtRest key d' d''
  unfolding process_terminal
  process_terminal-after context snapshot d d' s (err error) e stops o =
      let (d'', s', f, (m, p)) = durable_fault_once-Leads w key error.type_name d' s stops o in
      (
        finish_processing key d'',
        s',
        rw (e, f, process_terminal) refl,
        Leads-trans AtRest m (finish_processing-Leads d'' p),
      )
  process_terminal-after context snapshot d d' s (ok completion) e stops o =
      let (d'', s', f, (m, p)) = persist_once-Leads w key context completion d' s stops o in
      (
        finish_processing key d'',
        s',
        rw (e, f, process_terminal) refl,
        Leads-trans AtRest m (finish_processing-Leads d'' p),
      )

  -- A turn that is ready is processed without waiting, and is at rest then.
  pub process_terminal-Leads :
      (context : TerminalProjectionContext) (snapshot : TurnSnapshot)
      (d : TerminalCallbackDispatcher) (s : S)
      → d.stopping ≡ true
      → Idle (tracked_turn key d)
      → ready (tracked_turn key d) ≡ true
      → (d' : TerminalCallbackDispatcher) × (s' : S) × (process_terminal w key context snapshot
            (take_turn key d)
            s
          ≡ some (d', s'))
        × Leads AtRest key d d'
  unfolding run_section
  process_terminal-Leads context snapshot d s stops i r =
      let (m, o) =
        Leads-section (λ t. Idle t × (ready t ≡ true)) (Open true) taking key d
          (takes-Open d.stopping) (i, r) in
      let (d', outcome, e, (n, p)) =
        project_once-Leads w key true context snapshot (take_turn key d) o in
      let (d'', s', f, l) =
        process_terminal-after context snapshot (take_turn key d) d' s outcome e
          (Moved-stopping n ∙ stops) p in
      (d'', s', f, Leads-trans AtRest m (Leads-trans AtRest n l))
