-- ===== src/Dispatcher/Leading.antt =====
-- The methods of callback_dispatcher.py on a turn that only their thread works on.
use superdev.Base.{
  string_eq, nat_eq, pair_eq, option_string_eq, Option-cases, Result, ◌-◌, String, ◌≡◌, refl, ap,
  ◌∙◌, inl, inr, Bool, true, none, some,
}
use superdev.Models.{TurnSnapshot}
use superdev.Projection.{CompletionResponse}
use superdev.Dispatcher.{TurnKey, Failure, TerminalProjectionContext, TerminalCallbackDispatcher}
use superdev.Dispatcher.Claims.{
  claim_projection, settle_projection, claim_persistence, claim_fault, settle_persisted,
  settle_failed, settle_fault, known, owned,
}
use superdev.Dispatcher.Turns.{
  run_section, tracked_turn, settling_projection, settling_persisted, settling_failed,
  settling_fault,
}
use superdev.Dispatcher.Processing.{
  reason_of, project_once, persist_once, durable_fault_once, TurnServices,
}
use superdev.Dispatcher.Working.{
  Moved-refl, Moved-stopping, any_context, Leads, Leads-section, Leads-trans, Open, Settled,
}
use superdev.Dispatcher.Claiming.{
  settles-Open, fails-Settled, faults-Settled, persists-Settled, claim_projection-cases,
  claim_persistence-owned, claim_fault-owned, Projecting, Persisting,
}

-- The ways through the methods, once a turn has been claimed.
module _ {S : Type 0} (w : TurnServices S) (key : TurnKey) (d d' : TerminalCallbackDispatcher) where
  project_once-known :
      (context : TerminalProjectionContext) (snapshot : TurnSnapshot)
      (r : Result Failure CompletionResponse)
      → claim_projection key d ≡ (d', known r)
      → project_once w key context snapshot d ≡ some (d', r)
  unfolding project_once
  project_once-known context snapshot r e = rw (e, project_once) (rw e refl)

  project_once-owned :
      (context : TerminalProjectionContext) (snapshot : TurnSnapshot)
      → claim_projection key d ≡ (d', owned)
      → project_once w key context snapshot d
        ≡ some (
          settle_projection key (w.project context snapshot (w.now - context.started_at)) d',
          w.project context snapshot (w.now - context.started_at),
        )
  unfolding project_once
  project_once-owned context snapshot e = rw (e, project_once) (rw e refl)

  persist_once-done :
      (context : TerminalProjectionContext) (completion : CompletionResponse) (s : S)
      → claim_persistence key d ≡ (d', owned)
      → (w.persist context completion s).1 ≡ none
      → persist_once w key context completion d s
        ≡ some (settle_persisted key d', (w.persist context completion s).0, true)
  unfolding persist_once
  persist_once-done context completion s e done = rw (e, done, persist_once) (rw e refl)

  persist_once-failed :
      (context : TerminalProjectionContext) (completion : CompletionResponse) (s s' : S)
      (f : Failure) (recorded : Bool)
      → claim_persistence key d ≡ (d', owned)
      → (w.persist context completion s).1 ≡ some f
      → w.record_fault key (reason_of f) (w.persist context completion s).0 ≡ (s', recorded)
      → persist_once w key context completion d s
        ≡ some ((settle_failed key recorded d').0, s', d.stopping)
  unfolding persist_once
  persist_once-failed context completion s s' f recorded e failed fault =
      rw (e, failed, fault, persist_once) (rw e refl)

  pub durable_fault_once-owned :
      (reason : String) (s s' : S) (recorded : Bool)
      → claim_fault key d ≡ (d', owned)
      → w.record_fault key reason s ≡ (s', recorded)
      → durable_fault_once w key reason d s ≡ some ((settle_fault key recorded d').0, s')
  unfolding durable_fault_once
  durable_fault_once-owned reason s s' recorded e fault =
      rw (e, fault, durable_fault_once) (rw e refl)

module _ {S : Type 0} (w : TurnServices S) (key : TurnKey) where
  pub project_once-Leads :
      (busy : Bool) (context : TerminalProjectionContext) (snapshot : TurnSnapshot)
      (d : TerminalCallbackDispatcher)
      → Open busy (tracked_turn key d)
      → (d' : TerminalCallbackDispatcher) × (outcome : Result Failure CompletionResponse)
        × (project_once w key context snapshot d ≡ some (d', outcome))
        × Leads (Open busy) key d d'
  unfolding run_section
  project_once-Leads busy context snapshot d o = elim (claim_projection-cases key d busy o) [
    | inl (r, e) ↦ (d, r, project_once-known w key d d context snapshot r e, (Moved-refl key d, o))
    | inr (d', e, (m, p)) ↦
        let outcome = w.project context snapshot (w.now - context.started_at) in
        (
          run_section any_context (settling_projection outcome) key d',
          outcome,
          project_once-owned w key d d' context snapshot e,
          Leads-trans (Open busy) m (
              Leads-section (Projecting busy) (Open busy) (settling_projection outcome) key d'
                (settles-Open busy outcome d'.stopping) p),
        )
  ]

  pub persist_once-Leads :
      (context : TerminalProjectionContext) (completion : CompletionResponse)
      (d : TerminalCallbackDispatcher) (s : S)
      → d.stopping ≡ true
      → Open true (tracked_turn key d)
      → (d' : TerminalCallbackDispatcher) × (s' : S) × (persist_once w key context completion d s
          ≡ some (d', s', true))
        × Leads Settled key d d'
  unfolding run_section
  persist_once-Leads context completion d s stops o =
      let (d', e, (m, p)) = claim_persistence-owned key d o in
      let written = w.persist context completion s in
      elim (Option-cases written.1) [
        | inl done ↦ (
          run_section any_context settling_persisted key d',
          written.0,
          persist_once-done w key d d' context completion s e done,
          Leads-trans Settled m (
              Leads-section Persisting Settled settling_persisted key d'
                (persists-Settled d'.stopping) p),
        )
        | inr (f, failed) ↦
            let fault = w.record_fault key (reason_of f) written.0 in
            (
              run_section any_context (settling_failed fault.1) key d',
              fault.0,
              persist_once-failed w key d d' context completion s fault.0 f fault.1 e failed refl
                  ∙ ap (λ (b : Bool). some ((settle_failed key fault.1 d').0, fault.0, b)) stops,
              Leads-trans Settled m (
                  Leads-section Persisting Settled (settling_failed fault.1) key d'
                    (λ t. fails-Settled fault.1 d'.stopping t (Moved-stopping m ∙ stops)) p),
            )
      ]

  pub durable_fault_once-Leads :
      (reason : String) (d : TerminalCallbackDispatcher) (s : S)
      → d.stopping ≡ true
      → Open true (tracked_turn key d)
      → (d' : TerminalCallbackDispatcher) × (s' : S) × (durable_fault_once w key reason d s
          ≡ some (d', s'))
        × Leads Settled key d d'
  unfolding run_section
  durable_fault_once-Leads reason d s stops o =
      let (d', e, (m, p)) = claim_fault-owned key d o in
      let fault = w.record_fault key reason s in
      (
        run_section any_context (settling_fault fault.1) key d',
        fault.0,
        durable_fault_once-owned w key d d' reason s fault.0 fault.1 e refl,
        Leads-trans Settled m (
            Leads-section Persisting Settled (settling_fault fault.1) key d'
              (λ t. faults-Settled fault.1 d'.stopping t (Moved-stopping m ∙ stops)) p),
      )
