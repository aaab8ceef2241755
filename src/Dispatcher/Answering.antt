-- ===== src/Dispatcher/Answering.antt =====
-- `completion_for` of callback_dispatcher.py when no thread sends callbacks and no other client has the
-- turn.
use mathlib.Core.Path.{subst}
use superdev.Base.{
  string_eq, ◌==◌, nat_eq, pair_eq, option_string_eq, Option-cases, Result, ok, err, String, ◌≡◌,
  refl, sym, ◌∙◌, ◌⊎◌, inl, inr, Bool, true, false, none, some,
}
use superdev.Models.{TurnSnapshot}
use superdev.Projection.{CompletionResponse}
use superdev.Dispatcher.{
  TurnKey, cleanup, abandon_completion, has_worker, Failure, TerminalProjectionContext,
  TerminalCallbackDispatcher,
}
use superdev.Dispatcher.Claims.{
  claim_fallback, claim_fault, settle_persisted, settle_fallback, owned,
}
use superdev.Dispatcher.Turns.{
  run_section, turn_section, tracked_turn, claiming_fallback, claiming_fault, settling_persisted,
  answering, settling_fallback, settling_fault,
}
use superdev.Dispatcher.Refinement.{
  cleanup_self, cleanup_other, run_section_other, run_section_self,
}
use superdev.Dispatcher.Processing.{
  reason_of, project_once, durable_fault_once, persist_fallback_once, completion_for, TurnServices,
}
use superdev.Dispatcher.Working.{
  Moved-stopping, Moved-alive, any_context, Leads, Leads-section, Leads-trans, Open,
}
use superdev.Dispatcher.Leading.{durable_fault_once-owned, project_once-Leads}
use superdev.Dispatcher.Forgetting.{
  is_tracked, Gone, Faulted, forget-Gone, answers-Answered, claims-Falling, falls-Gone,
  persists-Gone, no_worker, faults-Faulting, settles-Faulted, answers-Gone, Answered, Falling,
  Faulting,
}

module _ {S : Type 0} (w : TurnServices S) (key : TurnKey) where
  durable_fault_once-faults :
      (reason : String) (d : TerminalCallbackDispatcher) (s : S)
      → Open false (tracked_turn key d)
      → (d' : TerminalCallbackDispatcher) × (s' : S) × (durable_fault_once w key reason d s
          ≡ some (d', s'))
        × Leads (Faulted d.stopping) key d d'
  unfolding run_section claim_fault tracked_turn
  durable_fault_once-faults reason d s o =
      let fault = w.record_fault key reason s in
      let d1 = run_section any_context claiming_fault key d in
      let claimed : claim_fault key d ≡ (d1, owned) =
        rw (o.undelivered, o.idle.unpersisted, claim_fault, run_section) refl in
      let (m, p) =
        Leads-section (Open false) Faulting claiming_fault key d (faults-Faulting d.stopping) o in
      (
        run_section any_context (settling_fault fault.1) key d1,
        fault.0,
        durable_fault_once-owned w key d d1 reason s fault.0 fault.1 claimed refl,
        Leads-trans (Faulted d.stopping) m (
            Leads-section Faulting (Faulted d.stopping) (settling_fault fault.1) key d1
              (λ t f.
                subst
                  (λ b. Faulted b (turn_section any_context (settling_fault fault.1) d1.stopping t))
                  (Moved-stopping m) (settles-Faulted fault.1 d1.stopping t f))
              p),
      )

  persist_fallback_once-done :
      (context : TerminalProjectionContext) (completion : CompletionResponse)
      (d d' : TerminalCallbackDispatcher) (s : S)
      → claim_fallback key d ≡ (d', true)
      → (w.persist context completion s).1 ≡ none
      → persist_fallback_once w key context completion d s
        ≡ (settle_persisted key d', (w.persist context completion s).0)
  unfolding persist_fallback_once
  persist_fallback_once-done context completion d d' s e done =
      rw (e, done, persist_fallback_once) (rw e refl)

  persist_fallback_once-failed :
      (context : TerminalProjectionContext) (completion : CompletionResponse)
      (d d' : TerminalCallbackDispatcher) (s s' : S) (f : Failure) (recorded : Bool)
      → claim_fallback key d ≡ (d', true)
      → (w.persist context completion s).1 ≡ some f
      → w.record_fault key (reason_of f) (w.persist context completion s).0 ≡ (s', recorded)
      → persist_fallback_once w key context completion d s
        ≡ ((settle_fallback key recorded d').0, s')
  unfolding persist_fallback_once
  persist_fallback_once-failed context completion d d' s s' f recorded e failed fault =
      rw (e, failed, fault, persist_fallback_once) (rw e refl)

  persist_fallback_once-Leads :
      (context : TerminalProjectionContext) (completion : CompletionResponse)
      (d : TerminalCallbackDispatcher) (s : S)
      → Answered (tracked_turn key d)
      → (d' : TerminalCallbackDispatcher) × (s' : S) × (persist_fallback_once w key context
            completion d s
          ≡ (d', s'))
        × Leads Gone key d d'
  unfolding run_section claim_fallback tracked_turn
  persist_fallback_once-Leads context completion d s a =
      let d1 = run_section any_context claiming_fallback key d in
      let claimed : claim_fallback key d ≡ (d1, true) =
        rw (a.undelivered, a.unlost, a.idle.unpersisted, claim_fallback, run_section) refl in
      let (m, p) =
        Leads-section Answered Falling claiming_fallback key d (claims-Falling d.stopping) a in
      let written = w.persist context completion s in
      elim (Option-cases written.1) [
        | inl done ↦ (
          run_section any_context settling_persisted key d1,
          written.0,
          persist_fallback_once-done context completion d d1 s claimed done,
          Leads-trans Gone m
              (Leads-section Falling Gone settling_persisted key d1 (persists-Gone d1.stopping) p),
        )
        | inr (f, failed) ↦
            let fault = w.record_fault key (reason_of f) written.0 in
            (
              run_section any_context (settling_fallback fault.1) key d1,
              fault.0,
              persist_fallback_once-failed context completion d d1 s fault.0 f fault.1 claimed
                  failed refl,
              Leads-trans Gone m (
                  Leads-section Falling Gone (settling_fallback fault.1) key d1
                    (falls-Gone fault.1 d1.stopping) p),
            )
      ]

  -- What `completion_for` leads to from the outcome of the projection.
  completion_for-after :
      (context : TerminalProjectionContext) (snapshot : TurnSnapshot)
      (d d' : TerminalCallbackDispatcher) (s : S) (outcome : Result Failure CompletionResponse)
      → project_once w key context snapshot d ≡ some (d', outcome)
      → d'.thread_alive ≡ false
      → Open false (tracked_turn key d')
      → (d'' : TerminalCallbackDispatcher) × (s' : S) × (completion_for w key context snapshot d s
          ≡ some (d'', s', outcome))
        × (Gone (tracked_turn key d'')
            ⊎ (((e : Failure) × (outcome ≡ err e)) × (d'.stopping ≡ false)))
        × ((k : TurnKey) → (key == k) ≡ false → tracked_turn k d'' ≡ tracked_turn k d')
  unfolding completion_for run_section
  completion_for-after context snapshot d d' s (err error) e dead o =
      let (d'', s', f, (m, p)) = durable_fault_once-faults error.type_name d' s o in
      let answer = run_section any_context answering key d'' in
      (
        abandon_completion key d'',
        s',
        rw (e, f, completion_for) refl,
        elim (answers-Gone d'.stopping d''.stopping (tracked_turn key d'') p) [
          | inl gone ↦ inl (rw (run_section_self any_context key answering d'') gone)
          | inr runs ↦ inr ((error, refl), runs)
        ],
        λ k other. run_section_other any_context key k other answering d'' ∙ m.others k other,
      )
  completion_for-after context snapshot d d' s (ok completion) e dead o =
      let d1 = abandon_completion key d' in
      let (m, a) =
        Leads-section (Open false) Answered answering key d' (answers-Answered d'.stopping) o in
      let (d'', s', f, (n, gone)) = persist_fallback_once-Leads context completion d1 s a in
      let alone : has_worker d' ≡ false = no_worker d' dead in
      (
        cleanup key d'',
        s',
        rw (e, alone, f, completion_for) refl,
        inl (rw (cleanup_self key d'') (forget-Gone (tracked_turn key d'') gone)),
        λ k other. cleanup_other key d'' k other ∙ n.others k other ∙ m.others k other,
      )

-- A completion is asked for while no thread sends callbacks, while no other caller projects, persists
-- or processes the turn, and before the callback of the turn has been delivered or given up. Then the
-- call is answered without waiting, and the dispatcher tracks nothing of the turn afterwards, if the
-- completion could be projected or the dispatcher is being shut down; every other turn is as it was.
pub completion_for-forgets :
    {S : Type 0} (w : TurnServices S) (key : TurnKey) (context : TerminalProjectionContext)
    (snapshot : TurnSnapshot) (d : TerminalCallbackDispatcher) (s : S)
    → d.thread_alive ≡ false
    → Open false (tracked_turn key d)
    → (d' : TerminalCallbackDispatcher) × (s' : S) × (answer : Result Failure CompletionResponse)
      × (completion_for w key context snapshot d s ≡ some (d', s', answer))
      × ((is_tracked (tracked_turn key d') ≡ false)
          ⊎ (((e : Failure) × (answer ≡ err e)) × (d.stopping ≡ false)))
      × ((k : TurnKey) → (key == k) ≡ false → tracked_turn k d' ≡ tracked_turn k d)
completion_for-forgets w key context snapshot d s dead o =
    let (d', outcome, e, (m, o')) = project_once-Leads w key false context snapshot d o in
    let (d'', s', f, left, others) =
      completion_for-after w key context snapshot d d' s outcome e (Moved-alive m ∙ dead) o' in
    (
      d'',
      s',
      outcome,
      f,
      elim left [
        | inl gone ↦ inl gone
        | inr (raised, runs) ↦ inr (raised, sym (Moved-stopping m) ∙ runs)
      ],
      λ k other. others k other ∙ m.others k other,
    )
