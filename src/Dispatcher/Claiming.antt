-- ===== src/Dispatcher/Claiming.antt =====
-- What a thread of callback_dispatcher.py owns when it is the only one on its turn.
use superdev.Base.{
  string_eq, nat_eq, pair_eq, option_string_eq, Option-cases, Result, ok, err, lookup, ◌≡◌, refl,
  ◌⊎◌, inl, inr, Bool, true, false, none, arith,
}
use superdev.Projection.{CompletionResponse}
use superdev.Dispatcher.{TurnKey, Failure, TerminalCallbackDispatcher}
use superdev.Dispatcher.Claims.{claim_projection, claim_persistence, claim_fault, known, owned}
use superdev.Dispatcher.Turns.{
  forget, deliver, lose, run_section, turn_section, tracked_turn, TrackedTurn, claiming_projection,
  claiming_persistence, claiming_fault, settling_projection, settling_persisted, settling_failed,
  settling_fault,
}
use superdev.Dispatcher.Working.{any_context, Leads, Leads-section, Open, Settled}

-- An open turn whose projection the thread owns, or whose persistence.
pub record Projecting (busy : Bool) (t : TrackedTurn) : Type 0 where
  pub unpersisted : t.persisting ≡ false
  pub processed : t.processed ≡ busy
  pub undelivered : t.delivered ≡ false
  pub unlost : t.lost ≡ false
  pub incomplete : t.completion ≡ none
  pub unraised : t.error ≡ none

pub record Persisting (t : TrackedTurn) : Type 0 where
  pub unprojected : t.projecting ≡ false
  pub processed : t.processed ≡ true

pub settles-Open :
    (busy : Bool) (outcome : Result Failure CompletionResponse) (stopping : Bool) (t : TrackedTurn)
    → Projecting busy t
    → Open busy (turn_section any_context (settling_projection outcome) stopping t)
unfolding turn_section
settles-Open busy (ok c) stopping t p = ground arith
settles-Open busy (err e) stopping t p = ground arith

delivers-Settled : (t : TrackedTurn) → Persisting t → Settled (deliver t)
unfolding forget
delivers-Settled t p = rw p.processed (ground arith)

loses-Settled : (t : TrackedTurn) → Persisting t → Settled (lose t)
unfolding forget
loses-Settled t p = ground arith

pub fails-Settled :
    (recorded stopping : Bool) (t : TrackedTurn)
    → stopping ≡ true
    → Persisting t
    → Settled (turn_section any_context (settling_failed recorded) stopping t)
unfolding turn_section
fails-Settled true true t h p = delivers-Settled t p
fails-Settled false true t h p = loses-Settled t p
fails-Settled recorded false t h p = cc

pub faults-Settled :
    (recorded stopping : Bool) (t : TrackedTurn)
    → stopping ≡ true
    → Persisting t
    → Settled (turn_section any_context (settling_fault recorded) stopping t)
unfolding turn_section
faults-Settled true stopping t h p = delivers-Settled t p
faults-Settled false true t h p = loses-Settled t p
faults-Settled false false t h p = cc

pub persists-Settled :
    (stopping : Bool) (t : TrackedTurn)
    → Persisting t
    → Settled (turn_section any_context settling_persisted stopping t)
unfolding turn_section
persists-Settled stopping t p = delivers-Settled t p

-- An open turn of which no projection is known.
abbrev Unknown : Bool → TrackedTurn → Type 0
Unknown busy t = Open busy t × (t.completion ≡ none) × (t.error ≡ none)

claims-Projecting :
    (busy stopping : Bool) (t : TrackedTurn)
    → Unknown busy t
    → Projecting busy (turn_section any_context claiming_projection stopping t)
unfolding turn_section
claims-Projecting busy stopping t (o, c, e) = rw (c, e) (ground arith)

claims-Persisting :
    (stopping : Bool) (t : TrackedTurn)
    → Open true t
    → Persisting (turn_section any_context claiming_persistence stopping t)
unfolding turn_section
claims-Persisting stopping t o = ground arith

faults-Persisting :
    (stopping : Bool) (t : TrackedTurn)
    → Open true t
    → Persisting (turn_section any_context claiming_fault stopping t)
unfolding turn_section
faults-Persisting stopping t o = ground arith

module _ (key : TurnKey) (d : TerminalCallbackDispatcher) (busy : Bool)
    (o : Open busy (tracked_turn key d)) where
  pub claim_projection-cases :
      ((r : Result Failure CompletionResponse) × (claim_projection key d ≡ (d, known r)))
      ⊎ ((d' : TerminalCallbackDispatcher) × (claim_projection key d ≡ (d', owned))
          × Leads (Projecting busy) key d d')
  unfolding claim_projection run_section tracked_turn
  claim_projection-cases = elim (Option-cases (lookup key d.completions)) [
    | inr (c, found) ↦ inl (ok c, rw (found, claim_projection) refl)
    | inl unknown ↦ elim (Option-cases (lookup key d.projection_errors)) [
      | inr (e, raised) ↦ inl (err e, rw (unknown, raised, claim_projection) refl)
      | inl fresh ↦ inr (
        run_section any_context claiming_projection key d,
        rw (unknown, fresh, o.idle.unprojected, claim_projection, run_section) refl,
        Leads-section (Unknown busy) (Projecting busy) claiming_projection key d
            (claims-Projecting busy d.stopping) (o, unknown, fresh),
      )
    ]
  ]

module _ (key : TurnKey) (d : TerminalCallbackDispatcher) (o : Open true (tracked_turn key d)) where
  pub claim_persistence-owned :
      (d' : TerminalCallbackDispatcher) × (claim_persistence key d ≡ (d', owned))
      × Leads Persisting key d d'
  unfolding claim_persistence run_section tracked_turn
  claim_persistence-owned = (
    run_section any_context claiming_persistence key d,
    rw (o.undelivered, o.unlost, o.idle.unpersisted, claim_persistence, run_section) refl,
    Leads-section (Open true) Persisting claiming_persistence key d (claims-Persisting d.stopping)
        o,
  )

  pub claim_fault-owned :
      (d' : TerminalCallbackDispatcher) × (claim_fault key d ≡ (d', owned))
      × Leads Persisting key d d'
  unfolding claim_fault run_section tracked_turn
  claim_fault-owned = (
    run_section any_context claiming_fault key d,
    rw (o.undelivered, o.idle.unpersisted, claim_fault, run_section) refl,
    Leads-section (Open true) Persisting claiming_fault key d (faults-Persisting d.stopping) o,
  )
