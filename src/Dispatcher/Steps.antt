-- ===== src/Dispatcher/Steps.antt =====
-- Sections in a row: what they do to a turn, and what none of them undoes.
use mathlib.Core.Path.{subst}
use superdev.Base.{
  if◌then◌else◌, string_eq, ◌==◌, nat_eq, pair_eq, option_string_eq, Bool-cases, is_some, ok, err,
  ◌≡◌, refl, ◌⊎◌, inl, inr, Bool, true, false, not, ◌||◌, arith,
}
use superdev.Dispatcher.{TurnKey, TerminalProjectionContext, TerminalCallbackDispatcher}
use superdev.Dispatcher.Turns.{
  untracked, forget, deliver, lose, try_again, run_section, turn_section, tracked_turn, TrackedTurn,
  Section, observing, handing, taking, claiming_projection, claiming_persistence, claiming_fallback,
  claiming_fault, settling_projection, settling_persisted, finishing, retrying, answering,
  settling_failed, settling_fallback, settling_fault,
}
use superdev.Dispatcher.Refinement.{run_section_other, run_section_self}

-- What a turn has, a later one has: the context, the first snapshot, the outcome of the callback and
-- the answer to the client.
pub record Keeps (t t' : TrackedTurn) : Type 0 where
  pub context : is_some t.context ≡ true → is_some t'.context ≡ true
  pub snapshot : is_some t.snapshot ≡ true → t'.snapshot ≡ t.snapshot
  pub delivered : t.delivered ≡ true → t'.delivered ≡ true
  pub lost : t.lost ≡ true → t'.lost ≡ true
  pub answered : t.answered ≡ true → t'.answered ≡ true

forget-Keeps : (t t' : TrackedTurn) → Keeps t t' → (forget t' ≡ untracked) ⊎ Keeps t (forget t')
unfolding forget
forget-Keeps t t' k =
    elim (Bool-cases (not (t'.delivered || t'.lost) || not t'.answered || t'.processed)) [
      | inl stays ↦ rw stays (inr k)
      | inr goes ↦ rw goes (inl refl)
    ]

deliver-Keeps : (t : TrackedTurn) → (deliver t ≡ untracked) ⊎ Keeps t (deliver t)
deliver-Keeps t = forget-Keeps t (record t { persisting = false; delivered = true }) (ground arith)

lose-Keeps : (t : TrackedTurn) → (lose t ≡ untracked) ⊎ Keeps t (lose t)
lose-Keeps t = forget-Keeps t (record t { persisting = false; lost = true }) (ground arith)

try_again-Keeps : (t : TrackedTurn) → Keeps t (try_again t)
try_again-Keeps t = ground arith

module _ (same : TerminalProjectionContext → TerminalProjectionContext → Bool) where
  turn_section-Keeps :
      (a : Section) (stopping : Bool) (t : TrackedTurn)
      → (turn_section same a stopping t ≡ untracked) ⊎ Keeps t (turn_section same a stopping t)
  unfolding turn_section
  turn_section-Keeps (observing context) stopping t = inr (ground arith)
  turn_section-Keeps (handing snapshot) stopping t = inr (ground arith)
  turn_section-Keeps taking stopping t = inr (ground arith)
  turn_section-Keeps claiming_projection stopping t = inr (ground arith)
  turn_section-Keeps claiming_persistence stopping t = inr (ground arith)
  turn_section-Keeps claiming_fallback stopping t = inr (ground arith)
  turn_section-Keeps claiming_fault stopping t = inr (ground arith)
  turn_section-Keeps (settling_projection (ok c)) stopping t = inr (ground arith)
  turn_section-Keeps (settling_projection (err e)) stopping t = inr (ground arith)
  turn_section-Keeps settling_persisted stopping t = deliver-Keeps t
  turn_section-Keeps finishing stopping t =
      forget-Keeps t (record t { processed = false }) (ground arith)
  turn_section-Keeps retrying stopping t = inr (ground arith)
  turn_section-Keeps answering stopping t =
      forget-Keeps t (record t { answered = true }) (ground arith)
  turn_section-Keeps (settling_failed true) true t = deliver-Keeps t
  turn_section-Keeps (settling_failed true) false t = inr (try_again-Keeps t)
  turn_section-Keeps (settling_failed false) true t = lose-Keeps t
  turn_section-Keeps (settling_failed false) false t = inr (try_again-Keeps t)
  turn_section-Keeps (settling_fallback true) stopping t = deliver-Keeps t
  turn_section-Keeps (settling_fallback false) stopping t = lose-Keeps t
  turn_section-Keeps (settling_fault true) stopping t = deliver-Keeps t
  turn_section-Keeps (settling_fault false) true t = lose-Keeps t
  turn_section-Keeps (settling_fault false) false t = inr (try_again-Keeps t)

  -- Each section of the dispatcher is the section on the record of its turn, and leaves every other
  -- turn as it is: the tables implement a map from turns to records.
  pub run_section-refines :
      (a : Section) (key k : TurnKey) (d : TerminalCallbackDispatcher)
      → tracked_turn k (run_section same a key d)
        ≡ (if key == k then turn_section same a d.stopping (tracked_turn k d) else tracked_turn k d)
  run_section-refines a key k d = elim (Bool-cases (key == k)) [
    | inl equal ↦
        let e = (pair_eq.beq_iff key k).0 equal in
        rw equal (
          subst
            (λ k.
              tracked_turn k (run_section same a key d)
              ≡ turn_section same a d.stopping (tracked_turn k d))
            e (run_section_self same key a d))
    | inr other ↦ rw other (run_section_other same key k other a d)
  ]

  -- Whatever section runs, for whatever turn, a turn that the dispatcher knows keeps its context, its
  -- first snapshot, the outcome of its callback and the answer to its client, or is forgotten whole.
  pub run_section-Keeps :
      (a : Section) (key k : TurnKey) (d : TerminalCallbackDispatcher)
      → (tracked_turn k (run_section same a key d) ≡ untracked)
        ⊎ Keeps (tracked_turn k d) (tracked_turn k (run_section same a key d))
  run_section-Keeps a key k d = elim (Bool-cases (key == k)) [
    | inl equal ↦
        rw (run_section-refines a key k d, equal)
          (turn_section-Keeps a d.stopping (tracked_turn k d))
    | inr other ↦ inr (rw (run_section-refines a key k d, other) (ground arith))
  ]
