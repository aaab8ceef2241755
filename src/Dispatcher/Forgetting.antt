-- ===== src/Dispatcher/Forgetting.antt =====
-- What becomes of an answered turn of callback_dispatcher.py.
use superdev.Base.{
  string_eq, nat_eq, pair_eq, option_string_eq, Bool-cases, is_some, ◌≡◌, refl, ◌⊎◌, inl, inr, Bool,
  true, false, not, ◌||◌, arith,
}
use superdev.Dispatcher.{has_worker, TerminalCallbackDispatcher}
use superdev.Dispatcher.Turns.{
  forget, deliver, lose, turn_section, TrackedTurn, claiming_fallback, claiming_fault,
  settling_persisted, answering, settling_fallback, settling_fault,
}
use superdev.Dispatcher.Working.{any_context, Idle, Open}

-- A turn whose client has been answered, with an open callback that no thread processes.
pub record Answered (t : TrackedTurn) : Type 0 where
  pub idle : Idle t
  pub unprocessed : t.processed ≡ false
  pub undelivered : t.delivered ≡ false
  pub unlost : t.lost ≡ false
  pub answered : t.answered ≡ true

-- The same, while a thread owns its callback.
pub record Falling (t : TrackedTurn) : Type 0 where
  pub unprocessed : t.processed ≡ false
  pub answered : t.answered ≡ true

-- An open turn that no thread processes, while a thread owns its callback.
pub record Faulting (t : TrackedTurn) : Type 0 where
  pub idle : t.projecting ≡ false
  pub unprocessed : t.processed ≡ false
  pub undelivered : t.delivered ≡ false
  pub unlost : t.lost ≡ false

-- What `tracked_turn_count` counts.
abbrev pub is_tracked : TrackedTurn → Bool
is_tracked t =
    is_some t.context
    || is_some t.snapshot
    || is_some t.completion
    || is_some t.error
    || t.projecting
    || t.persisting
    || t.lost
    || t.processed

abbrev pub Gone : TrackedTurn → Type 0
Gone t = is_tracked t ≡ false

-- A turn that is gone or settled, or whose fault can be recorded again.
abbrev pub Faulted : Bool → TrackedTurn → Type 0
Faulted stopping t =
    Gone t ⊎ (((t.processed ≡ false) × ((t.delivered || t.lost) ≡ true)) ⊎ (stopping ≡ false))

pub forget-Gone : (t : TrackedTurn) → Gone t → Gone (forget t)
unfolding forget
forget-Gone t gone =
    elim (Bool-cases (not (t.delivered || t.lost) || not t.answered || t.processed)) [
      | inl stays ↦ rw stays gone
      | inr goes ↦ rw goes refl
    ]

settled-Faulted :
    (stopping : Bool) (t : TrackedTurn)
    → t.processed ≡ false
    → (t.delivered || t.lost) ≡ true
    → Faulted stopping (forget t)
unfolding forget
settled-Faulted stopping t u settled = elim (Bool-cases t.answered) [
  | inl done ↦ rw (u, settled, done) (inl refl)
  | inr waiting ↦ rw (settled, waiting) (inr (inl (u, settled)))
]

or_true : (b : Bool) → (b || true) ≡ true
or_true true = refl
or_true false = refl

pub answers-Answered :
    (stopping : Bool) (t : TrackedTurn)
    → Open false t
    → Answered (turn_section any_context answering stopping t)
unfolding turn_section forget
answers-Answered stopping t o = rw (o.undelivered, o.unlost) (ground arith)

pub claims-Falling :
    (stopping : Bool) (t : TrackedTurn)
    → Answered t
    → Falling (turn_section any_context claiming_fallback stopping t)
unfolding turn_section
claims-Falling stopping t a = ground arith

delivers-Gone : (t : TrackedTurn) → Falling t → Gone (deliver t)
unfolding forget
delivers-Gone t f = rw (f.unprocessed, f.answered) refl

loses-Gone : (t : TrackedTurn) → Falling t → Gone (lose t)
unfolding forget
loses-Gone t f = rw (or_true t.delivered, f.unprocessed, f.answered) refl

pub falls-Gone :
    (recorded stopping : Bool) (t : TrackedTurn)
    → Falling t
    → Gone (turn_section any_context (settling_fallback recorded) stopping t)
unfolding turn_section
falls-Gone true stopping t f = delivers-Gone t f
falls-Gone false stopping t f = loses-Gone t f

pub persists-Gone :
    (stopping : Bool) (t : TrackedTurn)
    → Falling t
    → Gone (turn_section any_context settling_persisted stopping t)
unfolding turn_section
persists-Gone stopping t f = delivers-Gone t f

pub no_worker : (d : TerminalCallbackDispatcher) → d.thread_alive ≡ false → has_worker d ≡ false
no_worker d dead = ground arith

pub faults-Faulting :
    (stopping : Bool) (t : TrackedTurn)
    → Open false t
    → Faulting (turn_section any_context claiming_fault stopping t)
unfolding turn_section
faults-Faulting stopping t o = ground arith

pub settles-Faulted :
    (recorded stopping : Bool) (t : TrackedTurn)
    → Faulting t
    → Faulted stopping (turn_section any_context (settling_fault recorded) stopping t)
unfolding turn_section
settles-Faulted true stopping t f =
    settled-Faulted stopping (record t { persisting = false; delivered = true }) f.unprocessed refl
settles-Faulted false true t f =
    settled-Faulted true (record t { persisting = false; lost = true }) f.unprocessed
      (or_true t.delivered)
settles-Faulted false false t f = inr (inr refl)

pub answers-Gone :
    (still stopping : Bool) (t : TrackedTurn)
    → Faulted still t
    → Gone (turn_section any_context answering stopping t) ⊎ (still ≡ false)
unfolding turn_section forget
answers-Gone still stopping t (inl gone) = inl (forget-Gone (record t { answered = true }) gone)
answers-Gone still stopping t (inr (inl (u, settled))) = inl (rw (settled, u) refl)
answers-Gone still stopping t (inr (inr runs)) = inr runs
