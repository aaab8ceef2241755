-- ===== src/Dispatcher/Working.antt =====
-- What a thread that works on a turn leaves of it, while the dispatcher is being shut down.
use superdev.Base.{
  string_eq, ◌==◌, nat_eq, pair_eq, option_string_eq, Bool-cases, is_some, contains, ok, err, ◌≡◌,
  refl, ap, ◌∙◌, inl, inr, Bool, true, false, not, ◌&&◌, ◌||◌, arith,
}
use superdev.Dispatcher.{
  TurnKey, observe, take_turn, is_settled, cleanup, abandon_completion, TerminalProjectionContext,
  TerminalCallbackDispatcher,
}
use superdev.Dispatcher.Claims.{
  claim_projection, settle_projection, claim_persistence, claim_fallback, claim_fault,
  settle_persisted, settle_failed, settle_fallback, settle_fault, finish_processing,
  retry_processing,
}
use superdev.Dispatcher.Turns.{
  run_section, turn_section, tracked_turn, TrackedTurn, Section, observing, handing, taking,
  claiming_projection, claiming_persistence, claiming_fallback, claiming_fault, settling_projection,
  settling_persisted, finishing, retrying, answering, settling_failed, settling_fallback,
  settling_fault,
}
use superdev.Dispatcher.Refinement.{chosen, run_section_other, run_section_self}

abbrev pub ready : TrackedTurn → Bool
ready t =
    is_some t.snapshot && is_some t.context && not t.processed && not t.delivered && not t.lost

-- No thread owns the turn.
pub record Idle (t : TrackedTurn) : Type 0 where
  pub unprojected : t.projecting ≡ false
  pub unpersisted : t.persisting ≡ false

-- The flags that the sections of a turn read.
abbrev pub flags : TerminalCallbackDispatcher → Bool × Bool
flags d = (d.stopping, d.thread_alive)

-- What a thread that works on the turn `key` leaves as it is.
pub record Moved (key : TurnKey) (d d' : TerminalCallbackDispatcher) : Type 0 where
  pub others : (k : TurnKey) → (key == k) ≡ false → tracked_turn k d' ≡ tracked_turn k d
  pub flags_kept : flags d' ≡ flags d

pub Moved-trans :
    {key : TurnKey} {d d' d'' : TerminalCallbackDispatcher}
    → Moved key d d'
    → Moved key d' d''
    → Moved key d d''
Moved-trans m n = record {
  others = λ k h. n.others k h ∙ m.others k h;
  flags_kept = n.flags_kept ∙ m.flags_kept;
}

pub Moved-refl : (key : TurnKey) (d : TerminalCallbackDispatcher) → Moved key d d
Moved-refl key d = record { others = λ k h. refl; flags_kept = refl }

pub Moved-stopping :
    {key : TurnKey} {d d' : TerminalCallbackDispatcher} → Moved key d d' → d'.stopping ≡ d.stopping
Moved-stopping m = ap (λ (p : Bool × Bool). p.0) m.flags_kept

pub Moved-alive :
    {key : TurnKey} {d d' : TerminalCallbackDispatcher}
    → Moved key d d'
    → d'.thread_alive ≡ d.thread_alive
Moved-alive m = ap (λ (p : Bool × Bool). p.1) m.flags_kept

abbrev pub any_context : TerminalProjectionContext → TerminalProjectionContext → Bool
any_context a b = true

cleanup-flags : (key : TurnKey) (d : TerminalCallbackDispatcher) → flags (cleanup key d) ≡ flags d
unfolding cleanup
cleanup-flags key d =
    elim (Bool-cases
      (not (is_settled key d) || not (contains key d.client_done) || contains key d.processing)) [
        | inl stays ↦ rw stays refl
        | inr goes ↦ rw goes refl
      ]

run_section-flags :
    (a : Section) (key : TurnKey) (d : TerminalCallbackDispatcher)
    → flags (run_section any_context a key d) ≡ flags d
unfolding run_section observe take_turn claim_projection settle_projection claim_persistence
    claim_fallback claim_fault settle_persisted settle_failed settle_fallback settle_fault
    finish_processing retry_processing abandon_completion
run_section-flags (observing context) key d = ground arith
run_section-flags (handing snapshot) key d = refl
run_section-flags taking key d = refl
run_section-flags claiming_projection key d = ground arith
run_section-flags claiming_persistence key d = ground arith
run_section-flags claiming_fallback key d = ground arith
run_section-flags claiming_fault key d = ground arith
run_section-flags (settling_projection (ok c)) key d = refl
run_section-flags (settling_projection (err e)) key d = refl
run_section-flags settling_persisted key d = cleanup-flags key _
run_section-flags finishing key d = cleanup-flags key _
run_section-flags retrying key d = refl
run_section-flags answering key d = cleanup-flags key _
run_section-flags (settling_failed recorded) key d =
    chosen flags (recorded && d.stopping) d.stopping (cleanup-flags key _) (cleanup-flags key _)
      refl
run_section-flags (settling_fallback true) key d = cleanup-flags key _
run_section-flags (settling_fallback false) key d = cleanup-flags key _
run_section-flags (settling_fault recorded) key d =
    chosen flags recorded d.stopping (cleanup-flags key _) (cleanup-flags key _) refl

pub run_section-moves :
    (a : Section) (key : TurnKey) (d : TerminalCallbackDispatcher)
    → Moved key d (run_section any_context a key d)
run_section-moves a key d = record {
  others = λ k other. run_section_other any_context key k other a d;
  flags_kept = run_section-flags a key d;
}

-- What a piece of work on a turn leads to: a dispatcher, in which the turn meets `P`.
abbrev pub Leads :
    (TrackedTurn → Type 0)
    → TurnKey
    → TerminalCallbackDispatcher
    → TerminalCallbackDispatcher
    → Type 0
Leads P key d d' = Moved key d d' × P (tracked_turn key d')

-- A turn of which no thread owns anything, with an open callback; `busy` is whether it is being
-- processed.
pub record Open (busy : Bool) (t : TrackedTurn) : Type 0 where
  pub idle : Idle t
  pub processed : t.processed ≡ busy
  pub undelivered : t.delivered ≡ false
  pub unlost : t.lost ≡ false

-- The same, once its callback is settled.
pub record Settled (t : TrackedTurn) : Type 0 where
  pub idle : Idle t
  pub processed : t.processed ≡ true
  pub settled : (t.delivered || t.lost) ≡ true

-- A section whose effect on the turn is known leads there.
pub Leads-section :
    (P Q : TrackedTurn → Type 0) (a : Section) (key : TurnKey) (d : TerminalCallbackDispatcher)
    → ((t : TrackedTurn) → P t → Q (turn_section any_context a d.stopping t))
    → P (tracked_turn key d)
    → Leads Q key d (run_section any_context a key d)
Leads-section P Q a key d effect p = (
  run_section-moves a key d,
  rw (run_section_self any_context key a d) (effect (tracked_turn key d) p),
)

pub Leads-trans :
    (Q : TrackedTurn → Type 0) {key : TurnKey} {d d' d'' : TerminalCallbackDispatcher}
    → Moved key d d'
    → Leads Q key d' d''
    → Leads Q key d d''
Leads-trans Q m (n, q) = (Moved-trans m n, q)
