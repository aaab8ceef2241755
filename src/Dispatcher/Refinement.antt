-- ===== src/Dispatcher/Refinement.antt =====
-- The tables of the dispatcher implement a record for each turn.
use superdev.Base.{
  if◌then◌else◌, string_eq, ◌==◌, nat_eq, pair_eq, option_string_eq, Bool-cases, Option-cases, Eq,
  contains, add, contains-append, contains-discard, contains-add, ok, err, lookup, lookup-insert,
  lookup-erase, ◌≡◌, refl, ◌∙◌, inl, inr, Bool, true, false, not, ◌&&◌, ◌||◌, List, [], ◌∷◌, ◌++◌,
  arith,
}
use superdev.Dispatcher.{
  TurnKey, observe, keep_first, take_turn, is_settled, cleanup, abandon_completion,
  TerminalProjectionContext, TerminalCallbackDispatcher,
}
use superdev.Dispatcher.Claims.{
  claim_projection, settle_projection, claim_persistence, claim_fallback, claim_fault,
  settle_persisted, abandon, disown, settle_failed, settle_fallback, settle_fault,
  finish_processing, retry_processing,
}
use superdev.Dispatcher.Turns.{
  forget, deliver, lose, try_again, run_section, turn_section, tracked_turn, Section, observing,
  handing, taking, claiming_projection, claiming_persistence, claiming_fallback, claiming_fault,
  settling_projection, settling_persisted, finishing, retrying, answering, settling_failed,
  settling_fallback, settling_fault,
}

contains-add_if {ℓ} :
    {A : Type ℓ} ⦃e : Eq A⦄ (a b : A) (xs : List A)
    → contains b (add a xs) ≡ (if a == b then true else contains b xs)
contains-add_if ⦃e⦄ a b xs = ground (arith, contains-add a b xs, e.beq_iff a b, e.beq_iff b a)

-- `add` where the element is known not to be there
contains-snoc {ℓ} :
    {A : Type ℓ} ⦃e : Eq A⦄ (a b : A) (xs : List A)
    → contains b (xs ++ (a ∷ [])) ≡ (if a == b then true else contains b xs)
contains-snoc ⦃e⦄ a b xs =
    ground (arith, contains-append b xs (a ∷ []), e.beq_iff a b, e.beq_iff b a)

ruleset tables = (contains-add_if, contains-snoc, contains-discard, lookup-insert, lookup-erase)

-- A function on the states that three branches lead to
pub choose {ℓ κ} :
    {D : Type ℓ} {T : Type κ} (f : D → T) (b c : Bool) {x y z : D} {u v w : T}
    → f x ≡ u
    → f y ≡ v
    → f z ≡ w
    → f
        (if◌then◌else◌ {A = D × Bool} b
          (x, false)
          (if◌then◌else◌ {A = D × Bool} c (y, true) (z, false))).0
      ≡ (if b then u else if c then v else w)
choose f true c h1 h2 h3 = h1
choose f false true h1 h2 h3 = h2
choose f false false h1 h2 h3 = h3

pub chosen {ℓ κ} :
    {D : Type ℓ} {T : Type κ} (f : D → T) (b c : Bool) {x y z : D} {t : T}
    → f x ≡ t
    → f y ≡ t
    → f z ≡ t
    → f
        (if◌then◌else◌ {A = D × Bool} b
          (x, false)
          (if◌then◌else◌ {A = D × Bool} c (y, true) (z, false))).0
      ≡ t
chosen f true c h1 h2 h3 = h1
chosen f false true h1 h2 h3 = h2
chosen f false false h1 h2 h3 = h3

eq_self : (key : TurnKey) → (key == key) ≡ true
eq_self key = (pair_eq.beq_iff key key).1 refl

module _ (key : TurnKey) (d : TerminalCallbackDispatcher) where
  pub cleanup_self : tracked_turn key (cleanup key d) ≡ forget (tracked_turn key d)
  unfolding cleanup forget tracked_turn
  cleanup_self =
      elim (Bool-cases
        (not (is_settled key d) || not (contains key d.client_done) || contains key d.processing)) [
          | inl stays ↦ rw stays refl
          | inr goes ↦ rw goes (simp (tables, eq_self key))
        ]

  pub cleanup_other :
      (k : TurnKey) → (key == k) ≡ false → tracked_turn k (cleanup key d) ≡ tracked_turn k d
  unfolding cleanup tracked_turn
  cleanup_other k other =
      elim (Bool-cases
        (not (is_settled key d) || not (contains key d.client_done) || contains key d.processing)) [
          | inl stays ↦ rw stays refl
          | inr goes ↦ rw goes (simp (tables, other))
        ]

module _ (same : TerminalProjectionContext → TerminalProjectionContext → Bool) (key k : TurnKey)
    (other : (key == k) ≡ false) where
  settle_persisted_other :
      (d : TerminalCallbackDispatcher) → tracked_turn k (settle_persisted key d) ≡ tracked_turn k d
  unfolding settle_persisted tracked_turn
  settle_persisted_other d = cleanup_other key _ k other ∙ simp (tables, other)

  abandon_other :
      (d : TerminalCallbackDispatcher) → tracked_turn k (abandon key d) ≡ tracked_turn k d
  unfolding tracked_turn
  abandon_other d = cleanup_other key _ k other ∙ simp (tables, other)

  disown_other : (d : TerminalCallbackDispatcher) → tracked_turn k (disown key d) ≡ tracked_turn k d
  unfolding tracked_turn
  disown_other d = simp (tables, other)

  pub run_section_other :
      (a : Section) (d : TerminalCallbackDispatcher)
      → tracked_turn k (run_section same a key d) ≡ tracked_turn k d
  unfolding run_section tracked_turn observe take_turn claim_projection settle_projection
      claim_persistence claim_fallback claim_fault settle_persisted settle_failed settle_fallback
      settle_fault finish_processing retry_processing abandon_completion
  run_section_other (observing context) d = elim (Option-cases (lookup key d.contexts)) [
    | inl unknown ↦ rw (unknown, run_section, observe) (simp (tables, other))
    | inr (existing, found) ↦ elim (Bool-cases (same existing context)) [
      | inl equal ↦ rw (found, equal, run_section, observe) (simp (tables, other))
      | inr differs ↦ rw (found, differs, run_section, observe) refl
    ]
  ]
  run_section_other (handing snapshot) d = elim (Option-cases (lookup key d.snapshots)) [
    | inl unknown ↦ rw (unknown, run_section, keep_first) (simp (tables, other))
    | inr (existing, found) ↦ rw (found, run_section, keep_first) refl
  ]
  run_section_other taking d = simp (tables, other)
  run_section_other claiming_projection d = elim (Option-cases (lookup key d.completions)) [
    | inr (c, found) ↦ rw (found, run_section, claim_projection) refl
    | inl unknown ↦ elim (Option-cases (lookup key d.projection_errors)) [
      | inr (e, raised) ↦ rw (unknown, raised, run_section, claim_projection) refl
      | inl fresh ↦ elim (Bool-cases (contains key d.projection_owners)) [
        | inl busy ↦ rw (unknown, fresh, busy, run_section, claim_projection) refl
        | inr free ↦ rw (unknown, fresh, free, run_section, claim_projection) (simp (tables, other))
      ]
    ]
  ]
  run_section_other claiming_persistence d = elim (Bool-cases (is_settled key d)) [
    | inl settled ↦ rw (settled, run_section, claim_persistence) refl
    | inr unsettled_turn ↦ elim (Bool-cases (contains key d.persistence_owners)) [
      | inl busy ↦ rw (unsettled_turn, busy, run_section, claim_persistence) refl
      | inr free ↦ rw (unsettled_turn, free, run_section, claim_persistence) (simp (tables, other))
    ]
  ]
  run_section_other claiming_fallback d =
      elim (Bool-cases (is_settled key d || contains key d.persistence_owners)) [
        | inl closed ↦ rw (closed, run_section, claim_fallback) refl
        | inr free ↦ rw (free, run_section, claim_fallback) (simp (tables, other))
      ]
  run_section_other claiming_fault d = elim (Bool-cases (contains key d.callback_done)) [
    | inl settled ↦ rw (settled, run_section, claim_fault) refl
    | inr unsettled_turn ↦ elim (Bool-cases (contains key d.persistence_owners)) [
      | inl busy ↦ rw (unsettled_turn, busy, run_section, claim_fault) refl
      | inr free ↦ rw (unsettled_turn, free, run_section, claim_fault) (simp (tables, other))
    ]
  ]
  run_section_other (settling_projection (ok completion)) d = simp (tables, other)
  run_section_other (settling_projection (err error)) d = simp (tables, other)
  run_section_other settling_persisted d = settle_persisted_other d
  run_section_other finishing d = cleanup_other key _ k other ∙ simp (tables, other)
  run_section_other retrying d = simp (tables, other)
  run_section_other answering d = cleanup_other key _ k other ∙ simp (tables, other)
  run_section_other (settling_failed recorded) d =
      chosen (tracked_turn k) (recorded && d.stopping) d.stopping (settle_persisted_other d)
        (abandon_other d) (disown_other d)
  run_section_other (settling_fallback true) d = settle_persisted_other d
  run_section_other (settling_fallback false) d = abandon_other d
  run_section_other (settling_fault recorded) d =
      chosen (tracked_turn k) recorded d.stopping (settle_persisted_other d) (abandon_other d)
        (disown_other d)

module _ (same : TerminalProjectionContext → TerminalProjectionContext → Bool) (key : TurnKey) where
  settle_persisted_self :
      (d : TerminalCallbackDispatcher)
      → tracked_turn key (settle_persisted key d) ≡ deliver (tracked_turn key d)
  unfolding settle_persisted tracked_turn
  settle_persisted_self d = cleanup_self key _ ∙ simp (tables, eq_self key)

  abandon_self :
      (d : TerminalCallbackDispatcher)
      → tracked_turn key (abandon key d) ≡ lose (tracked_turn key d)
  unfolding tracked_turn
  abandon_self d = cleanup_self key _ ∙ simp (tables, eq_self key)

  disown_self :
      (d : TerminalCallbackDispatcher)
      → tracked_turn key (disown key d) ≡ try_again (tracked_turn key d)
  unfolding tracked_turn
  disown_self d = simp (tables, eq_self key)

  pub run_section_self :
      (a : Section) (d : TerminalCallbackDispatcher)
      → tracked_turn key (run_section same a key d)
        ≡ turn_section same a d.stopping (tracked_turn key d)
  unfolding run_section turn_section tracked_turn observe take_turn claim_projection
      settle_projection claim_persistence claim_fallback claim_fault settle_persisted settle_failed
      settle_fallback settle_fault finish_processing retry_processing abandon_completion
  run_section_self (observing context) d = elim (Option-cases (lookup key d.contexts)) [
    | inl unknown ↦ rw (unknown, run_section, turn_section, observe) (simp (tables, eq_self key))
    | inr (existing, found) ↦ elim (Bool-cases (same existing context)) [
      | inl equal ↦
          rw (found, equal, run_section, turn_section, observe) (simp (tables, eq_self key))
      | inr differs ↦ rw (found, differs, run_section, turn_section, observe) (rw found refl)
    ]
  ]
  run_section_self (handing snapshot) d = elim (Option-cases (lookup key d.snapshots)) [
    | inl unknown ↦ rw (unknown, run_section, turn_section, keep_first) (simp (tables, eq_self key))
    | inr (existing, found) ↦ rw (found, run_section, turn_section, keep_first) (rw found refl)
  ]
  run_section_self taking d = simp (tables, eq_self key)
  run_section_self claiming_projection d = elim (Option-cases (lookup key d.completions)) [
    | inr (c, found) ↦ rw (found, run_section, turn_section, claim_projection) (rw found refl)
    | inl unknown ↦ elim (Option-cases (lookup key d.projection_errors)) [
      | inr (e, raised) ↦
          rw (unknown, raised, run_section, turn_section, claim_projection)
            (rw (unknown, raised) refl)
      | inl fresh ↦ elim (Bool-cases (contains key d.projection_owners)) [
        | inl busy ↦
            rw (unknown, fresh, busy, run_section, turn_section, claim_projection)
              (rw (unknown, fresh, busy) refl)
        | inr free ↦
            rw (unknown, fresh, free, run_section, turn_section, claim_projection)
              (simp (tables, eq_self key, unknown, fresh))
      ]
    ]
  ]
  run_section_self claiming_persistence d = elim (Bool-cases (is_settled key d)) [
    | inl settled ↦ rw (settled, run_section, turn_section, claim_persistence) refl
    | inr unsettled_turn ↦ elim (Bool-cases (contains key d.persistence_owners)) [
      | inl busy ↦
          rw (unsettled_turn, busy, run_section, turn_section, claim_persistence) (rw busy refl)
      | inr free ↦
          rw (unsettled_turn, free, run_section, turn_section, claim_persistence)
            (simp (tables, eq_self key))
    ]
  ]
  run_section_self claiming_fallback d = elim (Bool-cases (is_settled key d)) [
    | inl settled ↦ rw (settled, run_section, turn_section, claim_fallback) refl
    | inr unsettled_turn ↦ elim (Bool-cases (contains key d.persistence_owners)) [
      | inl busy ↦
          rw (unsettled_turn, busy, run_section, turn_section, claim_fallback) (rw busy refl)
      | inr free ↦
          rw (unsettled_turn, free, run_section, turn_section, claim_fallback)
            (simp (tables, eq_self key))
    ]
  ]
  run_section_self claiming_fault d = elim (Bool-cases (contains key d.callback_done)) [
    | inl settled ↦ rw (settled, run_section, turn_section, claim_fault) (rw settled refl)
    | inr unsettled_turn ↦ elim (Bool-cases (contains key d.persistence_owners)) [
      | inl busy ↦
          rw (unsettled_turn, busy, run_section, turn_section, claim_fault)
            (rw (unsettled_turn, busy) refl)
      | inr free ↦
          rw (unsettled_turn, free, run_section, turn_section, claim_fault)
            (simp (tables, eq_self key, unsettled_turn))
    ]
  ]
  run_section_self (settling_projection (ok completion)) d = simp (tables, eq_self key)
  run_section_self (settling_projection (err error)) d = simp (tables, eq_self key)
  run_section_self settling_persisted d = settle_persisted_self d
  run_section_self finishing d = cleanup_self key _ ∙ simp (tables, eq_self key)
  run_section_self retrying d = simp (tables, eq_self key)
  run_section_self answering d = cleanup_self key _ ∙ simp (tables, eq_self key)
  run_section_self (settling_failed recorded) d =
      choose (tracked_turn key) (recorded && d.stopping) d.stopping (settle_persisted_self d)
        (abandon_self d) (disown_self d)
  run_section_self (settling_fallback true) d = settle_persisted_self d
  run_section_self (settling_fallback false) d = abandon_self d
  run_section_self (settling_fault recorded) d =
      choose (tracked_turn key) recorded d.stopping (settle_persisted_self d) (abandon_self d)
        (disown_self d)
