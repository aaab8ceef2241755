-- ===== src/Gateway/Accounting.antt =====
-- The accounting of the gate: what it counts is what the threads hold and the bridges wait for.
use mathlib.Core.Path.{subst}
use superdev.Base.{
  ◌==◌, nat_eq, string_eq, pair_eq, option_string_eq, Bool-cases, Option-cases, length, contains,
  ok_inj, ok, Dict, lookup, insert, ℕ, suc, ◌+◌, ◌-◌, String, ◌≡◌, refl, inl, inr, true, false,
  none, some, List, [], ◌∷◌, arith,
}
use superdev.Gateway.{key_eq, enter_mutation, exit_mutation, RequestKey}
use superdev.Gateway.Bridges.{
  pop, pending_of, release, enter_context, exit_context, unhold, hold, register, take_pending,
  contexts, PendingRequest, Bridge, GatewaySystem, read_pending, mutation_pending,
}

abbrev pub weight : PendingRequest → ℕ
weight read_pending = 0
weight (mutation_pending n) = 1

abbrev pub in_tables : Dict ℕ Bridge → ℕ
in_tables [] = 0
in_tables ((id, b) ∷ d) = length (contexts b.pending) + in_tables d

-- The mutations that the gate counts are the contexts that a thread holds or a bridge waits for.
abbrev pub Accounted : GatewaySystem → Type 0
Accounted s = s.gate.active_mutations ≡ length s.held + in_tables s.bridges

pub in_tables-insert :
    (id : ℕ) (b b' : Bridge) (d : Dict ℕ Bridge)
    → lookup id d ≡ some b
    → in_tables (insert id b' d) + length (contexts b.pending)
      ≡ in_tables d + length (contexts b'.pending)
in_tables-insert id b b' [] h = cc
in_tables-insert id b b' ((j, c) ∷ d) h = elim (Bool-cases (id == j)) [
  | inl here ↦ let same : c ≡ b = cc (rw here at h) in rw (here, same) (omega arith)
  | inr there ↦ rw there (omega (arith, in_tables-insert id b b' d (rw there at h)))
]

pub length-hold : (q : PendingRequest) (ns : List ℕ) → length (hold q ns) ≡ weight q + length ns
length-hold read_pending ns = omega arith
length-hold (mutation_pending n) ns = omega arith

contexts-insert :
    (k : RequestKey) (p : PendingRequest) (d : Dict RequestKey PendingRequest)
    → lookup k d ≡ none
    → length (contexts (insert k p d)) ≡ weight p + length (contexts d)
contexts-insert k read_pending [] h = refl
contexts-insert k (mutation_pending n) [] h = refl
contexts-insert k p ((j, q) ∷ d) h = elim (Bool-cases (k == j)) [
  | inl here ↦ cc (rw here at h)
  | inr there ↦ rw there (
      omega (
        arith,
        length-hold q (contexts d),
        length-hold q (contexts (insert k p d)),
        contexts-insert k p d (rw there at h),
      ))
]

contexts-pop :
    (k : RequestKey) (p : PendingRequest) (d : Dict RequestKey PendingRequest)
    → lookup k d ≡ some p
    → length (contexts (pop k d)) + weight p ≡ length (contexts d)
contexts-pop k p [] h = cc
contexts-pop k p ((j, q) ∷ d) h = elim (Bool-cases (k == j)) [
  | inl here ↦
      let same : q ≡ p = cc (rw here at h) in
      rw (here, same) (omega (arith, length-hold p (contexts d)))
  | inr there ↦ rw there (
      omega (
        arith,
        length-hold q (contexts d),
        length-hold q (contexts (pop k d)),
        contexts-pop k p d (rw there at h),
      ))
]

length-release :
    (n : ℕ) (ns : List ℕ) → contains n ns ≡ true → suc (length (release n ns)) ≡ length ns
length-release n [] h = cc
length-release n (m ∷ ms) h = ground (arith, length-release n ms)

pub enter_context-Accounted :
    (method : String) (s : GatewaySystem) {s' : GatewaySystem} {n : ℕ}
    → enter_context method s ≡ ok (s', n)
    → Accounted s
    → Accounted s' × (contains n s'.held ≡ true) × (s'.bridges ≡ s.bridges)
unfolding enter_context enter_mutation
enter_context-Accounted method s {s'} {n} h a = elim (Bool-cases (method == "")) [
  | inl unnamed ↦ cc (rw (unnamed, enter_context, enter_mutation) at h)
  | inr named ↦ elim (Bool-cases s.gate.draining) [
    | inl busy ↦ cc (rw (named, busy, enter_context, enter_mutation) at h)
    | inr free ↦
        let entered = ok_inj (rw (named, free, enter_context, enter_mutation) at h) in
        subst (λ x. Accounted x.0 × (contains x.1 x.0.held ≡ true) × (x.0.bridges ≡ s.bridges))
          entered (omega (arith, a), ground arith, refl)
  ]
]

-- A context that is held can exit: the assertion on the count does not fail.
pub exit_context-Accounted :
    (n : ℕ) (s : GatewaySystem)
    → contains n s.held ≡ true
    → Accounted s
    → (s' : GatewaySystem) × (exit_context n s ≡ ok s')
      × Accounted s'
      × (s'.held ≡ release n s.held)
      × (s'.bridges ≡ s.bridges)
unfolding exit_context exit_mutation
exit_context-Accounted n s held a =
    let fewer = length-release n s.held held in
    let counted : (s.gate.active_mutations == 0) ≡ false = ground (arith, a, fewer) in
    (
      record s {
        gate = record (s.gate) { active_mutations = s.gate.active_mutations - 1 };
        held = release n s.held;
      },
      rw counted refl,
      omega (arith, a, fewer),
      refl,
      refl,
    )

-- A context that goes into a bridge's table.
pub register-Accounted :
    (id : ℕ) (key : RequestKey) (p : PendingRequest) (s : GatewaySystem)
    → lookup key (pending_of id s) ≡ none
    → length (unhold p s.held) + weight p ≡ length s.held
    → Accounted s
    → Accounted (register id key p s)
unfolding register
register-Accounted id key p s new h a = elim (Option-cases (lookup id s.bridges)) [
  | inl missing ↦ rw (missing, register) a
  | inr (b, found) ↦
      let new' : lookup key b.pending ≡ none = rw (found, pending_of) at new in
      rw (found, register)
        (omega (
          arith,
          a,
          h,
          in_tables-insert id b (record b { pending = insert key p b.pending }) s.bridges found,
          contexts-insert key p b.pending new',
        ))
]

-- A context that comes out of it.
pub take_pending-Accounted :
    (id : ℕ) (key : RequestKey) (s : GatewaySystem)
    → Accounted s
    → Accounted (take_pending id key s).0
unfolding take_pending
take_pending-Accounted id key s a = elim (Option-cases (lookup id s.bridges)) [
  | inl missing ↦ rw (missing, take_pending) a
  | inr (b, found) ↦ elim (Option-cases (lookup key b.pending)) [
    | inl nothing ↦ rw (found, nothing, take_pending) a
    | inr (p, there) ↦
        rw (found, there, take_pending)
          (omega (
            arith,
            a,
            in_tables-insert id b (record b { pending = pop key b.pending }) s.bridges found,
            contexts-pop key p b.pending there,
            length-hold p s.held,
          ))
  ]
]
