-- ===== src/Gateway/Settling.antt =====
-- Every call of the pumps settles what it entered: the assertion on the count never fails, the
-- count stays exact, and no context is left with a thread that has returned.
use superdev.Base.{
  ◌==◌, nat_eq, string_eq, pair_eq, option_string_eq, Bool-cases, Option-cases, is_some, contains,
  Result, ok, err, lookup, insert, lookup-insert_self, ℕ, ◌+◌, String, ◌≡◌, refl, ap, ◌∙◌, ◌⊎◌, inl,
  inr, Bool, true, false, Option, none, some, List, [], ◌∷◌, arith,
}
use superdev.Json.{Json}
use superdev.Gateway.{key_eq, enter_mutation, RequestKey, GateError, service_busy}
use superdev.Gateway.Bridges.{
  same_pending, pending_of, release, enter_context, unhold, hold, register, take_pending, withdraw,
  sent_as, PendingRequest, Bridge, GatewaySystem, Outcome, read_pending, mutation_pending,
}
use superdev.Gateway.Forward.{forward_read, finish_mutation, forward_mutation, is_taken}
use superdev.Gateway.Accounting.{
  Accounted, enter_context-Accounted, exit_context-Accounted, register-Accounted,
  take_pending-Accounted,
}

pub release-head : (n : ℕ) (ns : List ℕ) → release n (n ∷ ns) ≡ ns
release-head n ns = let self : (n == n) ≡ true = ground arith in rw self refl

pub contains-head : (n : ℕ) (ns : List ℕ) → contains n (n ∷ ns) ≡ true
contains-head n ns = ground arith

-- What the table of a bridge says once a request has been registered.
register-pending :
    (id : ℕ) (key : RequestKey) (p : PendingRequest) (b : Bridge) (s : GatewaySystem)
    → lookup id s.bridges ≡ some b
    → lookup key (pending_of id (register id key p s)) ≡ some p
unfolding register
register-pending id key p b s found =
    rw
      (
        found,
        register,
        pending_of,
        lookup-insert_self id (record b { pending = insert key p b.pending }) s.bridges,
      )
      (lookup-insert_self key p b.pending)

register-held :
    (id : ℕ) (key : RequestKey) (p : PendingRequest) (b : Bridge) (s : GatewaySystem)
    → lookup id s.bridges ≡ some b
    → (register id key p s).held ≡ unhold p s.held
unfolding register
register-held id key p b s found = rw (found, register) refl

pub take_pending-held :
    (id : ℕ) (key : RequestKey) (p : PendingRequest) (s : GatewaySystem)
    → lookup key (pending_of id s) ≡ some p
    → (take_pending id key s).0.held ≡ hold p s.held
unfolding take_pending
take_pending-held id key p s there = elim (Option-cases (lookup id s.bridges)) [
  | inl missing ↦ cc (rw (missing, pending_of) at there)
  | inr (b, found) ↦ rw (found, take_pending) (rw (rw (found, pending_of) at there) refl)
]

same_pending_refl : (p : PendingRequest) → same_pending p p ≡ true
same_pending_refl read_pending = refl
same_pending_refl (mutation_pending n) = ground arith

-- What was registered is still there when nothing has come between.
withdraw-registered :
    (id : ℕ) (key : RequestKey) (p : PendingRequest) (b : Bridge) (s : GatewaySystem)
    → lookup id s.bridges ≡ some b
    → withdraw id key p (register id key p s)
      ≡ ((take_pending id key (register id key p s)).0, true)
unfolding withdraw
withdraw-registered id key p b s found =
    rw (register-pending id key p b s found, withdraw, same_pending_refl p) refl

untaken :
    (id : ℕ) (key : RequestKey) (s : GatewaySystem)
    → is_taken id (some key) s ≡ false
    → lookup key (pending_of id s) ≡ none
untaken id key s free = elim (Option-cases (lookup key (pending_of id s))) [
  | inl nothing ↦ nothing
  | inr (p, there) ↦ cc (rw there at free)
]

abbrev pub Settles : GatewaySystem → List ℕ → Result GateError Outcome → Type 0
Settles s held r = (o : Outcome) × (r ≡ ok o) × Accounted o.system × (o.system.held ≡ held)

finish_mutation-Settles :
    (sends : Bool) (id : ℕ) (key : Option RequestKey) (n : ℕ) (held : List ℕ) (b : Bridge)
    (s : GatewaySystem)
    → lookup id s.bridges ≡ some b
    → is_taken id key s ≡ false
    → s.held ≡ n ∷ held
    → Accounted s
    → Settles s held (finish_mutation sends id key n s)
unfolding finish_mutation
finish_mutation-Settles sends id none n held b s found free top a =
    let mine : contains n s.held ≡ true = rw top (contains-head n held) in
    let (s', exits, counted, left, _) = exit_context-Accounted n s mine a in
    (
      sent_as sends s',
      rw exits refl,
      counted,
      left ∙ ap (λ l. release n l) top ∙ release-head n held,
    )
finish_mutation-Settles sends id (some key) n held b s found free top a =
    let p = mutation_pending n in
    let s₁ = register id key p s in
    let s₂ = (take_pending id key s₁).0 in
    let registered : Accounted s₁ =
      register-Accounted id key p s (untaken id key s free)
        (rw (top, release-head n held) (omega arith)) a in
    let back : Accounted s₂ = take_pending-Accounted id key s₁ registered in
    let held₁ : s₁.held ≡ held =
      register-held id key p b s found ∙ ap (λ l. release n l) top ∙ release-head n held in
    let held₂ : s₂.held ≡ n ∷ held =
      take_pending-held id key p s₁ (register-pending id key p b s found) ∙ ap (λ l. n ∷ l) held₁ in
    let (s₃, exits, counted, left, _) =
      exit_context-Accounted n s₂ (rw held₂ (contains-head n held)) back in
    elim (Bool-cases sends) [
      | inl went ↦ (sent_as true s₁, rw went refl, registered, held₁)
      | inr failed ↦ (
        sent_as false s₃,
        rw (failed, withdraw-registered id key p b s found, exits) refl,
        counted,
        left ∙ ap (λ l. release n l) held₂ ∙ release-head n held,
      )
    ]

pub forward_read-Settles :
    (sends : Bool) (id : ℕ) (key : Option RequestKey) (b : Bridge) (s : GatewaySystem)
    → lookup id s.bridges ≡ some b
    → is_taken id key s ≡ false
    → Accounted s
    → Settles s s.held (ok (forward_read sends id key s))
unfolding forward_read
forward_read-Settles sends id none b s found free a = (sent_as sends s, refl, a, refl)
forward_read-Settles sends id (some key) b s found free a =
    let s₁ = register id key read_pending s in
    let s₂ = (take_pending id key s₁).0 in
    let registered : Accounted s₁ =
      register-Accounted id key read_pending s (untaken id key s free) (omega arith) a in
    let held₁ : s₁.held ≡ s.held = register-held id key read_pending b s found in
    elim (Bool-cases sends) [
      | inl went ↦ (sent_as true s₁, rw went refl, registered, held₁)
      | inr failed ↦ (
        sent_as false s₂,
        rw (failed, withdraw-registered id key read_pending b s found) refl,
        take_pending-Accounted id key s₁ registered,
        take_pending-held id key read_pending s₁ (register-pending id key read_pending b s found)
            ∙ held₁,
      )
    ]

pub enter_context-cases :
    (method : String) (s : GatewaySystem)
    → (method == "") ≡ false
    → ((s.gate.draining ≡ true) × (enter_context method s ≡ err (service_busy method)))
      ⊎ ((s' : GatewaySystem) × (n : ℕ) × (enter_context method s ≡ ok (s', n))
          × (s'.held ≡ n ∷ s.held)
          × (s.gate.draining ≡ false))
unfolding enter_context enter_mutation
enter_context-cases method s named = elim (Bool-cases s.gate.draining) [
  | inl busy ↦ inl (busy, rw (named, busy, enter_context, enter_mutation) refl)
  | inr free ↦ inr (
    record s {
      gate = record (s.gate) { active_mutations = s.gate.active_mutations + 1 };
      entered = s.entered + 1;
      held = s.entered ∷ s.held;
    },
    s.entered,
    rw (named, free, enter_context, enter_mutation) refl,
    refl,
    free,
  )
]

taken-same :
    (id : ℕ) (key : Option RequestKey) (s s' : GatewaySystem)
    → s'.bridges ≡ s.bridges
    → is_taken id key s' ≡ is_taken id key s
taken-same id none s s' same = refl
taken-same id (some key) s s' same =
    ap (λ d. is_some (lookup key (elim (lookup id d) [ none ↦ [] | some b ↦ b.pending ]))) same

pub forward_mutation-Settles :
    (sends : Bool) (id : ℕ) (request_id : Json) (key : Option RequestKey) (method : String)
    (b : Bridge) (s : GatewaySystem)
    → (method == "") ≡ false
    → lookup id s.bridges ≡ some b
    → is_taken id key s ≡ false
    → Accounted s
    → Settles s s.held (forward_mutation sends id request_id key method s)
unfolding forward_mutation
forward_mutation-Settles sends id request_id key method b s named found free a =
    elim (enter_context-cases method s named) [
      | inl (busy, refused) ↦ rw (refused, forward_mutation) (_, refl, a, refl)
      | inr (s', n, entered, top, _) ↦
          let (counted, _, same) = enter_context-Accounted method s entered a in
          rw (entered, forward_mutation)
            (finish_mutation-Settles sends id key n s.held b s' (rw same found)
              (taken-same id key s s' same ∙ free) top counted)
    ]
