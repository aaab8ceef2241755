-- ===== src/Gateway/Draining.antt =====
-- The gate over time: what a lease promises while it is current, and that it ends with the drain.
use mathlib.Core.Path.{subst}
use superdev.Base.{
  ◌==◌, nat_eq, string_eq, pair_eq, option_string_eq, Bool-cases, contains, contains-discard_self,
  contains-discard, ok_inj, ok, err, ◌+◌, ◌-◌, ◌<◌, String, ◌≡◌, refl, ap, ◌∙◌, ◌≢◌, inl, inr, Bool,
  true, false, not, ◌&&◌, Option, none, some, ◌∷◌, arith,
}
use superdev.Gateway.{
  key_eq, enter_mutation, exit_mutation, claim_drain, issue_lease, is_lease, end_drain, authorize,
  DrainLease, ServiceMaintenanceGate, gate_permission,
}

-- One section of a thread under the gate's lock. A thread issues a lease only after it has claimed
-- the drain, when there is none, and ends the drain that its own lease stands for.
pub data GateStep : ServiceMaintenanceGate → ServiceMaintenanceGate → Type 0 where
  mutation_enters :
      {g g' : ServiceMaintenanceGate} (method : String)
      → enter_mutation method g ≡ ok g'
      → GateStep g g'
  mutation_exits : {g g' : ServiceMaintenanceGate} → exit_mutation g ≡ ok g' → GateStep g g'
  drain_claimed : {g g' : ServiceMaintenanceGate} → claim_drain g ≡ some g' → GateStep g g'
  lease_issued :
      {g g' : ServiceMaintenanceGate} {l : DrainLease} (force : Bool)
      → g.draining ≡ true
      → g.lease ≡ none
      → issue_lease force g ≡ some (g', l)
      → GateStep g g'
  drain_ended :
      {g : ServiceMaintenanceGate} (l : DrainLease)
      → g.lease ≡ some l.number
      → GateStep g (end_drain l g)

pub data GateSteps : ServiceMaintenanceGate → ServiceMaintenanceGate → Type 0 where
  gate_rests : {g : ServiceMaintenanceGate} → GateSteps g g
  gate_moves :
      {g g' g'' : ServiceMaintenanceGate} → GateStep g g' → GateSteps g' g'' → GateSteps g g''

-- What holds of a lease `l` that has been issued: it is not issued again; while it is the current
-- one, the gate is draining and it is live; and no mutation is active, unless it allows them.
pub record Issued (l : DrainLease) (g : ServiceMaintenanceGate) : Type 0 where
  pub own : l.gate ≡ g.gate
  pub past : l.number < g.issued
  pub drains : g.lease ≡ some l.number → g.draining ≡ true
  pub lives : g.lease ≡ some l.number → contains l.number g.live ≡ true
  pub quiet : l.allows_active_mutations ≡ false → g.lease ≡ some l.number → g.active_mutations ≡ 0

-- A lease that has expired.
pub record Expired (l : DrainLease) (g : ServiceMaintenanceGate) : Type 0 where
  pub over : contains l.number g.live ≡ false
  pub gone : l.number < g.issued

enter_mutation-effect :
    (method : String) (g : ServiceMaintenanceGate) {g' : ServiceMaintenanceGate}
    → enter_mutation method g ≡ ok g'
    → (g.draining ≡ false) × (record g { active_mutations = g.active_mutations + 1 } ≡ g')
unfolding enter_mutation
enter_mutation-effect method g h = elim (Bool-cases (method == "")) [
  | inl unnamed ↦ cc (rw (unnamed, enter_mutation) at h)
  | inr named ↦ elim (Bool-cases g.draining) [
    | inl busy ↦ cc (rw (named, busy, enter_mutation) at h)
    | inr free ↦ (free, cc (rw (named, free, enter_mutation) at h, free))
  ]
]

exit_mutation-effect :
    (g : ServiceMaintenanceGate) {g' : ServiceMaintenanceGate}
    → exit_mutation g ≡ ok g'
    → (0 < g.active_mutations) × (record g { active_mutations = g.active_mutations - 1 } ≡ g')
unfolding exit_mutation
exit_mutation-effect g h = elim (Bool-cases (g.active_mutations == 0)) [
  | inl idle ↦ cc (rw (idle, exit_mutation) at h)
  | inr busy ↦ (ground (arith, busy), ok_inj (rw (busy, exit_mutation) at h))
]

some-inj {ℓ} : {A : Type ℓ} {a b : A} → ◌≡◌ {A = Option A} (some a) (some b) → a ≡ b
some-inj h = cc

claim_drain-effect :
    (g : ServiceMaintenanceGate) {g' : ServiceMaintenanceGate}
    → claim_drain g ≡ some g'
    → (g.draining ≡ false) × (record g { draining = true } ≡ g')
unfolding claim_drain
claim_drain-effect g h = elim (Bool-cases g.draining) [
  | inl busy ↦ cc (rw (busy, claim_drain) at h)
  | inr free ↦ (free, some-inj (rw (free, claim_drain) at h))
]

abbrev pub leased : ServiceMaintenanceGate → ServiceMaintenanceGate
leased g = record g { lease = some g.issued; live = g.issued ∷ g.live; issued = g.issued + 1 }

pub issue_lease-effect :
    (force : Bool) (g : ServiceMaintenanceGate) {g' : ServiceMaintenanceGate} {l : DrainLease}
    → issue_lease force g ≡ some (g', l)
    → (force ≡ false → g.active_mutations ≡ 0)
      × (◌≡◌ {A = ServiceMaintenanceGate × DrainLease}
          (leased g, record { gate = g.gate; number = g.issued; allows_active_mutations = force })
          (g', l))
unfolding issue_lease
issue_lease-effect force g h = elim (Bool-cases (not (g.active_mutations == 0) && not force)) [
  | inl waits ↦ cc (rw (waits, issue_lease) at h)
  | inr ready ↦ (λ gentle. ground (arith, ready, gentle), some-inj (rw (ready, issue_lease) at h))
]

ended-lease :
    (k : DrainLease) (g : ServiceMaintenanceGate)
    → g.lease ≡ some k.number
    → (end_drain k g).lease ≡ none
unfolding end_drain
ended-lease k g current =
    let self : (k.number == k.number) ≡ true = ground arith in rw (current, self) refl

-- A lease is nothing to a gate that has none.
no_lease-Issued :
    (l : DrainLease) (g : ServiceMaintenanceGate)
    → l.gate ≡ g.gate
    → l.number < g.issued
    → g.lease ≡ none
    → Issued l g
no_lease-Issued l g own past gone = record {
  own = own;
  past = past;
  drains = λ current. absurd (cc (gone, current));
  lives = λ current. absurd (cc (gone, current));
  quiet = λ gentle current. absurd (cc (gone, current));
}

GateStep-Issued :
    {g g' : ServiceMaintenanceGate} (l : DrainLease) → GateStep g g' → Issued l g → Issued l g'
unfolding end_drain
GateStep-Issued {g} {g'} l (mutation_enters method h) i =
    let (free, e) = enter_mutation-effect method g h in
    subst (λ x. Issued l x) e
      (record {
        own = i.own;
        past = i.past;
        drains = i.drains;
        lives = i.lives;
        quiet = λ gentle current. absurd (cc (free, i.drains current));
      })
GateStep-Issued {g} {g'} l (mutation_exits h) i =
    let (_, e) = exit_mutation-effect g h in
    subst (λ x. Issued l x) e
      (record {
        own = i.own;
        past = i.past;
        drains = i.drains;
        lives = i.lives;
        quiet = λ gentle current. omega (arith, i.quiet gentle current);
      })
GateStep-Issued {g} {g'} l (drain_claimed h) i =
    let (_, e) = claim_drain-effect g h in
    subst (λ x. Issued l x) e
      (record {
        own = i.own;
        past = i.past;
        drains = λ current. refl;
        lives = i.lives;
        quiet = i.quiet;
      })
GateStep-Issued {g} {g'} l (lease_issued force claimed free h) i =
    let (_, e) = issue_lease-effect force g h in
    let other : some g.issued ≡ some l.number → ⊥ = λ same. omega (arith, i.past, some-inj same) in
    subst (λ x. Issued l x) (ap (λ x. x.0) e)
      (record {
        own = i.own;
        past = omega (arith, i.past);
        drains = λ current. claimed;
        lives = λ current. absurd (other current);
        quiet = λ gentle current. absurd (other current);
      })
GateStep-Issued {g} l (drain_ended k current) i =
    no_lease-Issued l (end_drain k g) i.own i.past (ended-lease k g current)

GateStep-Expired :
    {g g' : ServiceMaintenanceGate} (l : DrainLease) → GateStep g g' → Expired l g → Expired l g'
unfolding end_drain
GateStep-Expired {g} {g'} l (mutation_enters method h) x =
    subst (λ y. Expired l y) (enter_mutation-effect method g h).1
      (record { over = x.over; gone = x.gone })
GateStep-Expired {g} {g'} l (mutation_exits h) x =
    subst (λ y. Expired l y) (exit_mutation-effect g h).1 (record { over = x.over; gone = x.gone })
GateStep-Expired {g} {g'} l (drain_claimed h) x =
    subst (λ y. Expired l y) (claim_drain-effect g h).1 (record { over = x.over; gone = x.gone })
GateStep-Expired {g} {g'} l (lease_issued force claimed free h) x =
    subst (λ y. Expired l y) (ap (λ y. y.0) (issue_lease-effect force g h).1)
      (record { over = ground (arith, x.over, x.gone); gone = omega (arith, x.gone) })
GateStep-Expired {g} l (drain_ended k current) x = record {
  over = contains-discard k.number l.number g.live ∙ ground (arith, x.over);
  gone = x.gone;
}

GateSteps-Issued :
    {g g' : ServiceMaintenanceGate} (l : DrainLease) → GateSteps g g' → Issued l g → Issued l g'
GateSteps-Issued l gate_rests i = i
GateSteps-Issued l (gate_moves first rest) i = GateSteps-Issued l rest (GateStep-Issued l first i)

GateSteps-Expired :
    {g g' : ServiceMaintenanceGate} (l : DrainLease) → GateSteps g g' → Expired l g → Expired l g'
GateSteps-Expired l gate_rests x = x
GateSteps-Expired l (gate_moves first rest) x =
    GateSteps-Expired l rest (GateStep-Expired l first x)

issue_lease-Issued :
    (g : ServiceMaintenanceGate) {g' : ServiceMaintenanceGate} {l : DrainLease}
    → g.draining ≡ true
    → issue_lease false g ≡ some (g', l)
    → Issued l g' × (l.allows_active_mutations ≡ false)
issue_lease-Issued g {g'} {l} claimed h =
    let (idle, e) = issue_lease-effect false g h in
    subst (λ x. Issued x.1 x.0 × (x.1.allows_active_mutations ≡ false)) e
      (
        record {
          own = refl;
          past = omega arith;
          drains = λ current. claimed;
          lives = λ current. ground arith;
          quiet = λ gentle current. idle refl;
        },
        refl,
      )

-- A drain without force excludes mutations as long as its lease is the current one, whatever other
-- threads do: the lease is authorized, no mutation is active, and none is let in.
pub drain-excludes :
    (g g' g'' : ServiceMaintenanceGate) (l : DrainLease) (method : String)
    → g.draining ≡ true
    → issue_lease false g ≡ some (g', l)
    → GateSteps g' g''
    → g''.lease ≡ some l.number
    → (authorize l g'' ≡ ok tt)
      × (g''.active_mutations ≡ 0)
      × ((g : ServiceMaintenanceGate) → enter_mutation method g'' ≢ ok g)
unfolding authorize enter_mutation
drain-excludes g g' g'' l method claimed issued steps current =
    let (begun, gentle) = issue_lease-Issued g claimed issued in
    let i = GateSteps-Issued l steps begun in
    let drained = i.drains current in
    let idle = i.quiet gentle current in
    let same_gate : (l.gate == g''.gate) ≡ true = ground (arith, i.own) in
    let same_lease : is_lease l.number g''.lease ≡ true = rw current (ground arith) in
    let none_active : (g''.active_mutations == 0) ≡ true = ground (arith, idle) in
    (
      rw (same_gate, i.lives current, same_lease, drained, none_active) refl,
      idle,
      λ g₁ h. cc ((enter_mutation-effect method g'' h).0, drained),
    )

-- The lease of a drain without force ends with it: once the drain has ended, no thread can make the lease authorized
-- again.
pub drain-expires :
    (g g' g'' g''' : ServiceMaintenanceGate) (l : DrainLease)
    → g.draining ≡ true
    → issue_lease false g ≡ some (g', l)
    → GateSteps g' g''
    → GateSteps (end_drain l g'') g'''
    → authorize l g'''
      ≡ err (gate_permission "a live drain lease from this maintenance gate is required")
unfolding authorize end_drain
drain-expires g g' g'' g''' l claimed issued before after =
    let (begun, _) = issue_lease-Issued g claimed issued in
    let i = GateSteps-Issued l before begun in
    let x =
      GateSteps-Expired l after
        (record { over = contains-discard_self l.number g''.live; gone = i.past }) in
    elim (Bool-cases (l.gate == g'''.gate)) [
      | inl here ↦ rw (here, x.over) refl
      | inr elsewhere ↦ rw elsewhere refl
    ]
