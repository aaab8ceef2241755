-- ===== src/Dispatcher/Draining.antt =====
-- `_drain_ready` of callback_dispatcher.py: the loop that empties the dispatcher at its shutdown.
use mathlib.Core.Path.{subst}
use superdev.Base.{
  if◌then◌else◌, string_eq, ◌==◌, nat_eq, pair_eq, option_string_eq, Bool-cases, Option-cases,
  is_some, Eq, length, find_first, contains, find_first-contains, Dict, keys, lookup, contains-keys,
  ℕ, zero, suc, ◌+◌, ◌≤◌, ◌<◌, ◌≡◌, refl, sym, ◌∙◌, inl, inr, Bool, true, false, none, some, List,
  [], ◌∷◌, arith,
}
use superdev.Models.{TurnSnapshot}
use superdev.Dispatcher.{
  TurnKey, is_ready, ready_key, TerminalProjectionContext, TerminalCallbackDispatcher,
}
use superdev.Dispatcher.Turns.{tracked_turn}
use superdev.Dispatcher.Processing.{drain_ready, TurnServices}
use superdev.Dispatcher.Working.{ready, Moved-stopping, Leads, Idle}
use superdev.Dispatcher.Resting.{process_terminal-Leads, AtRest}

-- How many of the keys are those of a turn that is ready.
abbrev pub count_ready : TerminalCallbackDispatcher → List TurnKey → ℕ
count_ready d [] = 0
count_ready d (k ∷ ks) = (if ready (tracked_turn k d) then 1 else 0) + count_ready d ks

module _ (d d' : TerminalCallbackDispatcher)
    (fewer : (k : TurnKey)
      → ready (tracked_turn k d') ≡ true
      → ready (tracked_turn k d) ≡ true) where
  count_ready-le : (ks : List TurnKey) → count_ready d' ks ≤ count_ready d ks
  count_ready-le [] = omega arith
  count_ready-le (k ∷ ks) = ground (arith, count_ready-le ks, fewer k)

  count_ready-lt :
      (key : TurnKey)
      → ready (tracked_turn key d) ≡ true
      → ready (tracked_turn key d') ≡ false
      → (ks : List TurnKey) → contains key ks ≡ true
      → count_ready d' ks < count_ready d ks
  count_ready-lt key before after [] h = cc
  count_ready-lt key before after (k ∷ ks) h = elim (Bool-cases (key == k)) [
    | inl equal ↦
        let e = (pair_eq.beq_iff key k).0 equal in
        rw (← e) (ground (arith, before, after, count_ready-le ks))
    | inr other ↦ ground (arith, fewer k, count_ready-lt key before after ks (rw other at h))
  ]

count_ready_pos :
    (d : TerminalCallbackDispatcher) (key : TurnKey)
    → ready (tracked_turn key d) ≡ true
    → (ks : List TurnKey) → contains key ks ≡ true
    → 0 < count_ready d ks
count_ready_pos d key r [] h = cc
count_ready_pos d key r (k ∷ ks) h = elim (Bool-cases (key == k)) [
  | inl equal ↦ let e = (pair_eq.beq_iff key k).0 equal in rw (← e) (ground (arith, r))
  | inr other ↦ ground (arith, count_ready_pos d key r ks (rw other at h))
]

find_first-none {ℓ} :
    {A : Type ℓ} ⦃e : Eq A⦄ (p : A → Bool) (a : A) (xs : List A)
    → find_first p xs ≡ none
    → contains a xs ≡ true
    → p a ≡ false
find_first-none p a [] h c = cc
find_first-none ⦃e⦄ p a (x ∷ xs) h c = elim (Bool-cases (p x)) [
  | inl hit ↦ cc (rw hit at h)
  | inr miss ↦ elim (Bool-cases (a == x)) [
    | inl equal ↦ rw ((e.beq_iff a x).0 equal) miss
    | inr other ↦ find_first-none p a xs (rw miss at h) (rw other at c)
  ]
]

module _ (d : TerminalCallbackDispatcher) where
  ready_key-none : ready_key d ≡ none → (k : TurnKey) → ready (tracked_turn k d) ≡ false
  unfolding ready_key tracked_turn
  ready_key-none h k = elim (Bool-cases (is_some (lookup k d.snapshots))) [
    | inl there ↦
        let unready =
          find_first-none (is_ready d) k (keys d.snapshots) h
            (contains-keys k d.snapshots ∙ there) in
        rw there unready
    | inr absent ↦ rw absent refl
  ]

  ready_key-some :
      (key : TurnKey)
      → ready_key d ≡ some key
      → (ready (tracked_turn key d) ≡ true)
        × ((context : TerminalProjectionContext) × (lookup key d.contexts ≡ some context))
        × ((snapshot : TurnSnapshot) × (lookup key d.snapshots ≡ some snapshot))
  unfolding ready_key tracked_turn
  ready_key-some key h =
      let (listed, is_r) = find_first-contains (is_ready d) key (keys d.snapshots) h in
      let there = sym (contains-keys key d.snapshots) ∙ listed in
      elim (Option-cases (lookup key d.contexts)) [
        | inl no_context ↦ cc (rw no_context at is_r)
        | inr (context, has_context) ↦ elim (Option-cases (lookup key d.snapshots)) [
          | inl no_snapshot ↦ cc (rw no_snapshot at there)
          | inr (snapshot, has_snapshot) ↦
              (rw there is_r, (context, has_context), (snapshot, has_snapshot))
        ]
      ]

-- Work on one turn makes no other turn ready, and leaves no turn owned.
AtRest-elsewhere :
    (key : TurnKey) (d d' : TerminalCallbackDispatcher)
    → Leads AtRest key d d'
    → (k : TurnKey) → Idle (tracked_turn k d)
    → Idle (tracked_turn k d')
      × (ready (tracked_turn k d') ≡ true → ready (tracked_turn k d) ≡ true)
AtRest-elsewhere key d d' (m, p) k idle = elim (Bool-cases (key == k)) [
  | inl equal ↦
      let e = (pair_eq.beq_iff key k).0 equal in
      let q = subst (λ k. AtRest (tracked_turn k d')) e p in (q.idle, λ h. cc (q.unready, h))
  | inr other ↦ rw (m.others k other) (idle, λ h. h)
]

fewer_ready :
    (key : TurnKey) (d d' : TerminalCallbackDispatcher)
    → Leads AtRest key d d'
    → ((k : TurnKey) → Idle (tracked_turn k d))
    → (k : TurnKey) → ready (tracked_turn k d') ≡ true
    → ready (tracked_turn k d) ≡ true
fewer_ready key d d' l idle k = (AtRest-elsewhere key d d' l k (idle k)).1

module _ {S : Type 0} (w : TurnServices S) where
  drain_ready-within :
      (looks : ℕ) (d : TerminalCallbackDispatcher) (s : S) (known_keys : List TurnKey)
      → d.stopping ≡ true
      → ((k : TurnKey) → Idle (tracked_turn k d))
      → ((k : TurnKey) → ready (tracked_turn k d) ≡ true → contains k known_keys ≡ true)
      → count_ready d known_keys ≤ looks
      → (d' : TerminalCallbackDispatcher) × (s' : S) × (drain_ready w looks d s ≡ some (d', s'))
        × ((k : TurnKey) → ready (tracked_turn k d') ≡ false)
  unfolding drain_ready
  drain_ready-within zero d s ks stops idle covered few = (
    d,
    s,
    refl,
    λ k. elim (Bool-cases (ready (tracked_turn k d))) [
      | inl r ↦ absurd (omega (arith, count_ready_pos d k r ks (covered k r)))
      | inr u ↦ u
    ],
  )
  drain_ready-within (suc looks) d s ks stops idle covered few = elim (Option-cases (ready_key d)) [
    | inl rest ↦ (d, s, rw (rest, drain_ready) refl, ready_key-none d rest)
    | inr (key, found) ↦
        let (r, (context, has_context), (snapshot, has_snapshot)) = ready_key-some d key found in
        let (d', s', e, (m, p)) =
          process_terminal-Leads w key context snapshot d s stops (idle key) r in
        let fewer = fewer_ready key d d' (m, p) idle in
        let (d'', s'', f, done) =
          drain_ready-within looks d' s' ks (Moved-stopping m ∙ stops)
            (λ k. (AtRest-elsewhere key d d' (m, p) k (idle k)).0) (λ k h. covered k (fewer k h))
            (omega (arith, count_ready-lt d d' fewer key r p.unready ks (covered key r))) in
        (d'', s'', rw (found, has_context, has_snapshot, e, drain_ready) f, done)
  ]

count_ready-le-length :
    (d : TerminalCallbackDispatcher) (snapshots : Dict TurnKey TurnSnapshot)
    → count_ready d (keys snapshots) ≤ length snapshots
count_ready-le-length d [] = omega arith
count_ready-le-length d ((k, v) ∷ more) = ground (arith, count_ready-le-length d more)

ready-is_listed :
    (d : TerminalCallbackDispatcher) (k : TurnKey)
    → ready (tracked_turn k d) ≡ true
    → contains k (keys d.snapshots) ≡ true
unfolding tracked_turn
ready-is_listed d k h = ground (arith, contains-keys k d.snapshots)

-- The shutdown ends: with as many looks at the clock before the deadline as there are snapshots, and
-- no thread that owns a turn, the loop returns without waiting, whatever the projector and the store
-- answer, and no turn is left to be processed.
pub drain_ready-ends :
    {S : Type 0} (w : TurnServices S) (d : TerminalCallbackDispatcher) (s : S) (looks : ℕ)
    → d.stopping ≡ true
    → ((k : TurnKey) → Idle (tracked_turn k d))
    → length d.snapshots ≤ looks
    → (d' : TerminalCallbackDispatcher) × (s' : S) × (drain_ready w looks d s ≡ some (d', s'))
      × (ready_key d' ≡ none)
drain_ready-ends w d s looks stops idle enough =
    let (d', s', e, rest) =
      drain_ready-within w looks d s (keys d.snapshots) stops idle (ready-is_listed d)
        (omega (arith, count_ready-le-length d d.snapshots)) in
    (
      d',
      s',
      e,
      elim (Option-cases (ready_key d')) [
        | inl none_left ↦ none_left
        | inr (key, found) ↦ cc (rest key, (ready_key-some d' key found).0)
      ],
    )
