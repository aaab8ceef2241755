-- ===== src/Runtime/Terminals.antt =====
-- The end of a turn: it is published once, with the items of the turn in their order.
use superdev.Base.{
  ltb, string_eq, ◌==◌, nat_eq, pair_eq, option_string_eq, Bool-cases, is_some, length, evict,
  contains, discard, contains-append, ℕ, ◌<◌, String, ◌≡◌, refl, ◌∙◌, inl, inr, Bool, true, false,
  not, ◌&&◌, Option, none, some, List, [], ◌∷◌, ◌++◌, arith, eq_iff,
}
use superdev.Models.{ErrorDetail, TurnSnapshot}
use superdev.Runtime.{
  trim_terminals, mark_terminal_published, retain_terminal, append_event, SessionRuntime,
}
use superdev.Runtime.Turns.{turn_started, finish_active, complete_turn}

contains-last : (t : String) (ts : List String) → contains t (ts ++ (t ∷ [])) ≡ true
contains-last t ts = ground (arith, contains-append t ts (t ∷ []), eq_iff t t)

contains-evict_last :
    (limit : ℕ) (t : String) (ts : List String)
    → 0 < limit
    → contains t (evict limit (ts ++ (t ∷ []))) ≡ true
unfolding evict
contains-evict_last limit t [] room =
    let one : ltb limit 1 ≡ false = ground arith in rw one (contains-last t [])
contains-evict_last limit t (x ∷ ts) room =
    elim (Bool-cases (ltb limit (length ((x ∷ ts) ++ (t ∷ []))))) [
      | inl over ↦ rw over (contains-evict_last limit t ts room)
      | inr fits ↦ rw fits (contains-last t (x ∷ ts))
    ]

contains-move_last : (t : String) (ts : List String) → contains t (discard t ts ++ (t ∷ [])) ≡ true
contains-move_last t ts = contains-last t (discard t ts)

-- Once its end is recorded, a turn is remembered, and is not active.
Closed : String → SessionRuntime → Type 0
Closed t r = (contains t r.published_terminal_ids ≡ true) × ((r.active_turn_id == some t) ≡ false)

recorded-Closed :
    (limit : ℕ) (t : String) (fresh : Bool) (error : Option ErrorDetail) (snapshot : TurnSnapshot)
    (r : SessionRuntime)
    → Closed t r
    → Closed t (
        append_event limit "turn_completed"
          (some t)
          none
          error
          (retain_terminal limit snapshot fresh r))
unfolding Closed append_event retain_terminal trim_terminals
recorded-Closed limit t fresh error snapshot r h = h

finish_active-inactive :
    (t : String) (r : SessionRuntime) → ((finish_active t r).active_turn_id == some t) ≡ false
unfolding finish_active
finish_active-inactive t r = elim (Bool-cases (r.active_turn_id == some t)) [
  | inl same ↦ rw same refl
  | inr other ↦ rw other other
]

marked-Closed :
    (limit : ℕ) (t : String) (r : SessionRuntime)
    → 0 < limit
    → (r.active_turn_id == some t) ≡ false
    → Closed t (mark_terminal_published limit t r).0
unfolding Closed mark_terminal_published
marked-Closed limit t r room inactive = elim (Bool-cases (contains t r.published_terminal_ids)) [
  | inl old ↦ rw old (contains-move_last t r.published_terminal_ids, inactive)
  | inr new ↦ rw new (contains-evict_last limit t r.published_terminal_ids room, inactive)
]

late_parts :
    (t : String) (r : SessionRuntime)
    → (contains t r.published_terminal_ids && not (r.active_turn_id == some t)) ≡ true
    → Closed t r
unfolding Closed
late_parts t r late = elim (Bool-cases (contains t r.published_terminal_ids)) [
  | inl old ↦ (
    old,
    elim (Bool-cases (r.active_turn_id == some t)) [
      | inl same ↦ cc (rw (old, same) at late)
      | inr other ↦ other
    ],
  )
  | inr new ↦ cc (rw new at late)
]

complete_turn-Closed :
    (limit : ℕ) (t end : String) (error : Option ErrorDetail) (r : SessionRuntime)
    → 0 < limit
    → Closed t (complete_turn limit t end error r).0
unfolding complete_turn
complete_turn-Closed limit t end error r room =
    elim (Bool-cases (contains t r.published_terminal_ids && not (r.active_turn_id == some t))) [
      | inl late ↦ rw late (late_parts t r late)
      | inr live ↦ rw live (
          recorded-Closed limit t _ error _ _
            (marked-Closed limit t _ room (finish_active-inactive t r)))
    ]

-- Only a turn whose end is not remembered is published.
complete_turn-fresh_only :
    (limit : ℕ) (t end : String) (error : Option ErrorDetail) (r : SessionRuntime)
    → contains t r.published_terminal_ids ≡ true
    → (complete_turn limit t end error r).1 ≡ none
unfolding complete_turn mark_terminal_published finish_active
complete_turn-fresh_only limit t end error r old = elim (Bool-cases (r.active_turn_id == some t)) [
  | inl same ↦ rw (old, same) refl
  | inr other ↦ rw (old, other) refl
]

Closed-complete_turn :
    (limit : ℕ) (t end : String) (error : Option ErrorDetail) (r : SessionRuntime)
    → Closed t r
    → complete_turn limit t end error r ≡ (r, none)
unfolding Closed complete_turn
Closed-complete_turn limit t end error r (old, inactive) = rw (old, inactive) refl

Closed-remembered :
    (t : String) (r : SessionRuntime) → Closed t r → contains t r.published_terminal_ids ≡ true
unfolding Closed
Closed-remembered t r h = h.0

abbrev pub announced : Option TurnSnapshot → List TurnSnapshot → List TurnSnapshot
announced none turns = turns
announced (some turn) turns = turn ∷ turns

-- Late notifications of a turn, that it has begun or that it has ended, one after another: the new
-- state and what is published.
abbrev pub late_notices :
    ℕ
    → String
    → List (Option (String × Option ErrorDetail))
    → SessionRuntime
    → SessionRuntime × List TurnSnapshot
late_notices limit t [] r = (r, [])
late_notices limit t (none ∷ notices) r = late_notices limit t notices (turn_started limit t r)
late_notices limit t (some (status, error) ∷ notices) r =
    let ended = complete_turn limit t status error r in
    let rest = late_notices limit t notices ended.0 in (rest.0, announced ended.1 rest.1)

Closed-turn_started :
    (limit : ℕ) (t : String) (r : SessionRuntime)
    → Closed t r
    → r.awaiting_start_response ≡ false
    → turn_started limit t r ≡ r
unfolding Closed turn_started
Closed-turn_started limit t r (old, inactive) answered = rw (old, answered) refl

Closed-late_notices :
    (limit : ℕ) (t : String) (notices : List (Option (String × Option ErrorDetail)))
    (r : SessionRuntime)
    → Closed t r
    → r.awaiting_start_response ≡ false
    → late_notices limit t notices r ≡ (r, [])
Closed-late_notices limit t [] r closed answered = refl
Closed-late_notices limit t (none ∷ notices) r closed answered =
    rw (Closed-turn_started limit t r closed answered)
      (Closed-late_notices limit t notices r closed answered)
Closed-late_notices limit t (some (status, error) ∷ notices) r closed answered =
    rw (Closed-complete_turn limit t status error r closed)
      (rw (Closed-late_notices limit t notices r closed answered) refl)

complete_turn-awaiting :
    (limit : ℕ) (t end : String) (error : Option ErrorDetail) (r : SessionRuntime)
    → (complete_turn limit t end error r).0.awaiting_start_response ≡ r.awaiting_start_response
unfolding complete_turn mark_terminal_published finish_active retain_terminal trim_terminals
    append_event
complete_turn-awaiting limit t end error r = ground arith

-- With a positive limit and while no start awaits its answer, `complete_turn` publishes a turn only
-- when the turn is not among those that are remembered as published, the turn is remembered right
-- after it, and the notifications of that turn that follow it directly, that it has begun or that it
-- has ended, in any number and order, change nothing and publish nothing.
pub complete_turn-once :
    (limit : ℕ) (t end : String) (error : Option ErrorDetail)
    (notices : List (Option (String × Option ErrorDetail))) (r : SessionRuntime)
    → 0 < limit
    → r.awaiting_start_response ≡ false
    → let (r', published) = complete_turn limit t end error r in
      (is_some published ≡ true → contains t r.published_terminal_ids ≡ false)
      × (contains t r'.published_terminal_ids ≡ true)
      × (late_notices limit t notices r' ≡ (r', []))
complete_turn-once limit t end error notices r room answered =
    let closed = complete_turn-Closed limit t end error r room in
    (
      λ shown. elim (Bool-cases (contains t r.published_terminal_ids)) [
        | inl old ↦ cc (rw (complete_turn-fresh_only limit t end error r old) at shown)
        | inr new ↦ new
      ],
      Closed-remembered t _ closed,
      Closed-late_notices limit t notices _ closed
          (complete_turn-awaiting limit t end error r ∙ answered),
    )
