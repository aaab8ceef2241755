-- ===== src/Runtime/Waiting.antt =====
-- `wait` of runtime.py: it sleeps while its turn runs, and returns what the end of the turn publishes.
use superdev.Base.{
  ltb, if◌then◌else◌, string_eq, ◌==◌, nat_eq, pair_eq, option_beq_iff, option_string_eq,
  Bool-cases, Option-cases, get_or, length, all, contains, add, contains-add, ok, Dict, lookup,
  erase, insert_last, lookup-erase, lookup-append, ℕ, zero, suc, String, ◌≡◌, refl, ◌∙◌, inl, inr,
  Bool, true, false, not, ◌&&◌, Option, none, some, List, [], ◌∷◌, ◌++◌, arith, eq_iff,
}
use superdev.Models.{ErrorDetail, TurnSnapshot}
use superdev.Runtime.{
  removable, trim_turns, trim_terminals, mark_terminal_published, retain_terminal, append_event,
  SessionRuntime,
}
use superdev.Runtime.Turns.{is_pending_start, finish_active, complete_turn}
use superdev.Runtime.Reads.{wait_once, wait_over}
use superdev.Runtime.Protocol.{complete_turn-fresh}

removable-found :
    (publishing : List String) (turns : Dict String TurnSnapshot) (u : String)
    → removable publishing turns ≡ some u
    → contains u publishing ≡ false
removable-found publishing [] u h = cc
removable-found publishing ((k, turn) ∷ turns) u h = elim (Bool-cases (contains k publishing)) [
  | inl held ↦ removable-found publishing turns u (rw held at h)
  | inr free ↦ let same : k ≡ u = cc (rw free at h) in rw (← same) free
]

-- A turn that is being published is not trimmed.
lookup-trim_turns :
    (fuel limit : ℕ) (publishing : List String) (turns : Dict String TurnSnapshot) (t : String)
    → contains t publishing ≡ true
    → lookup t (trim_turns fuel limit publishing turns) ≡ lookup t turns
unfolding trim_turns
lookup-trim_turns zero limit publishing turns t held = refl
lookup-trim_turns (suc fuel) limit publishing turns t held =
    elim (Bool-cases (ltb limit (length turns))) [
      | inr fits ↦ rw fits refl
      | inl over ↦ elim (Option-cases (removable publishing turns)) [
        | inl nothing ↦ rw (over, nothing) refl
        | inr (u, found) ↦
            let free = removable-found publishing turns u found in
            let other : (u == t) ≡ false = ground (arith, held, free, eq_iff u t) in
            rw (over, found)
              (lookup-trim_turns fuel limit publishing (erase u turns) t held
                ∙ lookup-erase u t turns
                ∙ rw other refl)
      ]
    ]

lookup-retained :
    (t : String) (turn : TurnSnapshot) (turns : Dict String TurnSnapshot)
    → lookup t (insert_last t turn turns) ≡ some turn
lookup-retained t turn turns =
    ground
      (arith, lookup-append t (erase t turns) ((t, turn) ∷ []), lookup-erase t t turns, eq_iff t t)

-- The end of the turn, as `wait` sees it.
Over : String → TurnSnapshot → SessionRuntime → Type 0
Over t snapshot r =
    (r.active_turn_id ≡ none)
    × (r.start_pending ≡ false)
    × (r.latest_turn ≡ some snapshot)
    × (lookup t r.terminal_turns ≡ some snapshot)

retained-Over :
    (limit : ℕ) (error : Option ErrorDetail) (snapshot : TurnSnapshot) (r : SessionRuntime)
    → r.active_turn_id ≡ none
    → r.start_pending ≡ false
    → r.latest_turn ≡ some snapshot
    → Over snapshot.turn_id snapshot (
        append_event limit "turn_completed"
          (some snapshot.turn_id)
          none
          error
          (retain_terminal limit snapshot true r))
unfolding Over append_event retain_terminal trim_terminals
retained-Over limit error snapshot r idle answered latest = (
  idle,
  answered,
  latest,
  lookup-trim_turns _ limit (add snapshot.turn_id r.publishing_terminal_ids)
        (insert_last snapshot.turn_id snapshot r.terminal_turns) snapshot.turn_id
        (ground (
          arith,
          contains-add snapshot.turn_id snapshot.turn_id r.publishing_terminal_ids,
          eq_iff snapshot.turn_id snapshot.turn_id,
        ))
      ∙ lookup-retained snapshot.turn_id snapshot r.terminal_turns,
)

complete_turn-Over :
    (limit : ℕ) (t end : String) (error : Option ErrorDetail) (r : SessionRuntime)
    → r.active_turn_id ≡ some t
    → r.start_pending ≡ false
    → contains t r.published_terminal_ids ≡ false
    → let snapshot : TurnSnapshot = record {
      turn_id = t;
      status = end;
      error = error;
      items = get_or (lookup t r.items) [];
    } in
      Over t snapshot (complete_turn limit t end error r).0
unfolding finish_active mark_terminal_published
complete_turn-Over limit t end error r active answered fresh =
    let mine : (r.active_turn_id == some t) ≡ true =
      ground (arith, active, option_beq_iff r.active_turn_id (some t)) in
    let quiet : (if is_pending_start t r then false else r.start_pending) ≡ false =
      ground (arith, answered) in
    rw (complete_turn-fresh limit t end error r fresh)
      (retained-Over limit error _ _ (rw (fresh, mine) refl) (rw fresh quiet) (rw fresh refl))

-- The waits for a turn: for the turn by its name, or for whatever runs.
abbrev pub Awaits : String → Option String → Type 0
Awaits t none = Unit
Awaits t (some u) = u ≡ t

-- The turn runs, and the deadline has not passed.
abbrev pub is_running : String → SessionRuntime × Bool → Bool
is_running t (r, expired) = (r.active_turn_id == some t) && not expired

wait_once-sleeps :
    (t : String) (target : Option String) (expired : Bool) (r : SessionRuntime)
    → Awaits t target
    → is_running t (r, expired) ≡ true
    → wait_once target expired r ≡ none
unfolding wait_once
wait_once-sleeps t none expired r about runs =
    let mine : r.active_turn_id ≡ some t =
      ground (arith, runs, option_beq_iff r.active_turn_id (some t)) in
    let early : expired ≡ false = ground (arith, runs) in rw (mine, early) (ground arith)
wait_once-sleeps t (some u) expired r about runs =
    let mine : (r.active_turn_id == some t) ≡ true = ground (arith, runs) in
    let early : expired ≡ false = ground (arith, runs) in rw (about, mine, early) refl

wait_once-Over :
    (t : String) (target : Option String) (expired : Bool) (r : SessionRuntime)
    (snapshot : TurnSnapshot)
    → Awaits t target
    → Over t snapshot r
    → wait_once target expired r ≡ some (ok snapshot)
unfolding wait_once Over
wait_once-Over t none expired r snapshot about (idle, answered, latest, kept) =
    rw (answered, idle, latest) refl
wait_once-Over t (some u) expired r snapshot about (idle, answered, latest, kept) =
    let named : lookup u r.terminal_turns ≡ some snapshot = rw about kept in rw (idle, named) refl

wait_over-sleeps :
    (t : String) (target : Option String) (before looks : List (SessionRuntime × Bool))
    → Awaits t target
    → all (is_running t) before ≡ true
    → wait_over target (before ++ looks) ≡ wait_over target looks
unfolding wait_over
wait_over-sleeps t target [] looks about runs = refl
wait_over-sleeps t target ((r, expired) ∷ before) looks about runs =
    let first : is_running t (r, expired) ≡ true = ground (arith, runs) in
    let rest : all (is_running t) before ≡ true = ground (arith, runs) in
    rw (wait_once-sleeps t target expired r about first, wait_over)
      (wait_over-sleeps t target before looks about rest)

-- The running turn of a session, whose start has been answered and which is not remembered as
-- published, comes to its end. A caller that waits for this turn by its name, or for whatever turn
-- runs, sleeps through all its looks while the turn runs and its deadline has not passed, and its
-- first look after the end, whether the deadline has passed or not, returns the snapshot that the end
-- publishes.
pub wait_over-complete_turn :
    (limit : ℕ) (t end : String) (error : Option ErrorDetail) (r : SessionRuntime)
    (target : Option String) (before after : List (SessionRuntime × Bool)) (expired : Bool)
    → Awaits t target
    → r.active_turn_id ≡ some t
    → r.start_pending ≡ false
    → contains t r.published_terminal_ids ≡ false
    → all (is_running t) before ≡ true
    → let (r', published) = complete_turn limit t end error r in
      (snapshot : TurnSnapshot) × (published ≡ some snapshot)
      × (wait_over target (before ++ ((r', expired) ∷ after)) ≡ some (ok snapshot))
unfolding wait_over
wait_over-complete_turn limit t end error r target before after expired about active answered fresh
      runs =
    let over = complete_turn-Over limit t end error r active answered fresh in
    let r' = (complete_turn limit t end error r).0 in
    let snapshot : TurnSnapshot = record {
      turn_id = t;
      status = end;
      error = error;
      items = get_or (lookup t r.items) [];
    } in
    (
      snapshot,
      rw (complete_turn-fresh limit t end error r fresh) refl,
      wait_over-sleeps t target before ((r', expired) ∷ after) about runs
          ∙ rw (wait_once-Over t target expired r' snapshot about over, wait_over) refl,
    )
