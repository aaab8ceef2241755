-- ===== src/Runtime/Invariant.antt =====
-- The invariant of one session's state, and that every operation on it keeps it.
use superdev.Base.{
  ltb, nat_eq, string_eq, pair_eq, option_string_eq, Bool-cases, Option-cases, length, drop, evict,
  length-append, length-drop, length-evict-le, evict-eq-drop, length-evict, contains, discard,
  length-discard-lt, find_first-contains, Dict, keys, erase, insert_last, length-erase-lt, ℕ, zero,
  suc, ◌+◌, ◌-◌, ◌≤◌, ◌<◌, min, String, ◌≡◌, refl, inl, inr, Bool, true, false, not, Option, none,
  List, [], ◌∷◌, ◌++◌, arith,
}
use superdev.Models.{ErrorDetail, ItemRecord, TurnSnapshot, EventRecord, SessionRecord}
use superdev.Runtime.{
  new_runtime, removable, trim_turns, trim_terminals, mark_terminal_published, retain_terminal,
  append_event, settle_terminal, SessionRuntime,
}

-- The cursors count up from `c`, and the next one is `n`.
abbrev pub Consecutive : ℕ → List EventRecord → ℕ → Type 0
Consecutive c [] n = c ≡ n
Consecutive c (e ∷ es) n = (e.cursor ≡ c) × Consecutive (c + 1) es n

pub record IsValid (limit : ℕ) (r : SessionRuntime) : Type 0 where
  pub bounded : length r.events ≡ min limit (r.next_cursor - 1)
  pub positive : 0 < r.next_cursor
  pub numbered : Consecutive (r.next_cursor - length r.events) r.events r.next_cursor
  pub remembered : length r.published_terminal_ids ≤ limit
  pub trimmed :
      ltb limit (length r.terminal_turns) ≡ true
      → removable r.publishing_terminal_ids r.terminal_turns ≡ none
  pub reserved : r.start_pending ≡ true → r.awaiting_start_response ≡ true
  pub unobserved : r.awaiting_start_response ≡ false → r.observed_start_turn_id ≡ none

Consecutive-append :
    (c n : ℕ) (es : List EventRecord) (e : EventRecord)
    → e.cursor ≡ n
    → Consecutive c es n
    → Consecutive c (es ++ (e ∷ [])) (n + 1)
Consecutive-append c n [] e h k = ground arith
Consecutive-append c n (x ∷ es) e h k = (k.0, Consecutive-append (c + 1) n es e h k.1)

Consecutive-drop :
    (c n k : ℕ) (es : List EventRecord)
    → k ≤ length es
    → Consecutive c es n
    → Consecutive (c + k) (drop k es) n
Consecutive-drop c n zero es b h = let e : c + 0 ≡ c = omega arith in rw e h
Consecutive-drop c n (suc k) [] b h = absurd (omega arith)
Consecutive-drop c n (suc k) (e ∷ es) b h =
    let q : c + suc k ≡ c + 1 + k = omega arith in
    rw q (Consecutive-drop (c + 1) n k es (omega arith) h.1)

pub Consecutive-length : (c n : ℕ) (es : List EventRecord) → Consecutive c es n → c + length es ≡ n
Consecutive-length c n [] h = omega arith
Consecutive-length c n (e ∷ es) h = omega (arith, Consecutive-length (c + 1) n es h.1)

-- A window of numbered events stays one when an event comes in and the oldest ones go.
Consecutive-evict :
    (limit c n : ℕ) (es : List EventRecord)
    → Consecutive c es n
    → Consecutive (n - length (evict limit es)) (evict limit es) n
Consecutive-evict limit c n es h = rw (evict-eq-drop limit es) (
    let p : n - length (drop (length es - limit) es) ≡ c + (length es - limit) =
      omega (arith, length-drop (length es - limit) es, Consecutive-length c n es h) in
    rw p (Consecutive-drop c n (length es - limit) es (omega arith) h))

-- Enough rounds end the trimming: the turns fit, or all of them are being published.
pub trim_turns-done :
    (fuel limit : ℕ) (publishing : List String) (turns : Dict String TurnSnapshot)
    → length turns ≤ fuel
    → ltb limit (length (trim_turns fuel limit publishing turns)) ≡ true
    → removable publishing (trim_turns fuel limit publishing turns) ≡ none
unfolding trim_turns
trim_turns-done zero limit publishing [] enough over = refl
trim_turns-done zero limit publishing (x ∷ turns) enough over = absurd (omega arith)
trim_turns-done (suc fuel) limit publishing turns enough over =
    elim (Bool-cases (ltb limit (length turns))) [
      | inr fits ↦ cc fits
      | inl large ↦ elim (Option-cases (removable publishing turns)) [
        | inl nothing ↦ rw (large, nothing, trim_turns) nothing
        | inr (t, found) ↦
            rw (large, found, trim_turns)
              (trim_turns-done fuel limit publishing (erase t turns)
                (omega (
                  arith,
                  length-erase-lt t turns
                      (find_first-contains (λ u. not (contains u publishing)) t (keys turns)
                        found).0,
                ))
                (rw (large, found, trim_turns) at over))
      ]
    ]

module _ {limit : ℕ} {r : SessionRuntime} (v : IsValid limit r) where
  pub append_event-IsValid :
      (event : String) (turn_id : Option String) (item : Option ItemRecord)
      (error : Option ErrorDetail)
      → IsValid limit (append_event limit event turn_id item error r)
  unfolding append_event
  append_event-IsValid event turn_id item error =
      let entry : EventRecord = record {
        cursor = r.next_cursor;
        event = event;
        session_id = r.session.session_id;
        thread_id = r.session.thread_id;
        turn_id = turn_id;
        item = item;
        error = error;
      } in
      let grown : List EventRecord = r.events ++ (entry ∷ []) in
      record {
        bounded = omega (
          arith,
          v.bounded,
          v.positive,
          length-evict limit grown,
          length-append r.events (entry ∷ []),
        );
        positive = omega arith;
        numbered =
            Consecutive-evict limit (r.next_cursor - length r.events) (r.next_cursor + 1) grown (
              Consecutive-append (r.next_cursor - length r.events) r.next_cursor r.events entry refl
                v.numbered);
        remembered = v.remembered;
        trimmed = v.trimmed;
        reserved = v.reserved;
        unobserved = v.unobserved;
      }

  pub mark_terminal_published-IsValid :
      (t : String) → IsValid limit (mark_terminal_published limit t r).0
  unfolding mark_terminal_published
  mark_terminal_published-IsValid t = elim (Bool-cases (contains t r.published_terminal_ids)) [
    | inl old ↦ rw old (record {
      bounded = v.bounded;
      positive = v.positive;
      numbered = v.numbered;
      remembered = omega (
        arith,
        v.remembered,
        length-append (discard t r.published_terminal_ids) (t ∷ []),
        length-discard-lt t r.published_terminal_ids old,
      );
      trimmed = v.trimmed;
      reserved = v.reserved;
      unobserved = v.unobserved;
    })
    | inr new ↦ rw new (record {
      bounded = v.bounded;
      positive = v.positive;
      numbered = v.numbered;
      remembered = length-evict-le limit (r.published_terminal_ids ++ (t ∷ []));
      trimmed = v.trimmed;
      reserved = v.reserved;
      unobserved = v.unobserved;
    })
  ]

-- A change of the terminal turns and of what is being published, trimmed.
pub retrim-IsValid :
    {limit : ℕ} {r : SessionRuntime} (turns : Dict String TurnSnapshot) (publishing : List String)
    → IsValid limit r
    → IsValid limit (
        trim_terminals limit
          (record r { terminal_turns = turns; publishing_terminal_ids = publishing }))
unfolding trim_terminals
retrim-IsValid {limit} turns publishing v = record {
  bounded = v.bounded;
  positive = v.positive;
  numbered = v.numbered;
  remembered = v.remembered;
  trimmed = trim_turns-done (length turns) limit publishing turns (omega arith);
  reserved = v.reserved;
  unobserved = v.unobserved;
}

pub retain_terminal-IsValid :
    {limit : ℕ} {r : SessionRuntime} (t : TurnSnapshot) (publishing : Bool)
    → IsValid limit r
    → IsValid limit (retain_terminal limit t publishing r)
unfolding retain_terminal
retain_terminal-IsValid {r} t publishing v =
    retrim-IsValid (insert_last t.turn_id t r.terminal_turns) _ v

pub settle_terminal-IsValid :
    {limit : ℕ} {r : SessionRuntime} (t : String)
    → IsValid limit r
    → IsValid limit (settle_terminal limit t r)
unfolding settle_terminal
settle_terminal-IsValid {r} t v = retrim-IsValid r.terminal_turns _ v

pub new_runtime-IsValid :
    (limit : ℕ) (session : SessionRecord) → IsValid limit (new_runtime session)
unfolding new_runtime
new_runtime-IsValid limit session = record {
  bounded = omega arith;
  positive = omega arith;
  numbered = omega arith;
  remembered = omega arith;
  trimmed = λ over. refl;
  reserved = λ p. cc;
  unobserved = λ p. refl;
}
