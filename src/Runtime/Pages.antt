-- ===== src/Runtime/Pages.antt =====
-- `events`: paging through the retained events by cursor.
use superdev.Base.{
  ltb, if◌then◌else◌, nat_eq, string_eq, pair_eq, option_string_eq, ltb→lt, Bool-cases, length,
  take, keep, get_last?, ℕ, zero, suc, ◌+◌, ◌-◌, ◌≤◌, ◌<◌, min, ◌≡◌, refl, sym, ap, ◌∙◌, ◌⊎◌, inl,
  inr, true, false, some, List, [], ◌∷◌, ◌++◌, arith,
}
use superdev.Models.{EventRecord}
use superdev.Runtime.{SessionRuntime}
use superdev.Runtime.Reads.{is_after, is_truncated, last_cursor, event_page}
use superdev.Runtime.Invariant.{Consecutive, Consecutive-length, IsValid}

get_last?-cons {ℓ} : {A : Type ℓ} (x : A) (xs : List A) → (l : A) × (get_last? (x ∷ xs) ≡ some l)
get_last?-cons x [] = (x, refl)
get_last?-cons x (y ∷ ys) = get_last?-cons y ys

last_cursor-cons :
    (after : ℕ) (e : EventRecord) (es : List EventRecord)
    → last_cursor after (e ∷ es) ≡ last_cursor e.cursor es
last_cursor-cons after e [] = refl
last_cursor-cons after e (d ∷ ds) =
    let (l, found) = get_last?-cons d ds in rw (found, last_cursor) refl

module _ (n : ℕ) where
  keep-all :
      (after c : ℕ) (es : List EventRecord)
      → after < c
      → Consecutive c es n
      → keep (is_after after) es ≡ es
  keep-all after c [] lt h = refl
  keep-all after c (e ∷ es) lt h = ground (arith, h.0, keep-all after (c + 1) es (omega arith) h.1)

  le-last_cursor :
      (after c limit : ℕ) (es : List EventRecord)
      → after < c
      → Consecutive c es n
      → after ≤ last_cursor after (take limit es)
  le-last_cursor after c zero es lt h = omega arith
  le-last_cursor after c (suc limit) [] lt h = omega arith
  le-last_cursor after c (suc limit) (e ∷ es) lt h =
      rw (last_cursor-cons after e (take limit es), h.0)
        (omega (arith, le-last_cursor c (c + 1) limit es (omega arith) h.1))

  -- A page of events that all come after the cursor, and what is left for the next page.
  page_split :
      (after c limit : ℕ) (es : List EventRecord)
      → after < c
      → Consecutive c es n
      → take limit es ++ keep (is_after (last_cursor after (take limit es))) es ≡ es
  page_split after c zero es lt h = keep-all after c es lt h
  page_split after c (suc limit) [] lt h = refl
  page_split after c (suc limit) (e ∷ es) lt h =
      let last = last_cursor c (take limit es) in
      let rest = keep (is_after last) es in
      let moved : last_cursor after (e ∷ take limit es) ≡ last =
        last_cursor-cons after e (take limit es) ∙ ap (λ k. last_cursor k (take limit es)) h.0 in
      let skipped : ltb last e.cursor ≡ false =
        ground (arith, h.0, le-last_cursor c (c + 1) limit es (omega arith) h.1) in
      ap (λ l. (e ∷ take limit es) ++ keep (is_after l) (e ∷ es)) moved
      ∙ ap (λ b. e ∷ (take limit es ++ (if b then e ∷ rest else rest))) skipped
      ∙ ap (λ l. e ∷ l) (page_split c (c + 1) limit es (omega arith) h.1)

  -- What comes after the cursor is empty, or begins after it.
  kept_cases :
      (after c : ℕ) (es : List EventRecord)
      → Consecutive c es n
      → (keep (is_after after) es ≡ [])
        ⊎ ((d : ℕ) × (after < d) × Consecutive d (keep (is_after after) es) n)
  kept_cases after c [] h = inl refl
  kept_cases after c (e ∷ es) h = elim (Bool-cases (ltb after c)) [
    | inl later ↦
        let all_after = keep-all after c (e ∷ es) (ltb→lt after c later) h in
        inr (c, ltb→lt after c later, rw all_after h)
    | inr passed ↦
        let skipped : keep (is_after after) (e ∷ es) ≡ keep (is_after after) es =
          ground (arith, h.0, passed) in
        rw skipped (kept_cases after (c + 1) es h.1)
  ]

  length-keep_after :
      (after c : ℕ) (es : List EventRecord)
      → Consecutive c es n
      → length (keep (is_after after) es) ≡ min (length es) (n - 1 - after)
  length-keep_after after c [] h = omega arith
  length-keep_after after c (e ∷ es) h =
      ground
        (arith, h.0, length-keep_after after (c + 1) es h.1, Consecutive-length (c + 1) n es h.1)

keep-narrow :
    (a b : ℕ) (es : List EventRecord)
    → a ≤ b
    → keep (is_after b) (keep (is_after a) es) ≡ keep (is_after b) es
keep-narrow a b [] h = refl
keep-narrow a b (e ∷ es) h = ground (arith, keep-narrow a b es h)

take-nil {ℓ} : {A : Type ℓ} (n : ℕ) → ◌≡◌ {A = List A} (take n []) []
take-nil zero = refl
take-nil (suc n) = refl

-- What the flag says of the first of the events.
whole_cases :
    (n after c : ℕ) (es : List EventRecord)
    → Consecutive c es n
    → is_truncated after es ≡ false
    → (length es ≡ 0) ⊎ (c ≤ after + 1)
whole_cases n after c [] h whole = inl refl
whole_cases n after c (e ∷ es) h whole = inr (ground (arith, h.0, whole))

cut_cases :
    (n after c : ℕ) (es : List EventRecord)
    → Consecutive c es n
    → is_truncated after es ≡ true
    → (0 < length es) × (after + 1 < c)
cut_cases n after c [] h cut = cc cut
cut_cases n after c (e ∷ es) h cut = (omega arith, ground (arith, h.0, cut))

module _ {limit : ℕ} {r : SessionRuntime} (v : IsValid limit r) where
  kept_length :
      (after : ℕ)
      → length (keep (is_after after) r.events) ≡ min (length r.events) (r.next_cursor - 1 - after)
  kept_length after =
      length-keep_after r.next_cursor after (r.next_cursor - length r.events) r.events v.numbered

  -- Paging through a valid session loses nothing and repeats nothing: a page holds the first of the retained events after
  -- the cursor, and what is retained after the next cursor is exactly the rest of them.
  pub event_page_partition :
      (after size : ℕ)
      → let page = event_page after size r in
        page.events ++ keep (is_after page.next_cursor) r.events ≡ keep (is_after after) r.events
  unfolding event_page
  event_page_partition after size =
      let kept = keep (is_after after) r.events in
      elim (kept_cases r.next_cursor after (r.next_cursor - length r.events) r.events v.numbered) [
        | inl nothing ↦ rw (nothing, take-nil {A = EventRecord} size) nothing
        | inr (d, lt, h) ↦
            let last = last_cursor after (take size kept) in
            ap (λ l. take size kept ++ l)
              (sym (
                keep-narrow after last r.events
                  (le-last_cursor r.next_cursor after d size kept lt h)))
            ∙ page_split r.next_cursor after d size kept lt h
      ]

  -- With a positive limit and a valid session, a page that does not say that it is truncated has
  -- missed nothing: as many events are retained after the cursor as were ever recorded after it.
  pub event_page_complete :
      (after size : ℕ)
      → 0 < limit
      → (event_page after size r).truncated ≡ false
      → length (keep (is_after after) r.events) ≡ r.next_cursor - 1 - after
  unfolding event_page
  event_page_complete after size some_room whole = ground (
    arith,
    whole_cases r.next_cursor after (r.next_cursor - length r.events) r.events v.numbered whole,
    kept_length after,
    v.bounded,
    v.positive,
    some_room,
  )

  -- A page that says that it is truncated has: fewer events are retained than were recorded.
  pub event_page_truncated :
      (after size : ℕ)
      → (event_page after size r).truncated ≡ true
      → length (keep (is_after after) r.events) < r.next_cursor - 1 - after
  unfolding event_page
  event_page_truncated after size cut = ground (
    arith,
    cut_cases r.next_cursor after (r.next_cursor - length r.events) r.events v.numbered cut,
    kept_length after,
    v.bounded,
    v.positive,
  )
