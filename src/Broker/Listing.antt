-- ===== src/Broker/Listing.antt =====
-- The inventory of broker.py against the pages that the app server gives.
use superdev.Base.{
  string_eq, ◌==◌, nat_eq, pair_eq, option_string_eq, Bool-cases, Option-cases, is_some, any,
  contains, add, all_distinct, contains-append, >>=-eq-ok, raise_if-eq-ok, ok_inj, Result, ok, err,
  Dict, keys, lookup, insert, contains-keys, ℕ, zero, suc, ◌+◌, String, ◌≡◌, refl, sym, ap, ◌∙◌,
  inl, inr, Bool, true, false, not, ◌&&◌, ◌||◌, Option, none, some, List, [], ◌∷◌, ◌++◌, arith,
  eq_iff,
}
use superdev.Json.{Json}
use superdev.Models.{SessionRecord}
use superdev.Models.Maintenance.{
  is_blank, is_bad_worker, active_thread_item, item_threads, active_inventory, ActiveThreadItem,
  ActiveInventory,
}
use superdev.Registry.Identity.{all_distinct-append}
use superdev.Transport.{CallError}
use superdev.Broker.Inventory.{
  page_error, ListedThread, inventory_page, collect, list_pages, as_upstream, inventory_turn_id,
  active_item, inventory_item, as_invalid, records_by_thread, inventory_items, list_active_threads,
  AppServer,
}

-- All threads of the pages from a cursor on, followed to the page without a next cursor.
pub data Pages (server : AppServer) : ℕ → Option String → List ListedThread → Type 0 where
  last_page :
      {page : ℕ} {cursor : Option String} (result : Json) (threads : List ListedThread)
      → server.thread_list page cursor ≡ ok result
      → inventory_page result ≡ ok (threads, none)
      → Pages server page cursor threads
  more_pages :
      {page : ℕ} {cursor : Option String} {rest : List ListedThread} (result : Json)
      (threads : List ListedThread) (next : String)
      → server.thread_list page cursor ≡ ok result
      → inventory_page result ≡ ok (threads, some next)
      → Pages server (page + 1) (some next) rest
      → Pages server page cursor (threads ++ rest)

-- Whether a thread is active on one of the pages
abbrev pub is_active_in : String → List ListedThread → Bool
is_active_in id [] = false
is_active_in id ((j, none) ∷ threads) = is_active_in id threads
is_active_in id ((j, some flags) ∷ threads) = let rest = is_active_in id threads in id == j || rest

collect-append :
    (ts us : List ListedThread) (active : Dict String (List String))
    → collect (ts ++ us) active ≡ collect us (collect ts active)
unfolding collect
collect-append [] us active = refl
collect-append ((id, none) ∷ ts) us active = collect-append ts us active
collect-append ((id, some flags) ∷ ts) us active = collect-append ts us _

insert-keys :
    (k : String) (v : List String) (active : Dict String (List String))
    → lookup k active ≡ none
    → keys (insert k v active) ≡ keys active ++ (k ∷ [])
insert-keys k v [] h = refl
insert-keys k v ((j, w) ∷ d) h = elim (Bool-cases (k == j)) [
  | inl same ↦ ground (arith, h, same)
  | inr other ↦ rw other (ap (λ ks. j ∷ ks) (insert-keys k v d (ground (arith, h, other))))
]

known_key :
    (id j : String) (active : Dict String (List String)) (rest : Bool)
    → contains j (keys active) ≡ true
    → (contains id (keys active) || rest) ≡ (contains id (keys active) || ((id == j) || rest))
known_key id j active rest there = elim (Bool-cases (id == j)) [
  | inl same ↦ let e : id ≡ j = (eq_iff id j).0 same in rw (e, there) refl
  | inr other ↦ rw other refl
]

collect-keys :
    (ts : List ListedThread) (active : Dict String (List String)) (id : String)
    → contains id (keys (collect ts active)) ≡ (contains id (keys active) || is_active_in id ts)
unfolding collect
collect-keys [] active id = ground arith
collect-keys ((j, none) ∷ ts) active id = collect-keys ts active id
collect-keys ((j, some flags) ∷ ts) active id = elim (Option-cases (lookup j active)) [
  | inl e ↦ rw e (
      collect-keys ts (insert j flags active) id
      ∙ rw (insert-keys j flags active e, contains-append id (keys active) (j ∷ [])) (ground arith))
  | inr (v, e) ↦
      rw e
        (collect-keys ts active id ∙ known_key id j active _ (contains-keys j active ∙ rw e refl))
]

collect-distinct :
    (ts : List ListedThread) (active : Dict String (List String))
    → all_distinct (keys active) ≡ true
    → all_distinct (keys (collect ts active)) ≡ true
unfolding collect
collect-distinct [] active h = h
collect-distinct ((j, none) ∷ ts) active h = collect-distinct ts active h
collect-distinct ((j, some flags) ∷ ts) active h = elim (Option-cases (lookup j active)) [
  | inr (v, e) ↦ rw e (collect-distinct ts active h)
  | inl e ↦
      let new : contains j (keys active) ≡ false = contains-keys j active ∙ rw e refl in
      rw e (
        collect-distinct ts (insert j flags active)
          (rw (insert-keys j flags active e, all_distinct-append j (keys active), h, new) refl))
]

-- The test on the cursor
not_stuck :
    (b : Bool) (why : CallError) (r : Result CallError (Dict String (List String)))
    {found : Dict String (List String)}
    → (elim b as (λ _. Result CallError (Dict String (List String))) [ true ↦ err why | false ↦ r ])
      ≡ ok found
    → r ≡ ok found
not_stuck true why r h = cc
not_stuck false why r h = h

active_thread_item-same :
    (i : ActiveThreadItem) {j : ActiveThreadItem} → active_thread_item i ≡ ok j → i ≡ j
unfolding active_thread_item
active_thread_item-same i h =
    let (_, h1) = raise_if-eq-ok (i.thread_id == "") "active thread_id must be non-empty" _ h in
    let (_, h2) =
      raise_if-eq-ok (not (contains i.origin ("worker" ∷ "unmapped_tui" ∷ [])))
        "active origin is invalid" _ h1 in
    let (_, h3) =
      raise_if-eq-ok (is_bad_worker i.worker) "active worker must be non-empty when present" _ h2 in
    let (_, h4) =
      raise_if-eq-ok (is_blank i.session_id) "active session_id must be non-empty when present" _
        h3 in
    let (_, h5) = raise_if-eq-ok (i.turn_id == "") "active turn_id must be non-empty" _ h4 in
    let (_, h6) =
      raise_if-eq-ok (any (λ f. f == "") i.active_flags) "active flags must be non-empty strings" _
        h5 in
    let (_, h7) =
      raise_if-eq-ok (i.origin == "unmapped_tui" && (is_some i.worker || is_some i.session_id))
        "unmapped TUI activity cannot carry worker identity" _ h6 in
    let (_, h8) =
      raise_if-eq-ok (i.origin == "worker" && not (is_some i.session_id))
        "worker activity requires session identity" _ h7 in
    ok_inj h8

as_invalid-ok : {A : Type 0} (r : Result String A) {a : A} → as_invalid r ≡ ok a → r ≡ ok a
as_invalid-ok (ok b) h = cc
as_invalid-ok (err why) h = cc

as_upstream-ok : {A : Type 0} (r : Result CallError A) {a : A} → as_upstream r ≡ ok a → r ≡ ok a
as_upstream-ok (ok b) h = cc
as_upstream-ok (err why) h = cc

active_inventory-items :
    (is : List ActiveThreadItem) {v : ActiveInventory} → active_inventory is ≡ ok v → is ≡ v.items
unfolding active_inventory
active_inventory-items is h = elim (Bool-cases (all_distinct (item_threads is))) [
  | inl one ↦ ap (λ (v : ActiveInventory). v.items) (ok_inj (rw (one, active_inventory) at h))
  | inr twice ↦ cc (rw (twice, active_inventory) at h)
]

inventory_item-thread :
    (id : String) (o : Option SessionRecord) (turn_id : String) (flags : List String)
    {item : ActiveThreadItem}
    → as_invalid (inventory_item id o turn_id flags) ≡ ok item
    → item.thread_id ≡ id
unfolding inventory_item
inventory_item-thread id o turn_id flags h = sym (
    ap (λ (i : ActiveThreadItem). i.thread_id)
      (active_thread_item-same (active_item id o turn_id flags) (as_invalid-ok _ h)))

module _ (server : AppServer) where
  list_pages-Pages :
      (looks page : ℕ) (cursor : Option String) (seen : List String)
      (active : Dict String (List String)) {found : Dict String (List String)}
      → list_pages server looks page cursor seen active ≡ ok found
      → (ts : List ListedThread) × Pages server page cursor ts × (found ≡ collect ts active)
  unfolding list_pages
  list_pages-Pages zero page cursor seen active h = cc
  list_pages-Pages (suc looks) page cursor seen active {found} h =
      let (result, listed, rest) = >>=-eq-ok (server.thread_list page cursor) _ h in
      let (content, read, after) = >>=-eq-ok (inventory_page result) _ rest in
      by_next result content.0 content.1
        (λ threads c.
          list_pages-Pages looks (page + 1) (some c) (add c seen) (collect threads active))
        listed read after
    where
      by_next :
          (result : Json) (threads : List ListedThread) (next : Option String)
          → ((threads : List ListedThread) (c : String)
              → list_pages server looks (page + 1) (some c) (add c seen) (collect threads active)
                ≡ ok found
              → (us : List ListedThread) × Pages server (page + 1) (some c) us
                × (found ≡ collect us (collect threads active)))
          → server.thread_list page cursor ≡ ok result
          → inventory_page result ≡ ok (threads, next)
          → (elim next as (λ _. Result CallError (Dict String (List String))) [
            | none ↦ ok (collect threads active)
            | some c ↦
                elim (contains c seen || cursor == some c)
                  as (λ _. Result CallError (Dict String (List String))) [
                    | true ↦ err (page_error "thread inventory cursor did not progress")
                    | false ↦
                        list_pages server looks
                          (page + 1)
                          (some c)
                          (add c seen)
                          (collect threads active)
                  ]
          ])
            ≡ ok found
          → (ts : List ListedThread) × Pages server page cursor ts × (found ≡ collect ts active)
      by_next result threads none later listed read e =
          (threads, last_page result threads listed read, cc e)
      by_next result threads (some c) later listed read e =
          let (us, pages, found_all) = later threads c (not_stuck _ _ _ e) in
          (
            threads ++ us,
            more_pages result threads c listed read pages,
            found_all ∙ sym (collect-append threads us active),
          )

  inventory_items-threads :
      (looks : ℕ) (by_thread : Dict String SessionRecord) (active : Dict String (List String))
      {items : List ActiveThreadItem}
      → inventory_items server looks by_thread active ≡ ok items
      → item_threads items ≡ keys active
  unfolding inventory_items
  inventory_items-threads zero by_thread [] h = ap item_threads (sym (ok_inj h))
  inventory_items-threads (suc looks) by_thread [] h = ap item_threads (sym (ok_inj h))
  inventory_items-threads zero by_thread (a ∷ active) h = cc
  inventory_items-threads (suc looks) by_thread ((id, flags) ∷ active) {items} h =
      let (turn_id, got, rest) = >>=-eq-ok (inventory_turn_id server id) _ h in
      let (item, made, rest') =
        >>=-eq-ok (as_invalid (inventory_item id (lookup id by_thread) turn_id flags)) _ rest in
      let (more, others, is) = >>=-eq-ok (inventory_items server looks by_thread active) _ rest' in
      let p = inventory_items-threads looks by_thread active others in
      sym (ap item_threads (ok_inj is))
      ∙ (ap (λ k. k ∷ item_threads more)
            (inventory_item-thread id (lookup id by_thread) turn_id flags made)
          ∙ ap (λ ks. id ∷ ks) p)

  -- An inventory that is given holds exactly the threads that are active on one of the pages that
  -- the app server gives, followed from the first to the one without a next cursor, each once.
  pub list_active_threads_complete :
      (list_looks read_looks : ℕ) (records : List SessionRecord) {inventory : ActiveInventory}
      → list_active_threads server list_looks read_looks records ≡ ok inventory
      → (threads : List ListedThread) × Pages server 0 none threads
        × ((id : String) → contains id (item_threads inventory.items) ≡ is_active_in id threads)
        × (all_distinct (item_threads inventory.items) ≡ true)
  unfolding list_active_threads
  list_active_threads_complete list_looks read_looks records {inventory} h =
      let (active, listed, rest) =
        >>=-eq-ok (as_upstream (list_pages server list_looks 0 none [] [])) _ h in
      let (items, read, made) =
        >>=-eq-ok (inventory_items server read_looks (records_by_thread records []) active) _
          rest in
      let (threads, pages, found) =
        list_pages-Pages list_looks 0 none [] [] (as_upstream-ok _ listed) in
      let e : item_threads inventory.items ≡ keys (collect threads []) =
        ap item_threads (sym (active_inventory-items items (as_invalid-ok _ made)))
        ∙ (inventory_items-threads read_looks (records_by_thread records []) active read
            ∙ ap keys found) in
      (
        threads,
        pages,
        λ id. rw e (collect-keys threads [] id),
        rw e (collect-distinct threads [] refl),
      )
