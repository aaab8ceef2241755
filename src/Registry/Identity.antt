-- ===== src/Registry/Identity.antt =====
-- registry.py: the ids and the names stay unique, so that a lookup is never ambiguous.
use superdev.Base.{
  ◌==◌, nat_eq, string_eq, pair_eq, option_string_eq, Bool-cases, Option-cases, keep, any, contains,
  all_distinct, contains-append, ok, String, ◌≡◌, refl, ap, inl, inr, true, false, not, ◌&&◌,
  Option, none, some, List, [], ◌∷◌, ◌++◌, arith, eq_iff,
}
use superdev.Models.{SessionRecord, IdentifierSelector, session_selector, thread_selector}
use superdev.Registry.{
  names_of, session_ids, thread_ids, are_unique, selects, only_match, try_resolve, clashes,
  Creation,
}

pub all_distinct-append :
    (x : String) (xs : List String)
    → all_distinct (xs ++ (x ∷ [])) ≡ (all_distinct xs && not (contains x xs))
all_distinct-append x [] = refl
all_distinct-append x (y ∷ ys) =
    ground (arith, all_distinct-append x ys, contains-append y ys (x ∷ []), eq_iff x y, eq_iff y x)

pub session_ids-append :
    (rs : List SessionRecord) (r : SessionRecord)
    → session_ids (rs ++ (r ∷ [])) ≡ session_ids rs ++ (r.session_id ∷ [])
session_ids-append [] r = refl
session_ids-append (q ∷ rs) r = ap (λ l. q.session_id ∷ l) (session_ids-append rs r)

pub thread_ids-append :
    (rs : List SessionRecord) (r : SessionRecord)
    → thread_ids (rs ++ (r ∷ [])) ≡ thread_ids rs ++ (r.thread_id ∷ [])
thread_ids-append [] r = refl
thread_ids-append (q ∷ rs) r = ap (λ l. q.thread_id ∷ l) (thread_ids-append rs r)

abbrev pub name_list : Option String → List String
name_list none = []
name_list (some n) = n ∷ []

pub names_of-append :
    (rs : List SessionRecord) (r : SessionRecord)
    → names_of (rs ++ (r ∷ [])) ≡ names_of rs ++ name_list r.name
names_of-append [] r = elim (Option-cases r.name) [
  | inl unnamed ↦ rw unnamed refl
  | inr (n, named) ↦ rw named refl
]
names_of-append (q ∷ rs) r = elim (Option-cases q.name) [
  | inl unnamed ↦ rw unnamed (names_of-append rs r)
  | inr (n, named) ↦ rw named (ap (λ l. n ∷ l) (names_of-append rs r))
]

-- A record that clashes with none has new ids and a new name.
pub clashes-new :
    (sid : String) (c : Creation) (rs : List SessionRecord)
    → any (clashes sid c) rs ≡ false
    → (contains sid (session_ids rs) ≡ false) × (contains c.thread_id (thread_ids rs) ≡ false)
clashes-new sid c [] h = (refl, refl)
clashes-new sid c (r ∷ rs) h =
    let here : clashes sid c r ≡ false = ground (arith, h) in
    let rest : any (clashes sid c) rs ≡ false = ground (arith, h) in
    let (a, b) = clashes-new sid c rs rest in
    (
      ground (arith, here, a, eq_iff sid r.session_id, eq_iff r.session_id sid),
      ground (arith, here, b, eq_iff c.thread_id r.thread_id, eq_iff r.thread_id c.thread_id),
    )

pub clashes-new_name :
    (sid n : String) (c : Creation) (rs : List SessionRecord)
    → c.name ≡ some n
    → any (clashes sid c) rs ≡ false
    → contains n (names_of rs) ≡ false
clashes-new_name sid n c [] named h = refl
clashes-new_name sid n c (r ∷ rs) named h =
    let here : clashes sid c r ≡ false = ground (arith, h) in
    let rest : any (clashes sid c) rs ≡ false = ground (arith, h) in
    let new = clashes-new_name sid n c rs named rest in
    elim (Option-cases r.name) [
      | inl unnamed ↦ rw unnamed new
      | inr (m, has) ↦ rw has (ground (arith, new, rw (named, has) at here, eq_iff n m, eq_iff m n))
    ]

-- With distinct session ids, a selector finds one record at most.
pub keep-absent_session :
    (s : String) (rs : List SessionRecord)
    → contains s (session_ids rs) ≡ false
    → keep (selects (session_selector s)) rs ≡ []
keep-absent_session s [] h = refl
keep-absent_session s (r ∷ rs) h =
    ground (arith, h, keep-absent_session s rs, eq_iff s r.session_id, eq_iff r.session_id s)

keep-one_session :
    (s : String) (rs : List SessionRecord)
    → all_distinct (session_ids rs) ≡ true
    → (o : Option SessionRecord) × (only_match (keep (selects (session_selector s)) rs) ≡ ok o)
keep-one_session s [] h = (none, refl)
keep-one_session s (r ∷ rs) h =
    let fresh : contains r.session_id (session_ids rs) ≡ false = ground (arith, h) in
    let rest : all_distinct (session_ids rs) ≡ true = ground (arith, h) in
    elim (Bool-cases (r.session_id == s)) [
      | inl here ↦
          let key : r.session_id ≡ s = (eq_iff r.session_id s).0 here in
          (some r, rw (here, keep-absent_session s rs (rw key at fresh)) refl)
      | inr there ↦ rw there (keep-one_session s rs rest)
    ]

pub keep-absent_thread :
    (t : String) (rs : List SessionRecord)
    → contains t (thread_ids rs) ≡ false
    → keep (selects (thread_selector t)) rs ≡ []
keep-absent_thread t [] h = refl
keep-absent_thread t (r ∷ rs) h =
    ground (arith, h, keep-absent_thread t rs, eq_iff t r.thread_id, eq_iff r.thread_id t)

keep-one_thread :
    (t : String) (rs : List SessionRecord)
    → all_distinct (thread_ids rs) ≡ true
    → (o : Option SessionRecord) × (only_match (keep (selects (thread_selector t)) rs) ≡ ok o)
keep-one_thread t [] h = (none, refl)
keep-one_thread t (r ∷ rs) h =
    let fresh : contains r.thread_id (thread_ids rs) ≡ false = ground (arith, h) in
    let rest : all_distinct (thread_ids rs) ≡ true = ground (arith, h) in
    elim (Bool-cases (r.thread_id == t)) [
      | inl here ↦
          let key : r.thread_id ≡ t = (eq_iff r.thread_id t).0 here in
          (some r, rw (here, keep-absent_thread t rs (rw key at fresh)) refl)
      | inr there ↦ rw there (keep-one_thread t rs rest)
    ]

pub are_unique-parts :
    (rs : List SessionRecord)
    → are_unique rs ≡ true
    → (all_distinct (session_ids rs) ≡ true)
      × (all_distinct (thread_ids rs) ≡ true)
      × (all_distinct (names_of rs) ≡ true)
unfolding are_unique
are_unique-parts rs h = ground (arith, h)

-- In a registry whose ids are unique no identifier is ambiguous: a lookup by session or by thread
-- returns, with a record or with none.
pub try_resolve-returns :
    (selector : IdentifierSelector) (rs : List SessionRecord)
    → are_unique rs ≡ true
    → (o : Option SessionRecord) × (try_resolve selector rs ≡ ok o)
unfolding try_resolve
try_resolve-returns (session_selector s) rs u = keep-one_session s rs (are_unique-parts rs u).0
try_resolve-returns (thread_selector t) rs u = keep-one_thread t rs (are_unique-parts rs u).1
