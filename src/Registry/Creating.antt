-- ===== src/Registry/Creating.antt =====
-- registry.py: what `create` and `update_annotations` do to the identities.
use mathlib.Core.Path.{subst}
use mathlib.Core.List.{append-nil}
use superdev.Base.{
  nat_eq, string_eq, pair_eq, option_string_eq, Bool-cases, Option-cases, keep, any, contains,
  all_distinct, >>=-eq-ok, ok_inj, ok, String, ◌≡◌, refl, sym, ap, ◌∙◌, inl, inr, true, false, List,
  [], ◌∷◌, ◌++◌, arith, eq_iff,
}
use superdev.Models.{SessionRecord, session_selector, thread_selector}
use superdev.Registry.{
  names_of, session_ids, thread_ids, are_unique, selects, try_resolve, resolve, clashes,
  check_creation, created_record, create, Host, Creation,
}
use superdev.Registry.Identity.{
  all_distinct-append, session_ids-append, thread_ids-append, names_of-append, clashes-new,
  clashes-new_name, are_unique-parts,
}

create-effect :
    (host : Host) (fresh now : String) (c : Creation) (rs rs' : List SessionRecord)
    (r : SessionRecord)
    → create host fresh now c rs ≡ ok (rs', r)
    → (any (clashes r.session_id c) rs ≡ false)
      × (rs' ≡ rs ++ (r ∷ []))
      × (r.thread_id ≡ c.thread_id)
      × (r.name ≡ c.name)
unfolding create
create-effect host fresh now c rs rs' r h =
    let ((cwd, sid), checked, stored) = >>=-eq-ok (check_creation host fresh c) _ h in
    elim (Bool-cases (any (clashes sid c) rs)) [
      | inl clash ↦ cc (rw clash at stored)
      | inr new ↦
          let made = ok_inj (rw new at stored) in
          let same : created_record sid cwd now c ≡ r = ap (λ p. p.1) made in
          (
            subst (λ x. any (clashes x.session_id c) rs ≡ false) same new,
            sym (ap (λ p. p.0) made) ∙ ap (λ x. rs ++ (x ∷ [])) same,
            sym (ap (λ x. x.thread_id) same),
            sym (ap (λ x. x.name) same),
          )
    ]

find-new_session :
    (rs : List SessionRecord) (r : SessionRecord)
    → contains r.session_id (session_ids rs) ≡ false
    → keep (selects (session_selector r.session_id)) (rs ++ (r ∷ [])) ≡ r ∷ []
find-new_session [] r new = let self = (eq_iff r.session_id r.session_id).1 refl in rw self refl
find-new_session (q ∷ rs) r new = ground (
  arith,
  new,
  find-new_session rs r,
  eq_iff r.session_id q.session_id,
  eq_iff q.session_id r.session_id,
)

find-new_thread :
    (rs : List SessionRecord) (r : SessionRecord)
    → contains r.thread_id (thread_ids rs) ≡ false
    → keep (selects (thread_selector r.thread_id)) (rs ++ (r ∷ [])) ≡ r ∷ []
find-new_thread [] r new = let self = (eq_iff r.thread_id r.thread_id).1 refl in rw self refl
find-new_thread (q ∷ rs) r new = ground (
  arith,
  new,
  find-new_thread rs r,
  eq_iff r.thread_id q.thread_id,
  eq_iff q.thread_id r.thread_id,
)

new_names-distinct :
    (c : Creation) (rs : List SessionRecord) (r : SessionRecord)
    → any (clashes r.session_id c) rs ≡ false
    → r.name ≡ c.name
    → all_distinct (names_of rs) ≡ true
    → all_distinct (names_of (rs ++ (r ∷ []))) ≡ true
new_names-distinct c rs r new same u = elim (Option-cases r.name) [
  | inl unnamed ↦ rw (names_of-append rs r, unnamed, append-nil (names_of rs)) u
  | inr (n, named) ↦
      let fresh = clashes-new_name r.session_id n c rs (sym same ∙ named) new in
      rw (names_of-append rs r, named, all_distinct-append n (names_of rs), u, fresh) refl
]

-- A new worker gets new identities: the session ids, the thread ids and the names of all records
-- stay unique, and the record is found again under its session and under its thread.
pub create-keeps_unique :
    (host : Host) (fresh now : String) (c : Creation) (rs rs' : List SessionRecord)
    (r : SessionRecord)
    → are_unique rs ≡ true
    → create host fresh now c rs ≡ ok (rs', r)
    → (are_unique rs' ≡ true)
      × (resolve (session_selector r.session_id) rs' ≡ ok r)
      × (resolve (thread_selector r.thread_id) rs' ≡ ok r)
unfolding are_unique resolve try_resolve
create-keeps_unique host fresh now c rs rs' r u h =
    let (new, grown, thread, name) = create-effect host fresh now c rs rs' r h in
    let (us, ut, un) = are_unique-parts rs u in
    let (new_s, new_c) = clashes-new r.session_id c rs new in
    let new_t : contains r.thread_id (thread_ids rs) ≡ false = rw thread new_c in
    rw grown (
      rw
          (
            session_ids-append rs r,
            thread_ids-append rs r,
            all_distinct-append r.session_id (session_ids rs),
            all_distinct-append r.thread_id (thread_ids rs),
            us,
            ut,
            new_s,
            new_t,
            new_names-distinct c rs r new name un,
          )
          refl,
      rw (find-new_session rs r new_s) refl,
      rw (find-new_thread rs r new_t) refl,
    )
