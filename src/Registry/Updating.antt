-- ===== src/Registry/Updating.antt =====
-- registry.py: `update_annotations` changes no identity.
use mathlib.Core.Path.{subst}
use superdev.Base.{
  ◌==◌, nat_eq, string_eq, pair_eq, option_string_eq, Bool-cases, Option-cases, keep, any, contains,
  all_distinct, Result-cases, ok_inj, ok, String, ◌≡◌, refl, sym, ap, ◌∙◌, inl, inr, true, false,
  Option, none, some, List, [], ◌∷◌, arith, eq_iff,
}
use superdev.Models.{SessionRecord, IdentifierSelector, session_selector}
use superdev.Registry.{
  is_empty, names_of, session_ids, thread_ids, are_unique, selects, only_match, try_resolve,
  resolve, replace_by, update_annotations,
}
use superdev.Registry.Identity.{keep-absent_session, are_unique-parts}

abbrev pub SameIdentities : List SessionRecord → List SessionRecord → Type 0
SameIdentities rs qs =
    (session_ids rs ≡ session_ids qs)
    × (thread_ids rs ≡ thread_ids qs)
    × (names_of rs ≡ names_of qs)

replace_by-absent :
    (s : String) (r : SessionRecord) (rs : List SessionRecord)
    → contains s (session_ids rs) ≡ false
    → replace_by s r rs ≡ rs
replace_by-absent s r [] new = refl
replace_by-absent s r (q ∷ rs) new =
    ground (arith, new, replace_by-absent s r rs, eq_iff s q.session_id, eq_iff q.session_id s)

names_of-head :
    (r q : SessionRecord) (rs : List SessionRecord)
    → r.name ≡ q.name
    → names_of (r ∷ rs) ≡ names_of (q ∷ rs)
names_of-head r q rs same =
    ap (λ (n : Option String). elim n [ none ↦ names_of rs | some m ↦ m ∷ names_of rs ]) same

names_of-tail :
    (q : SessionRecord) (rs rs' : List SessionRecord)
    → names_of rs ≡ names_of rs'
    → names_of (q ∷ rs) ≡ names_of (q ∷ rs')
names_of-tail q rs rs' same =
    ap (λ (l : List String). elim q.name [ none ↦ l | some m ↦ m ∷ l ]) same

replace_by-identities :
    (s : String) (r q : SessionRecord) (rs : List SessionRecord)
    → all_distinct (session_ids rs) ≡ true
    → only_match (keep (selects (session_selector s)) rs) ≡ ok (some q)
    → q.session_id ≡ r.session_id
    → q.thread_id ≡ r.thread_id
    → q.name ≡ r.name
    → SameIdentities (replace_by s r rs) rs
replace_by-identities s r q [] u only sid thread name = (refl, refl, refl)
replace_by-identities s r q (p ∷ rs) u only sid thread name =
    let fresh : contains p.session_id (session_ids rs) ≡ false = ground (arith, u) in
    let rest : all_distinct (session_ids rs) ≡ true = ground (arith, u) in
    elim (Bool-cases (p.session_id == s)) [
      | inl here ↦
          let key : p.session_id ≡ s = (eq_iff p.session_id s).0 here in
          let gone : contains s (session_ids rs) ≡ false = rw key at fresh in
          let same : p ≡ q = cc (rw (here, keep-absent_session s rs gone) at only) in
          rw (here, replace_by-absent s r rs gone)
            (
              ap (λ i. i ∷ session_ids rs) (sym sid ∙ ap (λ x. x.session_id) (sym same)),
              ap (λ i. i ∷ thread_ids rs) (sym thread ∙ ap (λ x. x.thread_id) (sym same)),
              names_of-head r p rs (sym name ∙ ap (λ x. x.name) (sym same)),
            )
      | inr there ↦
          let (a, b, c) = replace_by-identities s r q rs rest (rw there at only) sid thread name in
          rw there (
            ap (λ l. p.session_id ∷ l) a,
            ap (λ l. p.thread_id ∷ l) b,
            names_of-tail p (replace_by s r rs) rs c,
          )
    ]

resolve-effect :
    (selector : IdentifierSelector) (rs : List SessionRecord) (q : SessionRecord)
    → resolve selector rs ≡ ok q
    → only_match (keep (selects selector) rs) ≡ ok (some q)
unfolding resolve try_resolve
resolve-effect selector rs q h = elim (Result-cases (only_match (keep (selects selector) rs))) [
  | inr (e, failed) ↦ cc (rw (failed, resolve, try_resolve) at h)
  | inl (o, found) ↦ elim (Option-cases o) [
    | inl nothing ↦ cc (rw (found, nothing, resolve, try_resolve) at h)
    | inr (p, there) ↦
        let same : p ≡ q = cc (rw (found, there, resolve, try_resolve) at h) in
        found ∙ ap (λ x. ok x) there ∙ ap (λ x. ok (some x)) same
  ]
]

-- The annotations of a session change in place: the ids and the names of all the records stay what
-- they were, in their order, and so stay unique.
pub update_annotations-keeps_identities :
    (now session_id : String) (model effort : Option String) (rs rs' : List SessionRecord)
    (r : SessionRecord)
    → are_unique rs ≡ true
    → update_annotations now session_id model effort rs ≡ ok (rs', r)
    → SameIdentities rs' rs × (are_unique rs' ≡ true)
unfolding update_annotations are_unique
update_annotations-keeps_identities now session_id model effort rs rs' r u h =
    elim (Bool-cases (session_id == "")) [
      | inl unnamed ↦ cc (rw (unnamed, update_annotations) at h)
      | inr named ↦ elim (Bool-cases (any is_empty (model ∷ effort ∷ []))) [
        | inl blank ↦ cc (rw (named, blank, update_annotations) at h)
        | inr good ↦ elim (Result-cases (resolve (session_selector session_id) rs)) [
          | inr (e, failed) ↦ cc (rw (named, good, failed, update_annotations) at h)
          | inl (q, found) ↦
              let updated : SessionRecord = record q {
                updated_at = now;
                model = model;
                effort = effort;
              } in
              let made = ok_inj (rw (named, good, found, update_annotations) at h) in
              let same =
                replace_by-identities session_id updated q rs (are_unique-parts rs u).0
                  (resolve-effect (session_selector session_id) rs q found) refl refl refl in
              let same' : SameIdentities rs' rs =
                subst (λ x. SameIdentities x rs) (ap (λ p. p.0) made) same in
              (same', rw (same'.0, same'.1, same'.2) u)
        ]
      ]
    ]
