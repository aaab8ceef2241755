-- ===== src/Transport/Correlation.antt =====
-- The queues of the waiting calls of websocket_transport.py, whatever the threads do.
use mathlib.Core.Path.{subst}
use superdev.Base.{
  nat_beq_iff, if◌then◌else◌, string_eq, ◌==◌, nat_eq, pair_eq, option_string_eq, Bool-cases,
  Option-cases, is_some, get_or, contains, discard, contains-discard, contains-add, Dict, lookup,
  lookup-insert, lookup-erase, ℕ, ◌<◌, ◌≡◌, refl, sym, ◌∙◌, ◌≢◌, inl, inr, Bool, true, false, ◌&&◌,
  Option, none, some, List, [], ◌∷◌, arith,
}
use superdev.Json.{get, Json, Fields, natural, negative, null, bool, int, float, text, arr, obj}
use superdev.Gateway.{key_eq}
use superdev.Transport.{require_open, put_nowait, put_all, Answer, CodexConnection, response}
use superdev.Transport.Requests.{register_request, withdraw_request}
use superdev.Transport.Serving.{deliver_response}

abbrev pub is_awaiting : Option (Option Answer) → Bool
is_awaiting (some none) = true
is_awaiting _ = false

-- A request waits exactly as long as it is registered, an answer is that of its request, and a
-- closed connection has no request registered.
pub record IsCorrelated (c : CodexConnection) : Type 0 where
  pub drawn : (id : ℕ) → is_some (lookup id c.queues) ≡ true → id < c.next_id
  pub waiting : (id : ℕ) → contains id c.pending ≡ is_awaiting (lookup id c.queues)
  pub own :
      (id : ℕ) (m : Fields)
      → lookup id c.queues ≡ some (some (response m))
      → get "id" m ≡ int (natural id)
  pub ended : c.closed ≡ true → (id : ℕ) → contains id c.pending ≡ false

-- What a step does: it keeps the queues in order, and a connection that is closed stays closed, with
-- the error that closed it.
pub record Follows (c c' : CodexConnection) : Type 0 where
  pub correlated : IsCorrelated c → IsCorrelated c'
  pub final : c.closed ≡ true → (c'.closed ≡ true) × (c'.close_error ≡ c.close_error)

pub Follows-refl : (c : CodexConnection) → Follows c c
Follows-refl c = record { correlated = λ p. p; final = λ h. (h, refl) }

pub Follows-trans : {c c' c'' : CodexConnection} → Follows c c' → Follows c' c'' → Follows c c''
Follows-trans p q = record {
  correlated = λ i. q.correlated (p.correlated i);
  final = λ h. let (h', e) = p.final h in let (h'', e') = q.final h' in (h'', e' ∙ e);
}

lookup-put_nowait :
    (id j : ℕ) (a : Answer) (q : Dict ℕ (Option Answer))
    → lookup j (get_or (put_nowait id a q) q)
      ≡ (if (id == j) && is_awaiting (lookup id q) then some (some a) else lookup j q)
unfolding put_nowait
lookup-put_nowait id j a q = elim (Option-cases (lookup id q)) [
  | inl e ↦ rw (e, put_nowait) (ground arith)
  | inr (some b, e) ↦ rw (e, put_nowait) (ground arith)
  | inr (none, e) ↦ rw (e, put_nowait) (ground (arith, lookup-insert id j (some a) q))
]

pub lookup-put_all :
    (ids : List ℕ) (j : ℕ) (a : Answer) (q : Dict ℕ (Option Answer))
    → lookup j (put_all ids a q)
      ≡ (if contains j ids && is_awaiting (lookup j q) then some (some a) else lookup j q)
unfolding put_all
lookup-put_all [] j a q = refl
lookup-put_all (id ∷ ids) j a q = ground (
  arith,
  lookup-put_all ids j a (get_or (put_nowait id a q) q),
  lookup-put_nowait id j a q,
  nat_beq_iff id j,
  nat_beq_iff j id,
)

pub require_open-closed : (c : CodexConnection) → c.closed ≡ true → require_open c ≢ none
unfolding require_open
require_open-closed c h = rw h (λ e. cc)

pub register_request-Follows : (c : CodexConnection) → Follows c (register_request c).0
unfolding register_request
register_request-Follows c = elim (Option-cases (require_open c)) [
  | inl e ↦
      rw (e, register_request)
        (record {
          correlated = λ p. record {
            drawn = λ j h. ground (
              arith,
              lookup-insert c.next_id j none c.queues,
              p.drawn j,
              nat_beq_iff c.next_id j,
            );
            waiting = λ j. ground (
              arith,
              lookup-insert c.next_id j none c.queues,
              contains-add c.next_id j c.pending,
              p.waiting j,
              nat_beq_iff c.next_id j,
              nat_beq_iff j c.next_id,
            );
            own = λ j m h. ground (arith, lookup-insert c.next_id j none c.queues, p.own j m);
            ended = λ h j.
                let contra : require_open c ≢ none = require_open-closed c h in absurd (contra e);
          };
          final = λ h. (h, refl);
        })
  | inr (error, e) ↦
      rw (e, register_request)
        (record {
          correlated = λ p. record {
            drawn = λ j h. omega (arith, p.drawn j h);
            waiting = p.waiting;
            own = p.own;
            ended = p.ended;
          };
          final = λ h. (h, refl);
        })
]

pub withdraw_request-Follows : (id : ℕ) (c : CodexConnection) → Follows c (withdraw_request id c)
unfolding withdraw_request
withdraw_request-Follows id c = record {
  correlated = λ p. record {
    drawn = λ j h. ground (arith, lookup-erase id j c.queues, p.drawn j);
    waiting = λ j.
        ground (arith, lookup-erase id j c.queues, contains-discard id j c.pending, p.waiting j);
    own = λ j m h. ground (arith, lookup-erase id j c.queues, p.own j m);
    ended = λ h j. ground (arith, contains-discard id j c.pending, p.ended h j);
  };
  final = λ h. (h, refl);
}

pub awaiting-some : (o : Option (Option Answer)) → is_awaiting o ≡ true → is_some o ≡ true
awaiting-some (some none) h = refl
awaiting-some (some (some a)) h = cc
awaiting-some none h = cc

-- An answer given to a registered request.
module _ (id : ℕ) (message : Fields) (names : get "id" message ≡ int (natural id))
    (c : CodexConnection) (queues : Dict ℕ (Option Answer))
    (put : put_nowait id (response message) c.queues ≡ some queues) where
  answered :
      (j : ℕ)
      → lookup j queues ≡ (
          if (id == j) && is_awaiting (lookup id c.queues)
          then some (some (response message))
          else lookup j c.queues)
  answered j =
      subst
        (λ o. lookup j (get_or o c.queues) ≡ (
          if (id == j) && is_awaiting (lookup id c.queues)
          then some (some (response message))
          else lookup j c.queues))
        put (lookup-put_nowait id j (response message) c.queues)

  answered-IsCorrelated :
      IsCorrelated c → IsCorrelated (record c { pending = discard id c.pending; queues = queues })
  answered-IsCorrelated p = record {
    drawn = λ j h.
        ground (arith, answered j, p.drawn j, nat_beq_iff id j, awaiting-some (lookup id c.queues));
    waiting = λ j.
        ground (arith, answered j, contains-discard id j c.pending, p.waiting j, nat_beq_iff id j);
    own = λ j m h. ground (arith, names, answered j, p.own j m, nat_beq_iff id j);
    ended = λ h j. ground (arith, contains-discard id j c.pending, p.ended h j);
  }

put_nowait-waiting :
    (id : ℕ) (a : Answer) (q : Dict ℕ (Option Answer))
    → is_awaiting (lookup id q) ≡ true
    → put_nowait id a q ≢ none
unfolding put_nowait
put_nowait-waiting id a q h = elim (Option-cases (lookup id q)) [
  | inl e ↦ cc
  | inr (some b, e) ↦ cc
  | inr (none, e) ↦ rw (e, put_nowait) (λ x. cc)
]

pub deliver_response-Follows :
    (message : Fields) (c : CodexConnection) → Follows c (deliver_response message c).0
unfolding deliver_response
deliver_response-Follows message c = by_id (get "id" message) refl
  where
    by_id : (v : Json) → get "id" message ≡ v → Follows c (deliver_response message c).0
    by_id (int (natural id)) e = elim (Bool-cases (contains id c.pending)) [
      | inr gone ↦ rw (e, gone, deliver_response) (Follows-refl c)
      | inl there ↦ elim (Option-cases (put_nowait id (response message) c.queues)) [
        | inl full ↦
            rw (e, there, full, deliver_response)
              (record {
                correlated = λ p. absurd (
                    put_nowait-waiting id (response message) c.queues (sym (p.waiting id) ∙ there)
                      full);
                final = λ h. (h, refl);
              })
        | inr (queues, put) ↦
            rw (e, there, put, deliver_response)
              (record {
                correlated = answered-IsCorrelated id message e c queues put;
                final = λ h. (h, refl);
              })
      ]
    ]
    by_id (int (negative n)) e = rw (e, deliver_response) (Follows-refl c)
    by_id null e = rw (e, deliver_response) (Follows-refl c)
    by_id (bool b) e = rw (e, deliver_response) (Follows-refl c)
    by_id (float f) e = rw (e, deliver_response) (Follows-refl c)
    by_id (text t) e = rw (e, deliver_response) (Follows-refl c)
    by_id (arr vs) e = rw (e, deliver_response) (Follows-refl c)
    by_id (obj fs) e = rw (e, deliver_response) (Follows-refl c)
