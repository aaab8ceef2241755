-- ===== src/Broker/Reserving.antt =====
-- What the start of a turn in broker.py leaves behind.
use mathlib.Core.Path.{subst}
use superdev.Base.{
  if◌then◌else◌, string_eq, ◌==◌, nat_eq, pair_eq, option_string_eq, Bool-cases, Option-cases,
  is_some, if_both, Result-cases, Result, ok, err, lookup, lookup-insert_self, String, ◌≡◌, refl,
  sym, ◌∙◌, ◌⊎◌, inl, inr, false, not, ◌&&◌, ◌||◌, Option, some,
}
use superdev.Models.{SessionRecord}
use superdev.Transport.{CallError}
use superdev.Runtime.{find_session, put_session, RuntimeError, SessionRuntime, RuntimeStore}
use superdev.Runtime.Starts.{reserve_start, cancelled, cancel_start, bind_start, reconcile_start}
use superdev.Broker.Starting.{
  validate_model_effort, start_turn, give_up, answer_start, model_id, StartError, ModelInfo,
  StartHost, codex_failed, runtime_failed,
}

-- No start of the session is reserved any more.
pub record IsReleased (r : SessionRuntime) : Type 0 where
  pub not_pending : r.start_pending ≡ false
  pub not_awaited : r.awaiting_start_response ≡ false

abbrev pub AreReleased : String → RuntimeStore → Type 0
AreReleased k s = (r : SessionRuntime) → lookup k s.sessions ≡ some r → IsReleased r

put_session-AreReleased :
    (k : String) (r : SessionRuntime) (s : RuntimeStore)
    → IsReleased r
    → AreReleased k (put_session k r s)
put_session-AreReleased k r s p r' h =
    let e : ◌≡◌ {A = Option SessionRuntime} (some r) (some r') =
      sym (lookup-insert_self k r s.sessions) ∙ h in
    let same : r ≡ r' = cc e in subst (λ q. IsReleased q) same p

bind_start-IsReleased :
    (returned : String) (r : SessionRuntime)
    → (bind_start returned r).1 ≡ ok tt
    → IsReleased (bind_start returned r).0
unfolding bind_start
bind_start-IsReleased returned r =
    let P : SessionRuntime × Result RuntimeError (Unit {0}) → Type 0 =
      λ p. p.1 ≡ ok tt → IsReleased p.0 in
    if_both P (not r.awaiting_start_response) (λ h. cc)
      (if_both P (is_some r.observed_start_turn_id)
        (if_both P (r.observed_start_turn_id == some returned)
          (λ h. record { not_pending = refl; not_awaited = refl })
          (λ h. record { not_pending = refl; not_awaited = refl }))
        (if_both P (is_some r.active_turn_id && not (r.active_turn_id == some returned))
          (λ h. record { not_pending = refl; not_awaited = refl })
          (λ h. record { not_pending = refl; not_awaited = refl })))

give_up-AreReleased :
    (k : String) (error : StartError) (s : RuntimeStore) → AreReleased k (give_up k error s).0
unfolding give_up cancel_start find_session
give_up-AreReleased k error s = elim (Option-cases (lookup k s.sessions)) [
  | inl gone ↦ rw (gone, give_up, cancel_start, find_session) (λ r h. cc (gone, h))
  | inr (r, there) ↦
      rw (there, give_up, cancel_start, find_session)
        (put_session-AreReleased k (cancelled r) s
          (record { not_pending = refl; not_awaited = refl }))
]

reconcile_start-AreReleased :
    (k returned : String) (s : RuntimeStore)
    → (reconcile_start k returned s).1 ≡ ok tt
    → AreReleased k (reconcile_start k returned s).0
unfolding reconcile_start
reconcile_start-AreReleased k returned s h = elim (Result-cases (find_session k s)) [
  | inr (e, gone) ↦ cc (rw (gone, reconcile_start) at h)
  | inl (r, there) ↦ elim (Bool-cases (returned == "")) [
    | inl blank ↦ cc (rw (there, blank, reconcile_start) at h)
    | inr named ↦
        rw (there, named, reconcile_start)
          (put_session-AreReleased k (bind_start returned r).0 s
            (bind_start-IsReleased returned r (rw (there, named, reconcile_start) at h)))
  ]
]

answer_start-AreReleased :
    (k : String) (answer : Result CallError String) (s : RuntimeStore)
    → AreReleased k (answer_start k answer s).0
unfolding answer_start
answer_start-AreReleased k (err error) s = give_up-AreReleased k (codex_failed error) s
answer_start-AreReleased k (ok turn_id) s = elim (Result-cases (reconcile_start k turn_id s).1) [
  | inl (done_, e) ↦ rw (e, answer_start) (reconcile_start-AreReleased k turn_id s e)
  | inr (error, e) ↦
      rw (e, answer_start)
        (give_up-AreReleased k (runtime_failed error) (reconcile_start k turn_id s).0)
]

-- However the start of a turn ends, whatever the other threads do meanwhile and whatever the app
-- server answers: either the runtime is as it was and nothing was reserved, or no start of the
-- session is reserved any more.
pub start_turn-releases :
    (host : StartHost) (session : SessionRecord) (prompt : String) (model effort : Option String)
    (s : RuntimeStore)
    → ((start_turn host session prompt model effort s).0 ≡ s)
      ⊎ AreReleased session.session_id (start_turn host session prompt model effort s).0
unfolding start_turn
start_turn-releases host session prompt model effort s =
    let P : RuntimeStore × Result StartError String → Type 0 =
      λ p. (p.0 ≡ s) ⊎ AreReleased session.session_id p.0 in
    if_both P (prompt == "") (inl refl) (
      by_model
        (validate_model_effort host.list_models
          (if is_some model || not (is_some effort) then model else session.model) effort)
        (reserve_start session.session_id s))
  where
    by_model :
        (selected : Result StartError (Option ModelInfo))
        → (made : Result RuntimeError RuntimeStore)
        → let outcome : RuntimeStore × Result StartError String =
            elim selected as (λ _. RuntimeStore × Result StartError String) [
              | err error ↦ (s, err error)
              | ok selected ↦ elim made as (λ _. RuntimeStore × Result StartError String) [
                | err e ↦ (s, err (runtime_failed e))
                | ok s' ↦
                    answer_start session.session_id
                      (host.start_turn (if is_some effort then model_id selected else model) effort)
                      (host.meanwhile s')
              ]
            ] in
          (outcome.0 ≡ s) ⊎ AreReleased session.session_id outcome.0
    by_model (err error) made = inl refl
    by_model (ok selected) (err e) = inl refl
    by_model (ok selected) (ok s') = inr (
        answer_start-AreReleased session.session_id
          (host.start_turn (if is_some effort then model_id selected else model) effort)
          (host.meanwhile s'))
