-- ===== src/Runtime/Owners.antt =====
-- No operation on a session changes whose session it is.
use superdev.Base.{
  ◌==◌, nat_eq, string_eq, pair_eq, option_string_eq, Option-cases, if_both, contains, ok, ℕ,
  String, ◌≡◌, refl, ◌∙◌, inl, inr, Bool, not, ◌&&◌, Option, none, some, arith,
}
use superdev.Json.{get, as_text, Json, Fields}
use superdev.Models.{ErrorDetail, ItemRecord, TurnSnapshot}
use superdev.Runtime.{
  trim_terminals, mark_terminal_published, retain_terminal, append_event, settle_terminal,
  SessionRuntime,
}
use superdev.Runtime.Starts.{reserved, reserve, bind_start}
use superdev.Runtime.Notify.{detach_session}
use superdev.Runtime.Turns.{
  turn_started, finish_active, complete_turn, is_current_turn, collect_item, item_of, record_item,
  item_completed, approval_declined,
}
use superdev.Runtime.Reconcile.{reconcile_session}

module _ (limit : ℕ) (r : SessionRuntime) where
  session-append_event :
      (event : String) (turn_id : Option String) (item : Option ItemRecord)
      (error : Option ErrorDetail)
      → (append_event limit event turn_id item error r).session ≡ r.session
  unfolding append_event
  session-append_event event turn_id item error = refl

  session-mark_terminal_published :
      (t : String) → (mark_terminal_published limit t r).0.session ≡ r.session
  unfolding mark_terminal_published
  session-mark_terminal_published t = ground arith

  session-retain_terminal :
      (t : TurnSnapshot) (publishing : Bool)
      → (retain_terminal limit t publishing r).session ≡ r.session
  unfolding retain_terminal trim_terminals
  session-retain_terminal t publishing = refl

  pub session-settle_terminal : (t : String) → (settle_terminal limit t r).session ≡ r.session
  unfolding settle_terminal trim_terminals
  session-settle_terminal t = refl

  session-collect_item :
      (t : Option String) (item : ItemRecord) → (collect_item t item r).session ≡ r.session
  unfolding collect_item
  session-collect_item none item = refl
  session-collect_item (some t) item =
      if_both (λ (u : SessionRuntime). u.session ≡ r.session) (is_current_turn t r) refl refl

module _ (limit : ℕ) (r : SessionRuntime) where
  pub session-bind_start : (t : String) → (bind_start t r).0.session ≡ r.session
  unfolding bind_start
  session-bind_start t = ground arith

  pub session-reserve : {r' : SessionRuntime} → reserve r ≡ ok r' → r'.session ≡ r.session
  unfolding reserve
  session-reserve {r'} h = let e : r' ≡ reserved r = ground arith in rw e refl

  pub session-turn_started : (t : String) → (turn_started limit t r).session ≡ r.session
  unfolding turn_started append_event
  session-turn_started t =
      if_both (λ (u : SessionRuntime). u.session ≡ r.session)
        (contains t r.published_terminal_ids && not r.awaiting_start_response) refl refl

  pub session-complete_turn :
      (t status : String) (error : Option ErrorDetail)
      → (complete_turn limit t status error r).0.session ≡ r.session
  unfolding complete_turn
  session-complete_turn t status error =
      if_both (λ (u : SessionRuntime × Option TurnSnapshot). u.0.session ≡ r.session)
        (contains t r.published_terminal_ids && not (r.active_turn_id == some t)) refl
        (session-append_event limit _ "turn_completed" (some t) none error
          ∙ session-retain_terminal limit _ _ _
          ∙ session-mark_terminal_published limit _ t
          ∙ (unfold finish_active in refl))

  session-record_item :
      (t : Option String) (i : Option ItemRecord) → (record_item limit t i r).session ≡ r.session
  unfolding record_item
  session-record_item t none = refl
  session-record_item t (some i) =
      session-append_event limit (collect_item t i r) "item_completed" t (some i) none
      ∙ session-collect_item limit r t i

  pub session-item_completed :
      (params : Fields) → (item_completed limit params r).session ≡ r.session
  unfolding item_completed
  session-item_completed params =
      session-record_item (as_text (get "turnId" params)) (item_of params)

  pub session-approval_declined :
      (str : Json → String) (params : Fields)
      → (approval_declined str limit params r).session ≡ r.session
  unfolding approval_declined append_event
  session-approval_declined str params = refl

  pub session-detach_session :
      (reason : ErrorDetail) → (detach_session limit reason r).0.session ≡ r.session
  unfolding detach_session append_event retain_terminal trim_terminals
  session-detach_session reason = elim (Option-cases r.active_turn_id) [
    | inl idle ↦ rw (idle, detach_session)
    | inr (t, lost) ↦ rw (lost, detach_session)
  ]

  pub session-reconcile_session :
      (active terminal : Option TurnSnapshot)
      → (reconcile_session limit active terminal r).0.session ≡ r.session
  unfolding reconcile_session
  session-reconcile_session none none = refl
  session-reconcile_session (some t) none = refl
  session-reconcile_session none (some t) =
      session-retain_terminal limit _ _ _ ∙ session-mark_terminal_published limit _ t.turn_id
  session-reconcile_session (some u) (some t) =
      session-retain_terminal limit _ _ _ ∙ session-mark_terminal_published limit _ t.turn_id
