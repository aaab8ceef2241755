-- ===== src/Gateway/Pumps.antt =====
-- The whole call of the frontend pump, and the end of a bridge.
use superdev.Base.{
  ltb, string_eq, ◌==◌, nat_eq, pair_eq, option_string_eq, Bool-cases, Option-cases, is_some,
  length-append, contains, ok, lookup, insert, lookup-insert_self, ℕ, String, ◌≡◌, refl, ap, ◌∙◌,
  inl, inr, Bool, true, false, not, ◌&&◌, ◌||◌, Option, none, some, List, [], ◌∷◌, ◌++◌, arith,
}
use superdev.Json.{get, Json, Fields, null, bool, int, float, text, arr, obj}
use superdev.Gateway.{
  key_eq, request_key, has_field, nonempty_text, classify_frontend_frame, FrameClass,
  response_frame, allowed_frame, blocked_frame,
}
use superdev.Gateway.Bridges.{
  release, contexts, close_pending, exit_contexts, close_bridge, max_frame_bytes, refuse, sent_as,
  Bridge, GatewaySystem, Frame,
}
use superdev.Gateway.Forward.{
  forward_read, forward_mutation, is_taken, forward_request, forward_object, forward_frontend,
}
use superdev.Gateway.Accounting.{Accounted, in_tables-insert, exit_context-Accounted}
use superdev.Gateway.Settling.{
  release-head, contains-head, Settles, forward_read-Settles, forward_mutation-Settles,
}

nonempty_text-named :
    (v : Json) {method : String} → nonempty_text v ≡ some method → (method == "") ≡ false
nonempty_text-named (text s) h = ground (arith, h)
nonempty_text-named null h = cc
nonempty_text-named (bool b) h = cc
nonempty_text-named (int n) h = cc
nonempty_text-named (float n) h = cc
nonempty_text-named (arr vs) h = cc
nonempty_text-named (obj fs) h = cc

module _ (sends : Bool) (id : ℕ) (b : Bridge) (s : GatewaySystem)
    (found : lookup id s.bridges ≡ some b) (a : Accounted s) where
  forward_request-Settles :
      (fs : Fields) (class : FrameClass) (method : String)
      → (method == "") ≡ false
      → Settles s s.held (forward_request sends id fs class method s)
  unfolding forward_request
  forward_request-Settles fs class method named =
      let key = request_key (get "id" fs) in
      elim (Bool-cases (is_taken id key s)) [
        | inl taken_already ↦ rw (taken_already, forward_request) (_, refl, a, refl)
        | inr free ↦ rw (free, forward_request) (by_class class free)
      ]
    where
      by_class :
          (c : FrameClass)
          → is_taken id (request_key (get "id" fs)) s ≡ false
          → Settles s s.held (elim c [
            | allowed_frame ↦ ok (forward_read sends id (request_key (get "id" fs)) s)
            | response_frame ↦ ok (sent_as sends s)
            | blocked_frame ↦
                forward_mutation sends id (get "id" fs) (request_key (get "id" fs)) method s
          ])
      by_class response_frame free = (_, refl, a, refl)
      by_class allowed_frame free =
          forward_read-Settles sends id (request_key (get "id" fs)) b s found free a
      by_class blocked_frame free =
          forward_mutation-Settles sends id (get "id" fs) (request_key (get "id" fs)) method b s
            named found free a

  forward_method-Settles :
      (fs : Fields) (class : FrameClass)
      → Settles s s.held (elim (nonempty_text (get "method" fs)) [
        | none ↦ ok (refuse (get "id" fs) s)
        | some method ↦ forward_request sends id fs class method s
      ])
  forward_method-Settles fs class = elim (Option-cases (nonempty_text (get "method" fs))) [
    | inl missing ↦ rw missing (_, refl, a, refl)
    | inr (method, named) ↦
        rw named
          (forward_request-Settles fs class method (nonempty_text-named (get "method" fs) named))
  ]

  forward_object-Settles : (fs : Fields) → Settles s s.held (forward_object sends id fs s)
  unfolding forward_object
  forward_object-Settles fs =
      elim (Bool-cases (has_field "id" fs && not (is_some (request_key (get "id" fs))))) [
        | inl bad ↦ rw (bad, forward_object) (_, refl, a, refl)
        | inr good ↦ rw (good, forward_object) (by_class (classify_frontend_frame (obj fs)))
      ]
    where
      by_class :
          (c : FrameClass)
          → Settles s s.held (elim c [
            | response_frame ↦ ok (sent_as sends s)
            | class ↦ elim (nonempty_text (get "method" fs)) [
              | none ↦ ok (refuse (get "id" fs) s)
              | some method ↦ forward_request sends id fs class method s
            ]
          ])
      by_class response_frame = (_, refl, a, refl)
      by_class allowed_frame = forward_method-Settles fs allowed_frame
      by_class blocked_frame = forward_method-Settles fs blocked_frame

  -- A frame from the frontend of a bridge, on any branch, while the count is exact, whether the app server takes it or not: the call ends
  -- without the assertion on the count, the count is exact, and no context is left behind.
  pub forward_frontend-Settles :
      (frame : Frame) → Settles s s.held (forward_frontend sends id frame s)
  unfolding forward_frontend
  forward_frontend-Settles frame =
      elim (Bool-cases (not frame.is_text || ltb max_frame_bytes frame.size)) [
        | inl bad ↦ rw (bad, forward_frontend) (_, refl, a, refl)
        | inr good ↦ rw (good, forward_frontend) (by_value frame.parsed)
      ]
    where
      by_value :
          (v : Option Json)
          → Settles s s.held
              (elim v [ some (obj fs) ↦ forward_object sends id fs s | _ ↦ ok (refuse null s) ])
      by_value none = (_, refl, a, refl)
      by_value (some (obj fs)) = forward_object-Settles fs
      by_value (some null) = (_, refl, a, refl)
      by_value (some (bool x)) = (_, refl, a, refl)
      by_value (some (int n)) = (_, refl, a, refl)
      by_value (some (float n)) = (_, refl, a, refl)
      by_value (some (text t)) = (_, refl, a, refl)
      by_value (some (arr vs)) = (_, refl, a, refl)

exit_contexts-Accounted :
    (ns held : List ℕ) (s : GatewaySystem)
    → s.held ≡ ns ++ held
    → Accounted s
    → (s' : GatewaySystem) × (exit_contexts ns s ≡ ok s')
      × Accounted s'
      × (s'.held ≡ held)
      × (s'.bridges ≡ s.bridges)
unfolding exit_contexts
exit_contexts-Accounted [] held s top a = (s, refl, a, top, refl)
exit_contexts-Accounted (n ∷ ns) held s top a =
    let mine : contains n s.held ≡ true = rw top (contains-head n (ns ++ held)) in
    let (s₁, exits, counted, left, same) = exit_context-Accounted n s mine a in
    let top₁ = left ∙ ap (λ l. release n l) top ∙ release-head n (ns ++ held) in
    let (s₂, rest, counted', left', same') = exit_contexts-Accounted ns held s₁ top₁ counted in
    (s₂, rw (exits, exit_contexts) rest, counted', left', same' ∙ same)

-- While the count is exact, closing an open bridge settles all its requests: the contexts that it waited for exit, the count is
-- exact, and its table is empty afterwards.
pub close_bridge-Settles :
    (id : ℕ) (b : Bridge) (s : GatewaySystem)
    → lookup id s.bridges ≡ some b
    → b.closed ≡ false
    → Accounted s
    → (s' : GatewaySystem) × (close_bridge id s ≡ ok s')
      × Accounted s'
      × (s'.held ≡ s.held)
      × (lookup id s'.bridges ≡ some (record { pending = []; closed = true }))
unfolding close_bridge close_pending
close_bridge-Settles id b s found live a =
    let ns = contexts b.pending in
    let gone : Bridge = record { pending = []; closed = true } in
    let s₁ : GatewaySystem = record s { bridges = insert id gone s.bridges; held = ns ++ s.held } in
    let moved : Accounted s₁ =
      omega (arith, a, in_tables-insert id b gone s.bridges found, length-append ns s.held) in
    let (s', exits, counted, left, same) = exit_contexts-Accounted ns s.held s₁ refl moved in
    (
      s',
      rw (found, live, close_bridge, close_pending) exits,
      counted,
      left,
      ap (λ d. lookup id d) same ∙ lookup-insert_self id gone s.bridges,
    )
