-- ===== src/Transport/Threads.antt =====
-- The threads of websocket_transport.py as steps of the connection, in any order.
use superdev.Base.{
  ltb, nat_beq_iff, if◌then◌else◌, string_eq, nat_eq, pair_eq, option_string_eq, Option-cases,
  is_some, contains, lookup, erase, lookup-erase, ℕ, String, ◌≡◌, refl, inl, inr, Bool, true, false,
  not, ◌&&◌, ◌||◌, Option, none, some, List, [], ◌∷◌, ◌++◌, arith,
}
use superdev.Json.{get, as_text, Json, Fields, null, bool, int, float, text, arr, obj}
use superdev.Gateway.{key_eq, request_key, has_field, is_jsonrpc_response_envelope}
use superdev.Gateway.Bridges.{max_frame_bytes, Frame}
use superdev.Transport.{
  typed_details, transport_error, emit_notification, fail_transport, transmit, send, close,
  CallError, Answer, CodexConnection, ConnectionDeps,
}
use superdev.Transport.Requests.{register_request, withdraw_request, end_call}
use superdev.Transport.Serving.{
  approval_methods, is_decline, is_other_version, dispatch, fail_receive, receive, answer_object,
  declined_notification, approval_result, handle_server_request, type_name_of, handle_queued,
  approval_round,
}
use superdev.Transport.Correlation.{
  Follows-refl, Follows-trans, register_request-Follows, withdraw_request-Follows,
  deliver_response-Follows, IsCorrelated, Follows,
}
use superdev.Transport.Sections.{
  aside, branch, branch_pair, with_outcome, emit_notification-Follows, fail_transport-Follows,
  transmit-Follows, send-Follows, queue_server_request-Follows, fail_receive-Follows, FollowsTo,
}

taken-IsCorrelated :
    (id : ℕ) (a : Answer) (c : CodexConnection)
    → lookup id c.queues ≡ some (some a)
    → IsCorrelated c
    → IsCorrelated (record c { queues = erase id c.queues })
taken-IsCorrelated id a c e p = record {
  drawn = λ j h. ground (arith, lookup-erase id j c.queues, p.drawn j);
  waiting = λ j. ground (arith, lookup-erase id j c.queues, p.waiting j, nat_beq_iff id j, e);
  own = λ j m h. ground (arith, lookup-erase id j c.queues, p.own j m);
  ended = p.ended;
}

module _ (deps : ConnectionDeps) where
  end_call-Follows :
      (id : ℕ) (method : String) (c : CodexConnection) → Follows c (end_call deps id method c).0
  unfolding end_call
  end_call-Follows id method c = elim (Option-cases (lookup id c.queues)) [
    | inl e ↦ rw (e, end_call) (withdraw_request-Follows id c)
    | inr (none, e) ↦ rw (e, end_call) (withdraw_request-Follows id c)
    | inr (some a, e) ↦
        rw (e, end_call)
          (record { correlated = taken-IsCorrelated id a c e; final = λ h. (h, refl) })
  ]

  dispatch-Follows :
      (message : Fields) (c : CodexConnection) → FollowsTo c (dispatch deps message c)
  unfolding dispatch
  dispatch-Follows message c =
      let has_id = has_field "id" message in
      let is_call = is_some (as_text (get "method" message)) in
      branch_pair (has_id && not (is_some (request_key (get "id" message)))) (λ _. unchanged)
        (λ _.
          branch_pair (is_jsonrpc_response_envelope (obj message))
            (λ _. record { follows = deliver_response-Follows message c })
            (λ _.
              branch_pair (has_id && is_call)
                (λ _.
                  branch_pair
                    (is_other_version message
                      || has_field "result" message
                      || has_field "error" message)
                    (λ _. unchanged)
                    (λ _. with_outcome (queue_server_request-Follows deps message c)))
                (λ _.
                  branch_pair has_id (λ _. unchanged)
                    (λ _.
                      branch_pair is_call
                        (λ _. with_outcome (emit_notification-Follows deps message c))
                        (λ _. unchanged)))))
    where
      unchanged : {type_name : Option String} → FollowsTo c (c, type_name)
      unchanged = with_outcome (Follows-refl c)

  receive-Follows : (frame : Frame) (c : CodexConnection) → Follows c (receive deps frame c)
  unfolding receive
  receive-Follows frame c =
      branch (not frame.is_text || ltb max_frame_bytes frame.size)
        (λ _. fail_receive-Follows deps _ c) (λ _. by_value frame.parsed)
    where
      after :
          (r : CodexConnection × Option String)
          → Follows c r.0
          → Follows c (elim r.1 [ none ↦ r.0 | some type_name ↦ fail_receive deps type_name r.0 ])
      after (c', none) p = p
      after (c', some type_name) p = Follows-trans p (fail_receive-Follows deps type_name c')

      by_value :
          (v : Option Json)
          → Follows c (elim v [
            | some (obj message) ↦
                let dispatched = dispatch deps message c in
                elim dispatched.1 [
                  | none ↦ dispatched.0
                  | some type_name ↦ fail_receive deps type_name dispatched.0
                ]
            | _ ↦ fail_receive deps "ValueError" c
          ])
      by_value (some (obj message)) =
          after (dispatch deps message c) (dispatch-Follows message c).follows
      by_value none = fail_receive-Follows deps _ c
      by_value (some null) = fail_receive-Follows deps _ c
      by_value (some (bool b)) = fail_receive-Follows deps _ c
      by_value (some (int n)) = fail_receive-Follows deps _ c
      by_value (some (float f)) = fail_receive-Follows deps _ c
      by_value (some (text t)) = fail_receive-Follows deps _ c
      by_value (some (arr vs)) = fail_receive-Follows deps _ c

  handle_server_request-Follows :
      (meanwhile : CodexConnection → CodexConnection) (message : Fields) (c : CodexConnection)
      → ((x : CodexConnection) → Follows x (meanwhile x))
      → FollowsTo c (handle_server_request deps meanwhile message c)
  unfolding handle_server_request
  handle_server_request-Follows meanwhile message c others =
      by_method (as_text (get "method" message))
    where
      noting : Bool → CodexConnection
      noting raised =
          if raised
          then record c {
            diagnostics = c.diagnostics ++ ("approval handler raised; request declined" ∷ []);
          }
          else c

      noted : (raised : Bool) → Follows c (noting raised)
      noted raised = branch raised (λ _. aside _ _ _ c) (λ _. Follows-refl c)

      after :
          (method : String) (answer : Fields) (r : CodexConnection × Option CallError)
          → Follows c r.0
          → FollowsTo c (elim r.1 as (λ _. CodexConnection × Option CallError) [
            | some error ↦ (r.0, some error)
            | none ↦
                if contains method approval_methods && is_decline method answer
                then (emit_notification deps (declined_notification method message) r.0, none)
                else (r.0, none)
          ])
      after method answer (c', some error) p = with_outcome p
      after method answer (c', none) p =
          branch_pair (contains method approval_methods && is_decline method answer)
            (λ _. with_outcome (Follows-trans p (emit_notification-Follows deps _ c')))
            (λ _. with_outcome p)

      by_method :
          (m : Option String)
          → FollowsTo c (elim m as (λ _. CodexConnection × Option CallError) [
            | none ↦ (c, none)
            | some method ↦
                let answer = approval_result deps method message in
                let sending =
                  send deps meanwhile
                    (answer_object (get "id" message) answer.0)
                    (noting answer.1) in
                elim sending.1 [
                  | some error ↦ (sending.0, some error)
                  | none ↦
                      if contains method approval_methods && is_decline method answer.0
                      then (
                        emit_notification deps (declined_notification method message) sending.0,
                        none,
                      )
                      else (sending.0, none)
                ]
          ])
      by_method none = with_outcome (Follows-refl c)
      by_method (some method) =
          let answer = approval_result deps method message in
          let reply = answer_object (get "id" message) answer.0 in
          after method answer.0 (send deps meanwhile reply (noting answer.1)) (
            Follows-trans (noted answer.1)
              (send-Follows deps meanwhile reply (noting answer.1) (others _)).follows)

  handle_queued-Follows :
      (meanwhile : CodexConnection → CodexConnection) (message : Option Fields)
      (c : CodexConnection)
      → ((x : CodexConnection) → Follows x (meanwhile x))
      → FollowsTo c (handle_queued deps meanwhile message c)
  unfolding handle_queued
  handle_queued-Follows meanwhile none c others = with_outcome (Follows-refl c)
  handle_queued-Follows meanwhile (some message) c others =
      branch_pair c.closed (λ _. with_outcome (Follows-refl c))
        (λ _.
          after (handle_server_request deps meanwhile message c)
            (handle_server_request-Follows meanwhile message c others).follows)
    where
      after :
          (r : CodexConnection × Option CallError)
          → Follows c r.0
          → FollowsTo c (elim r.1 as (λ _. CodexConnection × Bool) [
            | none ↦ (r.0, true)
            | some error ↦ (
              fail_transport deps
                  (transport_error
                    (typed_details "Codex approval response failed" (type_name_of error)))
                  r.0,
              false,
            )
          ])
      after (c', none) p = with_outcome p
      after (c', some error) p = with_outcome (Follows-trans p (fail_transport-Follows deps _ c'))

  approval_round-Follows :
      (meanwhile : CodexConnection → CodexConnection) (c : CodexConnection)
      → ((x : CodexConnection) → Follows x (meanwhile x))
      → Follows c (approval_round deps meanwhile c).0
  unfolding approval_round
  approval_round-Follows meanwhile c others = by_queue c.approval_queue
    where
      by_queue :
          (q : List (Option Fields))
          → Follows c
              (elim q as (λ _. CodexConnection × Bool) [
                | [] ↦ (c, true)
                | message ∷ rest ↦
                    handle_queued deps meanwhile message (record c { approval_queue = rest })
              ]).0
      by_queue [] = Follows-refl c
      by_queue (message ∷ rest) =
          let taken : CodexConnection = record c { approval_queue = rest } in
          Follows-trans (aside _ _ rest c)
            (handle_queued-Follows meanwhile message taken others).follows

  -- What a thread does in one go: the sections of a call, what a thread hands to the socket, which it
  -- may have found open before others closed it, a frame of the reader, the end of the connection.
  pub data Step : CodexConnection → CodexConnection → Type 0 where
    registers : (c : CodexConnection) → Step c (register_request c).0
    transmits : (message : Fields) (c : CodexConnection) → Step c (transmit deps message c).0
    withdraws : (id : ℕ) (c : CodexConnection) → Step c (withdraw_request id c)
    ends_call :
        (id : ℕ) (method : String) (c : CodexConnection) → Step c (end_call deps id method c).0
    receives : (frame : Frame) (c : CodexConnection) → Step c (receive deps frame c)
    loses : (type_name : String) (c : CodexConnection) → Step c (fail_receive deps type_name c)
    closes : (c : CodexConnection) → Step c (close deps c)

  -- The threads in any order; while the approval thread sends its answer, the others take steps.
  pub data Steps : CodexConnection → CodexConnection → Type 0 where
    stay : {c : CodexConnection} → Steps c c
    then_step : {c c' c'' : CodexConnection} → Step c c' → Steps c' c'' → Steps c c''
    then_approval :
        {c c' : CodexConnection} (meanwhile : CodexConnection → CodexConnection)
        → ((x : CodexConnection) → Steps x (meanwhile x))
        → Steps (approval_round deps meanwhile c).0 c'
        → Steps c c'

  Step-Follows : {c c' : CodexConnection} → Step c c' → Follows c c'
  unfolding close
  Step-Follows (registers c) = register_request-Follows c
  Step-Follows (transmits message c) = (transmit-Follows deps message c).follows
  Step-Follows (withdraws id c) = withdraw_request-Follows id c
  Step-Follows (ends_call id method c) = end_call-Follows id method c
  Step-Follows (receives frame c) = receive-Follows frame c
  Step-Follows (loses type_name c) = fail_receive-Follows deps type_name c
  Step-Follows (closes c) = fail_transport-Follows deps _ c

  pub Steps-Follows : {c c' : CodexConnection} → Steps c c' → Follows c c'
  Steps-Follows {c} stay = Follows-refl c
  Steps-Follows (then_step first rest) = Follows-trans (Step-Follows first) (Steps-Follows rest)
  Steps-Follows {c} (then_approval meanwhile others rest) =
      Follows-trans (approval_round-Follows meanwhile c (λ x. Steps-Follows (others x)))
        (Steps-Follows rest)
