-- ===== src/Transport/Serving.antt =====
-- websocket_transport.py: what the reader does with a frame, and the approval thread with a request
-- of the server.
use superdev.Base.{
  ltb, if◌then◌else◌, string_eq, ◌==◌, nat_eq, pair_eq, option_string_eq, is_some, get_or, contains,
  discard, ◌^◌, String, Bool, true, false, not, ◌&&◌, ◌||◌, Option, none, some, List, [], ◌∷◌, ◌++◌,
}
use superdev.Json.{
  get, as_text, as_object, Json, Fields, natural, negative, null, bool, int, float, text, arr, obj,
  nil, cons, done, field,
}
use superdev.Gateway.{key_eq, request_key, has_field, is_jsonrpc_response_envelope}
use superdev.Gateway.Bridges.{max_frame_bytes, Frame}
use superdev.Transport.{
  fault_details, typed_details, transport_error, emit_notification, put_nowait, has_room,
  fail_transport, send, CallError, CodexConnection, ConnectionDeps, response,
}

abbrev pub approval_methods : List String
approval_methods =
    "item/commandExecution/requestApproval" ∷ "item/fileChange/requestApproval"
    ∷ "item/tool/requestUserInput" ∷ "item/permissions/requestApproval" ∷ []

abbrev pub is_decision_method : String → Bool
is_decision_method method =
    method == "item/commandExecution/requestApproval" || method == "item/fileChange/requestApproval"

unfoldable pub default_approval_response : String → Fields
default_approval_response method =
    if is_decision_method method
    then field "decision" (text "decline") done
    else if method == "item/tool/requestUserInput"
    then field "answers" (obj done) done
    else if method == "item/permissions/requestApproval"
    then field "permissions" (obj done) done
    else done

-- `not value`; a float that is zero, of either sign, is false
abbrev pub is_falsy : Json → Bool
is_falsy null = true
is_falsy (bool b) = not b
is_falsy (int (natural n)) = n == 0
is_falsy (int (negative n)) = false
is_falsy (float bits) = bits == 0 || bits == 2 ^ 63
is_falsy (text s) = s == ""
is_falsy (arr nil) = true
is_falsy (arr (cons v vs)) = false
is_falsy (obj done) = true
is_falsy (obj (field k v fs)) = false

unfoldable pub is_decline : String → Fields → Bool
is_decline method result =
    if is_decision_method method
    then elim (as_text (get "decision" result)) [
      | none ↦ false
      | some decision ↦ decision == "decline" || decision == "cancel"
    ]
    else if method == "item/tool/requestUserInput"
    then is_falsy (get "answers" result)
    else if method == "item/permissions/requestApproval"
    then is_falsy (get "permissions" result)
    else true

-- `_queue_server_request`
unfoldable pub queue_server_request : ConnectionDeps → Fields → CodexConnection → CodexConnection
unfolding fail_transport
queue_server_request deps message c =
    if has_room c.approval_queue
    then record c { approval_queue = c.approval_queue ++ (some message ∷ []) }
    else fail_transport deps (transport_error (fault_details "Codex approval queue exceeded limit"))
        c

-- The branch of `_dispatch` for a response; it raises when the queue is full already.
unfoldable pub deliver_response : Fields → CodexConnection → CodexConnection × Option String
deliver_response message c = elim (get "id" message) [
  | int (natural id) ↦
      if not (contains id c.pending)
      then (c, none)
      else let taken = record c { pending = discard id c.pending } in
        elim (put_nowait id (response message) c.queues) [
          | some queues ↦ (record taken { queues = queues }, none)
          | none ↦ (taken, some "Full")
        ]
  | _ ↦ (c, none)
]

abbrev pub is_other_version : Fields → Bool
is_other_version message =
    has_field "jsonrpc" message && not (as_text (get "jsonrpc" message) == some "2.0")

-- `_dispatch`: the type of what it raises
unfoldable pub dispatch :
    ConnectionDeps → Fields → CodexConnection → CodexConnection × Option String
unfolding deliver_response queue_server_request emit_notification is_jsonrpc_response_envelope
dispatch deps message c =
    let is_call = is_some (as_text (get "method" message)) in
    if has_field "id" message && not (is_some (request_key (get "id" message)))
    then (c, some "ValueError")
    else if is_jsonrpc_response_envelope (obj message)
    then deliver_response message c
    else if has_field "id" message && is_call
    then if is_other_version message || has_field "result" message || has_field "error" message
      then (c, some "ValueError")
      else (queue_server_request deps message c, none)
    else if has_field "id" message
    then (c, some "ValueError")
    else if is_call
    then (emit_notification deps message c, none)
    else (c, none)

-- The handler at the end of `_read_loop`; another connection may have taken its place.
unfoldable pub fail_receive : ConnectionDeps → String → CodexConnection → CodexConnection
unfolding fail_transport
fail_receive deps type_name c =
    if not c.connected
    then c
    else fail_transport deps
        (transport_error (typed_details "Codex WebSocket receive failed" type_name)) c

-- One round of `_read_loop`
unfoldable pub receive : ConnectionDeps → Frame → CodexConnection → CodexConnection
unfolding dispatch fail_receive
receive deps frame c =
    if not frame.is_text || ltb max_frame_bytes frame.size
    then fail_receive deps "ValueError" c
    else elim frame.parsed [
      | some (obj message) ↦
          let dispatched = dispatch deps message c in
          elim dispatched.1 [
            | none ↦ dispatched.0
            | some type_name ↦ fail_receive deps type_name dispatched.0
          ]
      | _ ↦ fail_receive deps "ValueError" c
    ]

abbrev pub answer_object : Json → Fields → Fields
answer_object id result = field "id" id (field "result" (obj result) done)

abbrev pub declined_notification : String → Fields → Fields
declined_notification method message =
    let params = get_or (as_object (get "params" message)) done in
    field "method" (text "approval/declined") (
      field "params"
        (obj (
          field "threadId" (get "threadId" params) (
            field "turnId" (get "turnId" params) (
              field "requestId" (get "id" message)
                (field "approvalMethod" (text method) (field "decision" (text "decline") done))))))
        done)

-- The result that a request is answered with, and whether the handler raised
unfoldable pub approval_result : ConnectionDeps → String → Fields → Fields × Bool
unfolding default_approval_response
approval_result deps method message = elim deps.approval_handler [
  | none ↦ (default_approval_response method, false)
  | some handler ↦ elim (handler message) [
    | none ↦ (default_approval_response method, true)
    | some (obj result) ↦ (result, false)
    | some _ ↦ (default_approval_response method, false)
  ]
]

-- `_handle_server_request`: what it raises; `meanwhile` is what the other threads do while it sends.
unfoldable pub handle_server_request :
    ConnectionDeps
    → (CodexConnection → CodexConnection)
    → Fields
    → CodexConnection
    → CodexConnection × Option CallError
unfolding approval_result send emit_notification is_decline
handle_server_request deps meanwhile message c = elim (as_text (get "method" message)) [
  | none ↦ (c, none)
  | some method ↦
      let answer = approval_result deps method message in
      let noted =
        if answer.1
        then record c {
          diagnostics = c.diagnostics ++ ("approval handler raised; request declined" ∷ []);
        }
        else c in
      let sending = send deps meanwhile (answer_object (get "id" message) answer.0) noted in
      elim sending.1 [
        | some error ↦ (sending.0, some error)
        | none ↦
            if contains method approval_methods && is_decline method answer.0
            then (emit_notification deps (declined_notification method message) sending.0, none)
            else (sending.0, none)
      ]
]

abbrev pub type_name_of : CallError → String
type_name_of error =
    if error.kind == "transport_error" then "CodexTransportError" else "CodexCallError"

-- `_approval_loop` once it has got a message: whether it goes on
unfoldable pub handle_queued :
    ConnectionDeps
    → (CodexConnection → CodexConnection)
    → Option Fields
    → CodexConnection
    → CodexConnection × Bool
unfolding handle_server_request fail_transport
handle_queued deps meanwhile none c = (c, false)
handle_queued deps meanwhile (some message) c =
    if c.closed
    then (c, false)
    else let handled = handle_server_request deps meanwhile message c in
      elim handled.1 [
        | none ↦ (handled.0, true)
        | some error ↦ (
          fail_transport deps
              (transport_error
                (typed_details "Codex approval response failed" (type_name_of error)))
              handled.0,
          false,
        )
      ]

-- One round of `_approval_loop`; nothing happens while the queue is empty.
unfoldable pub approval_round :
    ConnectionDeps → (CodexConnection → CodexConnection) → CodexConnection → CodexConnection × Bool
unfolding handle_queued
approval_round deps meanwhile c = elim c.approval_queue [
  | [] ↦ (c, true)
  | message ∷ rest ↦ handle_queued deps meanwhile message (record c { approval_queue = rest })
]
