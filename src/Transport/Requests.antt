-- ===== src/Transport/Requests.antt =====
-- websocket_transport.py: `_call_once`, from its registration to its answer.
use superdev.Base.{
  string_eq, nat_eq, pair_eq, option_string_eq, discard, add, Result, ok, err, lookup, insert,
  erase, ℕ, ◌+◌, String, none, some,
}
use superdev.Json.{get_field, get, as_object, Json, Fields, natural, int, text, obj, done, field}
use superdev.Transport.{
  fault_details, call_error, from_response, require_open, send, CallError, Answer, CodexConnection,
  ConnectionDeps, response, failed,
}

abbrev pub request : String → ℕ → Fields → Fields
request method id params =
    field "method" (text method) (field "id" (int (natural id)) (field "params" (obj params) done))

-- The first section of `_call_once`, with the id that it draws
unfoldable pub register_request : CodexConnection → CodexConnection × Result CallError ℕ
unfolding require_open
register_request c =
    let id = c.next_id in
    let drawn = record c { next_id = id + 1 } in
    elim (require_open c) [
      | some error ↦ (drawn, err error)
      | none ↦
          (record drawn { pending = add id c.pending; queues = insert id none c.queues }, ok id)
    ]

-- `self._pending.pop(request_id, None)` where the call ends without an answer
unfoldable pub withdraw_request : ℕ → CodexConnection → CodexConnection
withdraw_request id c = record c { pending = discard id c.pending; queues = erase id c.queues }

-- `_call_once` until it waits: the id of the request, or what it raises; `meanwhile` is what the
-- other threads do while it sends.
unfoldable pub begin_call :
    ConnectionDeps
    → (CodexConnection → CodexConnection)
    → String
    → Fields
    → CodexConnection
    → CodexConnection × Result CallError ℕ
unfolding register_request send withdraw_request
begin_call deps meanwhile method params c =
    let registered = register_request c in
    elim registered.1 [
      | err error ↦ (registered.0, err error)
      | ok id ↦
          let sending = send deps meanwhile (request method id params) registered.0 in
          elim sending.1 [
            | none ↦ (sending.0, ok id)
            | some error ↦ (withdraw_request id sending.0, err error)
          ]
    ]

-- What the call makes of its answer
unfoldable pub read_answer : (Json → String) → String → Answer → Result CallError Fields
unfolding from_response
read_answer text_of method (failed error) = err error
read_answer text_of method (response message) = elim (get_field "error" message) [
  | some error ↦ err (from_response text_of method error)
  | none ↦ elim (as_object (get "result" message)) [
    | some result ↦ ok result
    | none ↦
        err (call_error "protocol_error" method (some (fault_details "result must be an object")))
  ]
]

-- The end of the wait: with the answer in its queue, or at its timeout when the queue is empty
unfoldable pub end_call :
    ConnectionDeps → ℕ → String → CodexConnection → CodexConnection × Result CallError Fields
unfolding withdraw_request read_answer
end_call deps id method c = elim (lookup id c.queues) [
  | some (some answer) ↦
      (record c { queues = erase id c.queues }, read_answer deps.text_of method answer)
  | _ ↦ (withdraw_request id c, err (call_error "timeout" method none))
]
