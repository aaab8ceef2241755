-- ===== src/Transport/Tests.antt =====
-- websocket_transport.py on concrete messages.
use superdev.Base.{
  if◌then◌else◌, string_eq, ◌==◌, nat_eq, pair_eq, option_string_eq, get_or, length, contains,
  Result, ok, err, lookup, ℕ, ◌+◌, ◌≤◌, String, ◌≡◌, refl, true, false, none, some, List, [], ◌∷◌,
  arith,
}
use superdev.Json.{get, Fields, natural, int, text, arr, obj, nil, done, field}
use superdev.Callbacks.{are_strict_fields}
use superdev.Gateway.{key_eq, request_key}
use superdev.Gateway.Bridges.{Frame}
use superdev.Transport.{
  new_connection, typed_details, call_error, transport_error, put_nowait, put_all, transmit, close,
  CallError, Answer, CodexConnection, ConnectionDeps, response, failed,
}
use superdev.Transport.Requests.{
  request, register_request, withdraw_request, begin_call, read_answer, end_call,
}
use superdev.Transport.Serving.{fail_receive, receive, approval_round}
use superdev.Transport.Calling.{idempotent_read_methods, call, call-IsBounded, Attempts, IsBounded}
use superdev.Transport.Threads.{
  Steps, registers, transmits, receives, loses, closes, stay, then_step,
}
use superdev.Transport.Answers.{end_call-own, end_call-closed, closed_final}

abbrev quiet : ConnectionDeps
quiet = record {
  frame_bytes = λ m. 100;
  send_raises = λ m. none;
  observer_raises = λ m. false;
  text_of = λ v. "value";
  approval_handler = none;
}

abbrev model : Fields
model = field "data" (arr nil) done

abbrev models_response : Fields
models_response = field "id" (int (natural 1)) (field "result" (obj model) done)

abbrev frame_of : Fields → Frame
frame_of message = record { is_text = true; size = 40; parsed = some (obj message) }

abbrev asked : CodexConnection
asked = (transmit quiet (request "model/list" 1 done) (register_request new_connection).0).0

abbrev answered : CodexConnection
answered = receive quiet (frame_of models_response) asked

answered-Steps : Steps quiet new_connection answered
answered-Steps = then_step (registers new_connection) (
    then_step (transmits (request "model/list" 1 done) (register_request new_connection).0)
      (then_step (receives (frame_of models_response) asked) stay))

end_call-own_example :
    (m : Fields) × (lookup 1 answered.queues ≡ some (some (response m)))
    × (get "id" m ≡ int (natural 1))
    × (get "result" m ≡ obj model)
unfolding end_call receive request_key transmit are_strict_fields register_request put_nowait
end_call-own_example = end_call-own quiet 1 "model/list" answered-Steps refl

-- The socket ends while the call waits.
abbrev lost : CodexConnection
lost = fail_receive quiet "ConnectionClosedError" asked

lost-Steps : Steps quiet asked lost
lost-Steps = then_step (loses "ConnectionClosedError" asked) stay

all_lost-Steps : Steps quiet new_connection lost
all_lost-Steps = then_step (registers new_connection) (
    then_step (transmits (request "model/list" 1 done) (register_request new_connection).0)
      lost-Steps)

end_call-closed_example :
    (a : Answer) × (some (failed (get_or lost.close_error (call_error "" "" none))) ≡ some a)
    × ((end_call quiet 1 "model/list" lost).1 ≡ read_answer quiet.text_of "model/list" a)
unfolding fail_receive transmit register_request are_strict_fields put_all put_nowait
end_call-closed_example = end_call-closed quiet 1 "model/list" _ all_lost-Steps refl refl

abbrev loss : CallError
loss = transport_error (typed_details "Codex WebSocket receive failed" "ConnectionClosedError")

-- The frontend closes, and another thread hands its frame to the socket all the same.
abbrev sent_late : CodexConnection
sent_late = (transmit quiet (request "model/list" 2 done) (close quiet lost)).0

closed_final_example :
    (sent_late.closed ≡ true)
    × (sent_late.close_error ≡ some loss)
    × (contains 1 sent_late.pending ≡ false)
    × (begin_call quiet (λ c. c) "model/list" done sent_late
        ≡ (record sent_late { next_id = sent_late.next_id + 1 }, err loss))
unfolding fail_receive transmit register_request are_strict_fields
closed_final_example =
    closed_final quiet loss (λ c. c) "model/list" done 1 all_lost-Steps refl refl
      (then_step (closes lost)
        (then_step (transmits (request "model/list" 2 done) (close quiet lost)) stay))

-- A read that is refused twice, and then answered.
abbrev busy : CallError
busy = call_error "upstream_busy" "thread/read" none

abbrev third_time : ℕ → ℕ × Result CallError Fields
third_time n = (n + 1, if n == 2 then ok model else err busy)

no_jitter : (n : ℕ) → 0 ≤ 0
no_jitter n = omega arith

call-IsBounded_example :
    (a : Attempts ℕ) × (call third_time (λ n. 0) "thread/read" 0 ≡ ok a)
    × IsBounded (if contains "thread/read" idempotent_read_methods then 2 else 0) 0 a
    × (contains "thread/read" idempotent_read_methods ≡ false → length a.outcomes ≡ 1)
call-IsBounded_example = call-IsBounded third_time (λ n. 0) 0 no_jitter "thread/read" 0 refl

abbrev delays_of : Result String (Attempts ℕ) → List ℕ
delays_of (ok a) = a.delays
delays_of (err why) = []

read_retried : delays_of (call third_time (λ n. 0) "thread/read" 0) ≡ 500 ∷ 1000 ∷ []
unfolding call
read_retried = refl

start_not_retried : delays_of (call third_time (λ n. 0) "turn/start" 0) ≡ []
unfolding call
start_not_retried = refl

-- A response that comes after the timeout is dropped.
late_response : (receive quiet (frame_of models_response) (withdraw_request 1 asked)).queues ≡ []
unfolding receive withdraw_request transmit register_request request_key are_strict_fields
late_response = refl

abbrev approval : Fields
approval = field "id" (text "a") (field "method" (text "item/permissions/requestApproval") done)

permission_declined :
    length
      (approval_round quiet
        (λ c. c)
        (receive quiet (frame_of approval) new_connection)).0.notifications
    ≡ 1
unfolding receive approval_round request_key are_strict_fields
permission_declined = refl
