-- ===== src/Transport/Answers.antt =====
-- What a caller of websocket_transport.py gets, whatever the other threads have done.
use superdev.Base.{
  string_eq, nat_eq, pair_eq, option_string_eq, contains, Result, ok, err, lookup, erase, ℕ, ◌+◌,
  String, ◌≡◌, refl, sym, ◌∙◌, true, false, Option, none, some,
}
use superdev.Json.{
  get_field, get, as_object, Json, Fields, natural, null, bool, int, float, text, arr, obj,
}
use superdev.Transport.{
  new_connection, fault_details, call_error, from_response, require_open, CallError, Answer,
  CodexConnection, ConnectionDeps, response, failed,
}
use superdev.Transport.Requests.{
  register_request, withdraw_request, begin_call, read_answer, end_call,
}
use superdev.Transport.Correlation.{is_awaiting, IsCorrelated}
use superdev.Transport.Threads.{Steps-Follows, Steps}

new_connection-IsCorrelated : IsCorrelated new_connection
new_connection-IsCorrelated = record {
  drawn = λ id h. cc;
  waiting = λ id. refl;
  own = λ id m h. cc;
  ended = λ h id. refl;
}

module _ (deps : ConnectionDeps) where
  reached-IsCorrelated : {c : CodexConnection} → Steps deps new_connection c → IsCorrelated c
  reached-IsCorrelated steps = (Steps-Follows deps steps).correlated new_connection-IsCorrelated

  read_answer-ok :
      (method : String) (a : Answer) {result : Fields}
      → read_answer deps.text_of method a ≡ ok result
      → (m : Fields) × (a ≡ response m) × (get "result" m ≡ obj result)
  unfolding read_answer
  read_answer-ok method (failed error) h = cc
  read_answer-ok method (response m) {result} h = (m, refl, by_error (get_field "error" m) h)
    where
      by_result :
          (v : Json)
          → (elim (as_object v) as (λ _. Result CallError Fields) [
            | some r ↦ ok r
            | none ↦ err (
                call_error "protocol_error" method
                  (some (fault_details "result must be an object")))
          ])
            ≡ ok result
          → v ≡ obj result
      by_result (obj fs) e = cc
      by_result null e = cc
      by_result (bool b) e = cc
      by_result (int n) e = cc
      by_result (float f) e = cc
      by_result (text t) e = cc
      by_result (arr vs) e = cc

      by_error :
          (error : Option Json)
          → (elim error as (λ _. Result CallError Fields) [
            | some error ↦ err (from_response deps.text_of method error)
            | none ↦ elim (as_object (get "result" m)) as (λ _. Result CallError Fields) [
              | some r ↦ ok r
              | none ↦ err (
                  call_error "protocol_error" method
                    (some (fault_details "result must be an object")))
            ]
          ])
            ≡ ok result
          → get "result" m ≡ obj result
      by_error (some error) e = cc
      by_error none e = by_result (get "result" m) e

  -- A call that returns gives the result of a response of the server that carries the id of its own
  -- request, whatever the threads of the connection have done and in whatever order.
  pub end_call-own :
      {c : CodexConnection} (id : ℕ) (method : String) {result : Fields}
      → Steps deps new_connection c
      → (end_call deps id method c).1 ≡ ok result
      → (m : Fields) × (lookup id c.queues ≡ some (some (response m)))
        × (get "id" m ≡ int (natural id))
        × (get "result" m ≡ obj result)
  unfolding end_call
  end_call-own {c} id method {result} steps h = by_queue (lookup id c.queues) refl h
    where
      by_queue :
          (q : Option (Option Answer))
          → lookup id c.queues ≡ q
          → (elim q as (λ _. CodexConnection × Result CallError Fields) [
            | some (some answer) ↦
                (record c { queues = erase id c.queues }, read_answer deps.text_of method answer)
            | _ ↦ (withdraw_request id c, err (call_error "timeout" method none))
          ]).1
            ≡ ok result
          → (m : Fields) × (lookup id c.queues ≡ some (some (response m)))
            × (get "id" m ≡ int (natural id))
            × (get "result" m ≡ obj result)
      by_queue none e returned = cc
      by_queue (some none) e returned = cc
      by_queue (some (some a)) e returned =
          let (m, answer, result_of) = read_answer-ok method a returned in
          let found : lookup id c.queues ≡ some (some (response m)) = rw (← answer) e in
          (m, found, (reached-IsCorrelated steps).own id m found, result_of)

  -- When the connection is closed, no call is left waiting for its timeout: the queue of every call
  -- that has not ended holds an answer, and the call ends with it.
  pub end_call-closed :
      {c : CodexConnection} (id : ℕ) (method : String) (q : Option Answer)
      → Steps deps new_connection c
      → c.closed ≡ true
      → lookup id c.queues ≡ some q
      → (a : Answer) × (q ≡ some a)
        × ((end_call deps id method c).1 ≡ read_answer deps.text_of method a)
  unfolding end_call
  end_call-closed {c} id method (some a) steps closed e = (a, refl, rw (e, end_call) refl)
  end_call-closed {c} id method none steps closed e =
      let p = reached-IsCorrelated steps in
      let gone : is_awaiting (lookup id c.queues) ≡ false =
        sym (p.waiting id) ∙ p.ended closed id in
      let there : is_awaiting (lookup id c.queues) ≡ true = rw e refl in absurd (cc (gone, there))

  -- A call on a connection that is closed ends with the error that closed it.
  begin_call-closed :
      (meanwhile : CodexConnection → CodexConnection) (method : String) (params : Fields)
      (error : CallError) (c : CodexConnection)
      → c.closed ≡ true
      → c.close_error ≡ some error
      → begin_call deps meanwhile method params c
        ≡ (record c { next_id = c.next_id + 1 }, err error)
  unfolding begin_call register_request require_open
  begin_call-closed meanwhile method params error c closed why = rw (closed, why) refl

  -- Once a connection has closed with an error, and whatever its threads still do: it stays closed
  -- with that error, no request stays registered, and every later call ends at once with that error,
  -- before it sends anything, and registers nothing.
  pub closed_final :
      {c c' : CodexConnection} (error : CallError) (meanwhile : CodexConnection → CodexConnection)
      (method : String) (params : Fields) (id : ℕ)
      → Steps deps new_connection c
      → c.closed ≡ true
      → c.close_error ≡ some error
      → Steps deps c c'
      → (c'.closed ≡ true)
        × (c'.close_error ≡ some error)
        × (contains id c'.pending ≡ false)
        × (begin_call deps meanwhile method params c'
            ≡ (record c' { next_id = c'.next_id + 1 }, err error))
  closed_final {c} {c'} error meanwhile method params id before closed why after =
      let follows = Steps-Follows deps after in
      let (closed', same) = follows.final closed in
      let p = follows.correlated (reached-IsCorrelated before) in
      (
        closed',
        same ∙ why,
        p.ended closed' id,
        begin_call-closed meanwhile method params error c' closed' (same ∙ why),
      )
