-- ===== src/Gateway/Forward.antt =====
-- websocket_gateway.py: `_forward_frontend`, and what `_pump_backend` does with one frame. A pump's
-- call is given as the sections that it runs, one after another.
use superdev.Base.{
  ltb, if◌then◌else◌, nat_eq, string_eq, pair_eq, option_string_eq, is_some, ◌>>=◌, Result, ok, err,
  lookup, ℕ, String, Bool, true, false, not, ◌&&◌, ◌||◌, Option, none, some, [], ◌∷◌,
}
use superdev.Json.{get, Json, Fields, negative, null, obj}
use superdev.Gateway.{
  key_eq, request_key, has_field, nonempty_text, classify_frontend_frame, RequestKey, FrameClass,
  GateError, response_frame, allowed_frame, blocked_frame, service_busy,
}
use superdev.Gateway.Bridges.{
  pending_of, enter_context, exit_context, register, take_pending, withdraw, max_frame_bytes,
  fault_frame, refuse, sent_as, PendingRequest, GatewaySystem, Frame, Outcome, read_pending,
  mutation_pending,
}

-- The branch of an allowed frame: a read is registered before it is sent.
unfoldable pub forward_read : Bool → ℕ → Option RequestKey → GatewaySystem → Outcome
forward_read sends id none s = sent_as sends s
forward_read sends id (some key) s =
    let s₁ = register id key read_pending s in
    if sends then sent_as true s₁ else sent_as false (withdraw id key read_pending s₁).0

-- The end of the call for a mutation that has been entered.
unfoldable pub finish_mutation :
    Bool → ℕ → Option RequestKey → ℕ → GatewaySystem → Result GateError Outcome
finish_mutation sends id none n s = exit_context n s >>= λ s'. ok (sent_as sends s')
finish_mutation sends id (some key) n s =
    let s₁ = register id key (mutation_pending n) s in
    let (s₂, retained) = withdraw id key (mutation_pending n) s₁ in
    if sends
    then ok (sent_as true s₁)
    else if retained
    then (exit_context n s₂ >>= λ s₃. ok (sent_as false s₃))
    else ok (sent_as false s₂)

-- The branch of a blocked frame: it enters the gate, or is answered that the service is busy.
unfoldable pub forward_mutation :
    Bool → ℕ → Json → Option RequestKey → String → GatewaySystem → Result GateError Outcome
forward_mutation sends id request_id key method s = elim (enter_context method s) [
  | ok (s', n) ↦ finish_mutation sends id key n s'
  | err (service_busy m) ↦ ok (record {
    system = s;
    replies = fault_frame request_id "service_busy" (negative 32039) (some m) ∷ [];
    forwarded = false;
    raised = false;
  })
  | err e ↦ err e
]

abbrev pub is_taken : ℕ → Option RequestKey → GatewaySystem → Bool
is_taken id none s = false
is_taken id (some key) s = is_some (lookup key (pending_of id s))

-- A request, once its method is known.
unfoldable pub forward_request :
    Bool → ℕ → Fields → FrameClass → String → GatewaySystem → Result GateError Outcome
forward_request sends id fs class method s =
    let key = request_key (get "id" fs) in
    if is_taken id key s then ok (refuse (get "id" fs) s) else elim class [
      | allowed_frame ↦ ok (forward_read sends id key s)
      | response_frame ↦ ok (sent_as sends s)
      | blocked_frame ↦ forward_mutation sends id (get "id" fs) key method s
    ]

-- An object: a frame with an id that is no key is refused, and a response goes through.
unfoldable pub forward_object : Bool → ℕ → Fields → GatewaySystem → Result GateError Outcome
forward_object sends id fs s =
    if has_field "id" fs && not (is_some (request_key (get "id" fs)))
    then ok (refuse null s)
    else elim (classify_frontend_frame (obj fs)) [
      | response_frame ↦ ok (sent_as sends s)
      | class ↦ elim (nonempty_text (get "method" fs)) [
        | none ↦ ok (refuse (get "id" fs) s)
        | some method ↦ forward_request sends id fs class method s
      ]
    ]

-- `_forward_frontend`; `sends` is whether the app server's connection takes the frame
unfoldable pub forward_frontend : Bool → ℕ → Frame → GatewaySystem → Result GateError Outcome
forward_frontend sends id frame s =
    if not frame.is_text || ltb max_frame_bytes frame.size
    then ok (refuse null s)
    else elim frame.parsed [ some (obj fs) ↦ forward_object sends id fs s | _ ↦ ok (refuse null s) ]

abbrev pub exit_taken : Option PendingRequest → GatewaySystem → Result GateError GatewaySystem
exit_taken (some (mutation_pending n)) s = exit_context n s
exit_taken _ s = ok s

-- `value.get("id")`
abbrev pub id_of : Json → Json
id_of (obj fs) = get "id" fs
id_of _ = null

-- The part of `_pump_backend` that settles a response.
unfoldable pub settle_response :
    ℕ → Option RequestKey → GatewaySystem → Result GateError GatewaySystem
settle_response id none s = ok s
settle_response id (some key) s = let (s', p) = take_pending id key s in exit_taken p s'

-- `_pump_backend` on a frame of the app server: `none` means that the pump ends, and with it the
-- bridge; else the frame goes on to the frontend.
unfoldable pub pump_backend : ℕ → Frame → GatewaySystem → Option (Result GateError GatewaySystem)
pump_backend id frame s =
    if not frame.is_text || ltb max_frame_bytes frame.size then none else elim frame.parsed [
      | none ↦ none
      | some value ↦ elim (classify_frontend_frame value) [
        | response_frame ↦ some (settle_response id (request_key (id_of value)) s)
        | _ ↦ some (ok s)
      ]
    ]
