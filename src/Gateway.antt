-- ===== src/Gateway.antt =====
-- codex_worker/websocket_gateway.py: the gateway between the frontends and the app server, and the
-- gate that holds new mutations back while the service is drained. This file has the frames and
-- the gate.
pub mod Bridges
pub mod Forward
pub mod Accounting
pub mod Settling
pub mod Pumps
pub mod Answering
pub mod Draining
mod Tests
use superdev.Base.{
  if◌then◌else◌, ◌==◌, nat_eq, string_eq, pair_eq, option_string_eq, is_some, Eq, contains, discard,
  ◌>>=◌, ◌>>◌, raise_if, Result, ok, err, ℕ, ◌+◌, ◌-◌, String, ◌≡◌, ◌↔◌, Bool, true, false, not,
  ◌&&◌, ◌||◌, Option, none, some, List, [], ◌∷◌, arith, eq_iff,
}
use superdev.Json.{
  get, field_names, as_text, as_object, Integer, Json, Fields, natural, negative, int, text, obj,
}

-- `_request_key`: a bool is no key
pub data RequestKey : Type 0 where
  int_key : Integer → RequestKey
  text_key : String → RequestKey

abbrev pub same_integer : Integer → Integer → Bool
same_integer (natural a) (natural b) = a == b
same_integer (negative a) (negative b) = a == b
same_integer _ _ = false

abbrev pub same_key : RequestKey → RequestKey → Bool
same_key (int_key a) (int_key b) = same_integer a b
same_key (text_key a) (text_key b) = a == b
same_key _ _ = false

same_integer_iff : (a b : Integer) → (same_integer a b ≡ true) ↔ (a ≡ b)
same_integer_iff (natural a) (natural b) = ground arith
same_integer_iff (negative a) (negative b) = ground arith
same_integer_iff (natural a) (negative b) = ground arith
same_integer_iff (negative a) (natural b) = ground arith

pub same_key_iff : (a b : RequestKey) → (same_key a b ≡ true) ↔ (a ≡ b)
same_key_iff (int_key a) (int_key b) = ground (arith, same_integer_iff a b)
same_key_iff (text_key a) (text_key b) = ground (arith, eq_iff a b)
same_key_iff (int_key a) (text_key b) = ground arith
same_key_iff (text_key a) (int_key b) = ground arith

instance abbrev pub key_eq : Eq RequestKey
key_eq = record { beq = same_key; beq_iff = same_key_iff }

unfoldable pub request_key : Json → Option RequestKey
request_key (int n) = some (int_key n)
request_key (text s) = some (text_key s)
request_key _ = none

-- `key in value`
abbrev pub has_field : String → Fields → Bool
has_field k fs = contains k (field_names fs)

-- `has_result == has_error`
abbrev pub same_presence : Bool → Bool → Bool
same_presence true b = b
same_presence false b = not b

-- websocket_transport.py: `is_jsonrpc_response_envelope`
unfoldable pub is_jsonrpc_response_envelope : Json → Bool
is_jsonrpc_response_envelope (obj fs) =
    not (has_field "method" fs)
    && is_some (request_key (get "id" fs))
    && (not (has_field "jsonrpc" fs) || as_text (get "jsonrpc" fs) == some "2.0")
    && not (same_presence (has_field "result" fs) (has_field "error" fs))
    && (not (has_field "error" fs) || is_some (as_object (get "error" fs)))
is_jsonrpc_response_envelope _ = false

pub data FrameClass : Type 0 where
  response_frame allowed_frame blocked_frame : FrameClass

-- `DRAIN_ALLOWED_REQUESTS`
abbrev pub drain_allowed_requests : List String
drain_allowed_requests = "thread/list" ∷ "thread/read" ∷ "turn/interrupt" ∷ []

abbrev pub is_drain_allowed : Option String → Bool
is_drain_allowed none = false
is_drain_allowed (some method) = contains method drain_allowed_requests

-- `value if isinstance(value, str) and value`
abbrev pub nonempty_text : Json → Option String
nonempty_text (text s) = if s == "" then none else some s
nonempty_text _ = none

abbrev pub method_of : Json → Option String
method_of (obj fs) = as_text (get "method" fs)
method_of _ = none

unfoldable pub classify_frontend_frame : Json → FrameClass
classify_frontend_frame value =
    if is_jsonrpc_response_envelope value
    then response_frame
    else if is_drain_allowed (method_of value)
    then allowed_frame
    else blocked_frame

pub data GateError : Type 0 where
  service_busy : String → GateError
  gate_value_error gate_assertion gate_permission : String → GateError

-- A lease is known by its number; `gate` is the gate that issued it.
pub record DrainLease : Type 0 where
  pub gate : ℕ
  pub number : ℕ
  pub allows_active_mutations : Bool

-- `ServiceMaintenanceGate`; `gate` is its token, and `live` the numbers of the leases that have not
-- expired.
pub record ServiceMaintenanceGate : Type 0 where
  pub gate : ℕ
  pub draining : Bool
  pub active_mutations : ℕ
  pub lease : Option ℕ
  pub live : List ℕ
  pub issued : ℕ

-- `__init__`
abbrev pub new_gate : ℕ → ServiceMaintenanceGate
new_gate gate = record {
  gate = gate;
  draining = false;
  active_mutations = 0;
  lease = none;
  live = [];
  issued = 0;
}

-- `mutation`, on entry
unfoldable pub enter_mutation :
    String → ServiceMaintenanceGate → Result GateError ServiceMaintenanceGate
enter_mutation method g = do
  raise_if (method == "") (gate_value_error "mutation method must be non-empty")
  raise_if g.draining (service_busy method)
  ok (record g { active_mutations = g.active_mutations + 1 })

-- `mutation`, on exit: the assertion fails below zero
unfoldable pub exit_mutation : ServiceMaintenanceGate → Result GateError ServiceMaintenanceGate
exit_mutation g =
    if g.active_mutations == 0
    then err (gate_assertion "maintenance mutation accounting underflow")
    else ok (record g { active_mutations = g.active_mutations - 1 })

-- `drain`, the first wait: `none` means that the caller goes on waiting
unfoldable pub claim_drain : ServiceMaintenanceGate → Option ServiceMaintenanceGate
claim_drain g = if g.draining then none else some (record g { draining = true })

-- `drain`, the second wait, and the lease
unfoldable pub issue_lease :
    Bool → ServiceMaintenanceGate → Option (ServiceMaintenanceGate × DrainLease)
issue_lease force g =
    if not (g.active_mutations == 0) && not force
    then none
    else some (
      record g { lease = some g.issued; live = g.issued ∷ g.live; issued = g.issued + 1 },
      record { gate = g.gate; number = g.issued; allows_active_mutations = force },
    )

abbrev pub is_lease : ℕ → Option ℕ → Bool
is_lease n none = false
is_lease n (some m) = n == m

-- `drain`, on exit
unfoldable pub end_drain : DrainLease → ServiceMaintenanceGate → ServiceMaintenanceGate
end_drain l g = record g {
  lease = if is_lease l.number g.lease then none else g.lease;
  live = discard l.number g.live;
  draining = false;
}

-- `authorize`
unfoldable pub authorize : DrainLease → ServiceMaintenanceGate → Result GateError (Unit {0})
authorize l g =
    raise_if
      (not (l.gate == g.gate)
        || not (contains l.number g.live)
        || not (is_lease l.number g.lease)
        || not g.draining
        || not (g.active_mutations == 0) && not l.allows_active_mutations)
      (gate_permission "a live drain lease from this maintenance gate is required")
