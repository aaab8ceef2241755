-- ===== src/Gateway/Bridges.antt =====
-- websocket_gateway.py: the bridges, and what their two pumps do. Each function here that changes
-- the system is one section under a lock, or the sections of one call in their order.
use superdev.Base.{
  if◌then◌else◌, ◌==◌, nat_eq, string_eq, pair_eq, option_string_eq, ◌>>=◌, Result, ok, Dict,
  lookup, insert, ℕ, ◌+◌, ◌*◌, String, Bool, true, false, not, Option, none, some, List, [], ◌∷◌,
  ◌++◌,
}
use superdev.Json.{Integer, Json, Fields, negative, null, bool, int, text, obj, done, field}
use superdev.Gateway.{
  key_eq, request_key, enter_mutation, exit_mutation, RequestKey, GateError, ServiceMaintenanceGate,
  int_key, text_key,
}

-- `_PendingRequest`: a read, or a mutation with its context, which is known by its number.
pub data PendingRequest : Type 0 where
  read_pending : PendingRequest
  mutation_pending : ℕ → PendingRequest

abbrev pub same_pending : PendingRequest → PendingRequest → Bool
same_pending read_pending read_pending = true
same_pending (mutation_pending a) (mutation_pending b) = a == b
same_pending _ _ = false

-- `_Bridge`
pub record Bridge : Type 0 where
  pub pending : Dict RequestKey PendingRequest
  pub closed : Bool

-- The gate and the bridges. `held` has the contexts that were entered and that a thread holds: they
-- are in no table, and their exit is to come.
pub record GatewaySystem : Type 0 where
  pub gate : ServiceMaintenanceGate
  pub bridges : Dict ℕ Bridge
  pub entered : ℕ
  pub held : List ℕ

-- `bridge.pending.pop(key, None)`: a key is there at most once
abbrev pub pop : RequestKey → Dict RequestKey PendingRequest → Dict RequestKey PendingRequest
pop k [] = []
pop k ((j, p) ∷ d) = let rest = pop k d in if k == j then d else (j, p) ∷ rest

abbrev pub pending_of : ℕ → GatewaySystem → Dict RequestKey PendingRequest
pending_of id s = elim (lookup id s.bridges) [ none ↦ [] | some b ↦ b.pending ]

-- `x in xs` is taken out once
abbrev pub release : ℕ → List ℕ → List ℕ
release n [] = []
release n (m ∷ ms) = let rest = release n ms in if n == m then ms else m ∷ rest

-- `context.__enter__()`: the new system, and the number of the context
unfoldable pub enter_context : String → GatewaySystem → Result GateError (GatewaySystem × ℕ)
enter_context method s = do
  g ← enter_mutation method s.gate
  ok (record s { gate = g; entered = s.entered + 1; held = s.entered ∷ s.held }, s.entered)

-- `context.__exit__(None, None, None)`, which a thread calls once on a context that it holds
unfoldable pub exit_context : ℕ → GatewaySystem → Result GateError GatewaySystem
exit_context n s = do g ← exit_mutation s.gate; ok (record s { gate = g; held = release n s.held })

abbrev pub unhold : PendingRequest → List ℕ → List ℕ
unhold read_pending held = held
unhold (mutation_pending n) held = release n held

abbrev pub hold : PendingRequest → List ℕ → List ℕ
hold read_pending held = held
hold (mutation_pending n) held = n ∷ held

-- `bridge.pending[key] = request`
unfoldable pub register : ℕ → RequestKey → PendingRequest → GatewaySystem → GatewaySystem
register id key p s = elim (lookup id s.bridges) [
  | none ↦ s
  | some b ↦ record s {
    bridges = insert id (record b { pending = insert key p b.pending }) s.bridges;
    held = unhold p s.held;
  }
]

-- What comes out of a bridge's table, and goes to the thread that took it.
abbrev pub taken : ℕ → RequestKey → Bridge → Option PendingRequest → GatewaySystem → GatewaySystem
taken id key b none s = s
taken id key b (some p) s = record s {
  bridges = insert id (record b { pending = pop key b.pending }) s.bridges;
  held = hold p s.held;
}

-- `bridge.pending.pop(key, _MISSING_PENDING)` of a backend pump
unfoldable pub take_pending : ℕ → RequestKey → GatewaySystem → GatewaySystem × Option PendingRequest
take_pending id key s = elim (lookup id s.bridges) [
  | none ↦ (s, none)
  | some b ↦ (taken id key b (lookup key b.pending) s, lookup key b.pending)
]

abbrev pub is_same_pending : PendingRequest → Option PendingRequest → Bool
is_same_pending p none = false
is_same_pending p (some q) = same_pending q p

-- The pop after a send that failed: only if the entry is still the one that was registered. The
-- result says whether it was.
unfoldable pub withdraw : ℕ → RequestKey → PendingRequest → GatewaySystem → GatewaySystem × Bool
withdraw id key p s =
    if is_same_pending p (lookup key (pending_of id s))
    then ((take_pending id key s).0, true)
    else (s, false)

abbrev pub contexts : Dict RequestKey PendingRequest → List ℕ
contexts [] = []
contexts ((k, p) ∷ d) = hold p (contexts d)

-- `_close_bridge`, under the bridge's lock: the contexts that are to exit
unfoldable pub close_pending : ℕ → GatewaySystem → GatewaySystem × List ℕ
close_pending id s = elim (lookup id s.bridges) [
  | none ↦ (s, [])
  | some b ↦ if b.closed then (s, []) else (
    record s {
      bridges = insert id (record { pending = []; closed = true }) s.bridges;
      held = contexts b.pending ++ s.held;
    },
    contexts b.pending,
  )
]

unfoldable pub exit_contexts : List ℕ → GatewaySystem → Result GateError GatewaySystem
exit_contexts [] s = ok s
exit_contexts (n ∷ ns) s = exit_context n s >>= exit_contexts ns

-- `_close_bridge`; the connections are closed, and the bridge leaves the table
unfoldable pub close_bridge : ℕ → GatewaySystem → Result GateError GatewaySystem
close_bridge id s = let (s', ns) = close_pending id s in exit_contexts ns s'

-- A frame of a frontend: `parsed` is what `strict_json_loads` returns, if it returns.
pub record Frame : Type 0 where
  pub is_text : Bool
  pub size : ℕ
  pub parsed : Option Json

-- `MAX_FRAME_BYTES`
abbrev pub max_frame_bytes : ℕ
max_frame_bytes = 4 * 1024 * 1024

abbrev key_to_json : Option RequestKey → Json
key_to_json none = null
key_to_json (some (int_key n)) = int n
key_to_json (some (text_key s)) = text s

-- `_send_fault`
unfoldable pub fault_frame : Json → String → Integer → Option String → Json
fault_frame request_id kind code method =
    let busy = kind == "service_busy" in
    let details : Fields = elim method [ none ↦ done | some m ↦ field "method" (text m) done ] in
    obj (
      field "id" (key_to_json (request_key request_id)) (
        field "error"
          (obj (
            field "code" (int code) (
              field "message" (text (if busy then "service is draining" else "invalid request")) (
                field "data"
                  (obj (field "kind" (text kind) (field "retryable" (bool busy) details))) done))))
          done))

-- What a call did: the frames to the frontend, whether the frame went to the app server, and
-- whether the call raised.
pub record Outcome : Type 0 where
  pub system : GatewaySystem
  pub replies : List Json
  pub forwarded : Bool
  pub raised : Bool

abbrev pub refuse : Json → GatewaySystem → Outcome
refuse request_id s = record {
  system = s;
  replies = fault_frame request_id "invalid_request" (negative 32599) none ∷ [];
  forwarded = false;
  raised = false;
}

-- `bridge.backend.send(frame)`, which either returns or raises
abbrev pub sent_as : Bool → GatewaySystem → Outcome
sent_as sends s = record { system = s; replies = []; forwarded = sends; raised = not sends }
