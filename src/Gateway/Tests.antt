-- ===== src/Gateway/Tests.antt =====
-- websocket_gateway.py on a concrete bridge.
use superdev.Base.{
  string_eq, nat_eq, pair_eq, option_string_eq, ok, err, lookup, ◌≡◌, refl, ◌≢◌, ◌⊎◌, true, false,
  none, some, [], ◌∷◌, arith,
}
use superdev.Json.{Json, natural, negative, null, int, text, obj, done, field}
use superdev.Gateway.{
  key_eq, request_key, is_jsonrpc_response_envelope, classify_frontend_frame, new_gate,
  enter_mutation, exit_mutation, issue_lease, end_drain, authorize, RequestKey, DrainLease,
  ServiceMaintenanceGate, int_key, response_frame, gate_permission,
}
use superdev.Gateway.Bridges.{
  enter_context, exit_context, register, take_pending, close_bridge, fault_frame, Bridge,
  GatewaySystem, Frame, Outcome, mutation_pending,
}
use superdev.Gateway.Forward.{
  finish_mutation, forward_mutation, forward_request, forward_object, forward_frontend, id_of,
  settle_response, pump_backend,
}
use superdev.Gateway.Accounting.{Accounted}
use superdev.Gateway.Pumps.{forward_frontend-Settles, close_bridge-Settles}
use superdev.Gateway.Answering.{pump_backend-settles, IsAnswered}
use superdev.Gateway.Draining.{drain-excludes, drain-expires, gate_rests}

abbrev open_bridge : Bridge
open_bridge = record { pending = []; closed = false }

abbrev one_bridge : GatewaySystem
one_bridge = record { gate = new_gate 3; bridges = (1, open_bridge) ∷ []; entered = 0; held = [] }

abbrev start_frame : Frame
start_frame = record {
  is_text = true;
  size = 40;
  parsed = some (obj (field "id" (int (natural 5)) (field "method" (text "turn/start") done)));
}

-- A mutation that is sent, and not answered yet.
abbrev waiting_bridge : Bridge
waiting_bridge = record { pending = (int_key (natural 5), mutation_pending 0) ∷ []; closed = false }

abbrev waiting_system : GatewaySystem
waiting_system = record {
  gate = record (new_gate 3) { active_mutations = 1 };
  bridges = (1, waiting_bridge) ∷ [];
  entered = 1;
  held = [];
}

start_runs :
    forward_frontend true 1 start_frame one_bridge
    ≡ ok (record { system = waiting_system; replies = []; forwarded = true; raised = false })
unfolding forward_frontend forward_object forward_request forward_mutation finish_mutation
    classify_frontend_frame is_jsonrpc_response_envelope request_key enter_context enter_mutation
    register
start_runs = refl

busy_runs :
    forward_frontend true 1 start_frame
      (record one_bridge { gate = record (new_gate 3) { draining = true } })
    ≡ ok (record {
      system = record one_bridge { gate = record (new_gate 3) { draining = true } };
      replies =
          fault_frame (int (natural 5)) "service_busy" (negative 32039) (some "turn/start") ∷ [];
      forwarded = false;
      raised = false;
    })
unfolding forward_frontend forward_object forward_request forward_mutation classify_frontend_frame
    is_jsonrpc_response_envelope request_key enter_context enter_mutation
busy_runs = refl

forward_frontend-Settles_example :
    (o : Outcome) × (forward_frontend true 1 start_frame one_bridge ≡ ok o)
    × Accounted o.system
    × (o.system.held ≡ [])
forward_frontend-Settles_example =
    forward_frontend-Settles true 1 open_bridge one_bridge refl refl start_frame

abbrev answer_frame : Frame
answer_frame = record {
  is_text = true;
  size = 30;
  parsed = some (obj (field "id" (int (natural 5)) (field "result" null done)));
}

waiting_system-Accounted : Accounted waiting_system
waiting_system-Accounted = omega arith

answer_runs :
    pump_backend 1 answer_frame waiting_system ≡ some (ok (record one_bridge { entered = 1 }))
unfolding pump_backend settle_response classify_frontend_frame is_jsonrpc_response_envelope
    request_key take_pending exit_context exit_mutation
answer_runs = refl

pump_backend-settles_example :
    (pump_backend 1 answer_frame waiting_system ≡ none)
    ⊎ ((s' : GatewaySystem) × (value : Json) × (answer_frame.parsed ≡ some value)
        × (pump_backend 1 answer_frame waiting_system ≡ some (ok s'))
        × Accounted s'
        × (s'.held ≡ [])
        × ((key : RequestKey)
            → classify_frontend_frame value ≡ response_frame
            → request_key (id_of value) ≡ some key
            → IsAnswered 1 key waiting_system s')
        × ((classify_frontend_frame value ≢ response_frame) ⊎ (request_key (id_of value) ≡ none)
            → s' ≡ waiting_system))
pump_backend-settles_example =
    pump_backend-settles 1 answer_frame waiting_system waiting_system-Accounted

close_bridge-Settles_example :
    (s' : GatewaySystem) × (close_bridge 1 waiting_system ≡ ok s')
    × Accounted s'
    × (s'.held ≡ [])
    × (lookup 1 s'.bridges ≡ some (record { pending = []; closed = true }))
close_bridge-Settles_example =
    close_bridge-Settles 1 waiting_bridge waiting_system refl refl waiting_system-Accounted

abbrev claimed_gate : ServiceMaintenanceGate
claimed_gate = record (new_gate 3) { draining = true }

abbrev leased_gate : ServiceMaintenanceGate
leased_gate = record claimed_gate { lease = some 0; live = 0 ∷ []; issued = 1 }

abbrev lease_one : DrainLease
lease_one = record { gate = 3; number = 0; allows_active_mutations = false }

issue_runs : issue_lease false claimed_gate ≡ some (leased_gate, lease_one)
unfolding issue_lease
issue_runs = refl

drain-excludes_example :
    (authorize lease_one leased_gate ≡ ok tt)
    × (leased_gate.active_mutations ≡ 0)
    × ((g : ServiceMaintenanceGate) → enter_mutation "turn/start" leased_gate ≢ ok g)
drain-excludes_example =
    drain-excludes claimed_gate leased_gate leased_gate lease_one "turn/start" refl issue_runs
      gate_rests refl

drain-expires_example :
    authorize lease_one (end_drain lease_one leased_gate)
    ≡ err (gate_permission "a live drain lease from this maintenance gate is required")
drain-expires_example =
    drain-expires claimed_gate leased_gate leased_gate (end_drain lease_one leased_gate) lease_one
      refl issue_runs gate_rests gate_rests
