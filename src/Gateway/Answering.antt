-- ===== src/Gateway/Answering.antt =====
-- `_pump_backend` of websocket_gateway.py: a response of the app server settles the request that it
-- answers.
use mathlib.Core.Path.{subst}
use superdev.Base.{
  ltb, string_eq, ◌==◌, nat_eq, pair_eq, option_string_eq, Bool-cases, Option-cases, length,
  contains, Result, ok, Dict, lookup, lookup-insert_self, ℕ, ◌+◌, ◌≡◌, refl, sym, ap, ◌∙◌, ◌≢◌, ◌⊎◌,
  inl, inr, true, false, not, ◌||◌, Option, none, some, List, [], ◌∷◌, arith,
}
use superdev.Json.{Json}
use superdev.Gateway.{
  key_eq, request_key, classify_frontend_frame, RequestKey, FrameClass, GateError,
  ServiceMaintenanceGate, response_frame, allowed_frame, blocked_frame,
}
use superdev.Gateway.Bridges.{
  pop, pending_of, release, hold, take_pending, max_frame_bytes, PendingRequest, Bridge,
  GatewaySystem, Frame, read_pending, mutation_pending,
}
use superdev.Gateway.Forward.{exit_taken, id_of, settle_response, pump_backend}
use superdev.Gateway.Accounting.{
  weight, in_tables, Accounted, length-hold, exit_context-Accounted, take_pending-Accounted,
}
use superdev.Gateway.Settling.{release-head, contains-head}

-- How many mutations of the gate an entry stands for.
abbrev pub outstanding : Option PendingRequest → ℕ
outstanding none = 0
outstanding (some p) = weight p

pop-absent : (k : RequestKey) (d : Dict RequestKey PendingRequest) → lookup k d ≡ none → pop k d ≡ d
pop-absent k [] h = refl
pop-absent k ((j, p) ∷ d) h = elim (Bool-cases (k == j)) [
  | inl here ↦ cc (rw here at h)
  | inr there ↦ rw there (ap (λ l. (j, p) ∷ l) (pop-absent k d (rw there at h)))
]

-- A context that was taken from a table exits, and leaves what was held before.
exit_taken-Accounted :
    (p : Option PendingRequest) (held : List ℕ) (s : GatewaySystem)
    → s.held ≡ (elim p [ none ↦ held | some q ↦ hold q held ])
    → Accounted s
    → (s' : GatewaySystem) × (exit_taken p s ≡ ok s')
      × Accounted s'
      × (s'.held ≡ held)
      × (s'.bridges ≡ s.bridges)
exit_taken-Accounted none held s top a = (s, refl, a, top, refl)
exit_taken-Accounted (some read_pending) held s top a = (s, refl, a, top, refl)
exit_taken-Accounted (some (mutation_pending n)) held s top a =
    let mine : contains n s.held ≡ true = rw top (contains-head n held) in
    let (s', exits, counted, left, same) = exit_context-Accounted n s mine a in
    (s', exits, counted, left ∙ ap (λ l. release n l) top ∙ release-head n held, same)

-- What `take_pending` takes: the entry of its key, and nothing of the gate.
take_pending-takes :
    (id : ℕ) (key : RequestKey) (s : GatewaySystem)
    → let (s', p) = take_pending id key s in
      (p ≡ lookup key (pending_of id s))
      × (s'.held ≡ (elim p [ none ↦ s.held | some q ↦ hold q s.held ]))
      × (length s'.held ≡ outstanding p + length s.held)
      × (pending_of id s' ≡ pop key (pending_of id s))
      × (s'.gate ≡ s.gate)
unfolding take_pending
take_pending-takes id key s = elim (Option-cases (lookup id s.bridges)) [
  | inl missing ↦
      rw (missing, take_pending, pending_of)
        (refl, refl, omega arith, rw (missing, pending_of) refl, refl)
  | inr (b, found) ↦ elim (Option-cases (lookup key b.pending)) [
    | inl nothing ↦
        rw (found, nothing, take_pending, pending_of)
          (
            refl,
            refl,
            omega arith,
            rw (found, pending_of) (sym (pop-absent key b.pending nothing)),
            refl,
          )
    | inr (p, there) ↦
        rw (found, there, take_pending, pending_of)
          (
            refl,
            refl,
            length-hold p s.held,
            rw
                (
                  lookup-insert_self id (record b { pending = pop key b.pending }) s.bridges,
                  pending_of,
                )
                refl,
            refl,
          )
  ]
]

-- The request of a bridge is settled: its entry is gone, its mutation is off the count of the gate.
pub record IsAnswered (id : ℕ) (key : RequestKey) (s s' : GatewaySystem) : Type 0 where
  pub gone : pending_of id s' ≡ pop key (pending_of id s)
  pub counted :
      s'.gate.active_mutations + outstanding (lookup key (pending_of id s))
      ≡ s.gate.active_mutations

settle_response-IsAnswered :
    (id : ℕ) (key : RequestKey) (s : GatewaySystem)
    → Accounted s
    → (s' : GatewaySystem) × (settle_response id (some key) s ≡ ok s')
      × Accounted s'
      × (s'.held ≡ s.held)
      × IsAnswered id key s s'
unfolding settle_response
settle_response-IsAnswered id key s a =
    let (entry, top, longer, gone, gate) = take_pending-takes id key s in
    let s₁ = (take_pending id key s).0 in
    let a₁ = take_pending-Accounted id key s a in
    let (s', exits, a', left, same) =
      exit_taken-Accounted (take_pending id key s).1 s.held s₁ top a₁ in
    (
      s',
      exits,
      a',
      left,
      record {
        gone =
            ap
              (λ (d : Dict ℕ Bridge). elim (lookup id d) as (λ _. Dict RequestKey PendingRequest) [
                | none ↦ []
                | some b ↦ b.pending
              ])
              same
            ∙ gone;
        counted = omega (
          arith,
          a₁,
          a',
          longer,
          ap length left,
          ap in_tables same,
          ap (λ (g : ServiceMaintenanceGate). g.active_mutations) gate,
          ap outstanding entry,
        );
      },
    )

-- While the count is exact, a frame from the app server either ends the pump, or the assertion on
-- the count does not fail, the count is exact afterwards and no context is left behind: a response
-- with a key takes the entry of this key from the bridge's table, and a mutation that the entry
-- stands for off the count of the gate; any other frame changes nothing.
pub pump_backend-settles :
    (id : ℕ) (frame : Frame) (s : GatewaySystem)
    → Accounted s
    → (pump_backend id frame s ≡ none)
      ⊎ ((s' : GatewaySystem) × (value : Json) × (frame.parsed ≡ some value)
          × (pump_backend id frame s ≡ some (ok s'))
          × Accounted s'
          × (s'.held ≡ s.held)
          × ((key : RequestKey)
              → classify_frontend_frame value ≡ response_frame
              → request_key (id_of value) ≡ some key
              → IsAnswered id key s s')
          × ((classify_frontend_frame value ≢ response_frame) ⊎ (request_key (id_of value) ≡ none)
              → s' ≡ s))
unfolding pump_backend settle_response
pump_backend-settles id frame s a =
    elim (Bool-cases (not frame.is_text || ltb max_frame_bytes frame.size)) [
      | inl bad ↦ inl (rw (bad, pump_backend) refl)
      | inr good ↦ elim (Option-cases frame.parsed) [
        | inl broken ↦ inl (rw (good, broken, pump_backend) refl)
        | inr (value, read) ↦ elim (is_response_cases (classify_frontend_frame value)) [
          | inl response ↦ elim (Option-cases (request_key (id_of value))) [
            | inl keyless ↦ inr (
              s,
              value,
              read,
              rw (good, read, response, keyless, pump_backend) refl,
              a,
              refl,
              λ key _ keyed. cc (keyless, keyed),
              λ other. refl,
            )
            | inr (key, keyed) ↦
                let (s', settled, a', left, answered) = settle_response-IsAnswered id key s a in
                inr (
                  s',
                  value,
                  read,
                  rw (good, read, response, keyed, pump_backend) (ap (λ r. some r) settled),
                  a',
                  left,
                  λ k _ keyed'.
                      let mine : key ≡ k = cc (keyed, keyed') in
                      subst (λ x. IsAnswered id x s s') mine answered,
                  λ other. elim other [
                    | inl blocked ↦ absurd (blocked response)
                    | inr keyless ↦ cc (keyed, keyless)
                  ],
                )
          ]
          | inr other ↦ inr (
            s,
            value,
            read,
            forwarded value good read other,
            a,
            refl,
            λ key response _. absurd (other response),
            λ _. refl,
          )
        ]
      ]
    ]
  where
    is_response_cases : (c : FrameClass) → (c ≡ response_frame) ⊎ (c ≢ response_frame)
    is_response_cases response_frame = inl refl
    is_response_cases allowed_frame = inr (λ e. cc)
    is_response_cases blocked_frame = inr (λ e. cc)

    forwarded :
        (value : Json)
        → (not frame.is_text || ltb max_frame_bytes frame.size) ≡ false
        → frame.parsed ≡ some value
        → classify_frontend_frame value ≢ response_frame
        → pump_backend id frame s ≡ some (ok s)
    forwarded value good read other =
        rw (good, read, pump_backend) (by_class (classify_frontend_frame value) other)
      where
        by_class :
            (c : FrameClass)
            → c ≢ response_frame
            → (elim c as (λ _. Option (Result GateError GatewaySystem)) [
              | response_frame ↦ some (settle_response id (request_key (id_of value)) s)
              | _ ↦ some (ok s)
            ])
              ≡ some (ok s)
        by_class response_frame no_response = absurd (no_response refl)
        by_class allowed_frame no_response = refl
        by_class blocked_frame no_response = refl
