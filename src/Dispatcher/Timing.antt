-- ===== src/Dispatcher/Timing.antt =====
-- The event that `_persist_completion` builds of a completion, at one time and at another.
use superdev.Base.{
  string_eq, ◌==◌, nat_eq, pair_eq, option_string_eq, Bool-cases, Option-cases, contains, >>=-eq-ok,
  raise_if-eq-ok, ok_inj, Result, ok, err, String, ◌≡◌, sym, ap, ◌⊎◌, inl, inr, false, not, Option,
  none, some, List, [], ◌∷◌,
}
use superdev.Callbacks.{
  are_strict_fields, callback_event, WorkerView, CallbackEvent, CallbackBinding,
}
use superdev.Json.{Fields}
use superdev.Projection.{CompletionResponse}
use superdev.Dispatcher.{is_terminal}
use superdev.Dispatcher.Events.{
  raises, check, terminal_event_id, terminal_payload, build_terminal_event, is_too_large,
  sendable_event, CallbackArtifact, CallbackPort,
}

pub raises-eq-ok {ℓ} :
    {A : Type ℓ} (type_name : String) (m : Result String A) {a : A}
    → raises type_name m ≡ ok a
    → m ≡ ok a
raises-eq-ok type_name (ok a) h = cc
raises-eq-ok type_name (err why) h = cc

-- The same event, but for its time.
abbrev pub emitted : String → CallbackEvent → CallbackEvent
emitted at event = record event { emitted_at = at }

callback_event-at :
    (schema event event_id first at priority : String) (worker : WorkerView) (payload : Fields)
    {built : CallbackEvent}
    → (at == "") ≡ false
    → callback_event schema event event_id first priority worker payload ≡ ok built
    → (callback_event schema event event_id at priority worker payload ≡ ok (emitted at built))
      × (built.event_id ≡ event_id)
unfolding callback_event
callback_event-at schema event event_id first at priority worker payload {built} dated h =
    let (c₀, h₀) =
      raise_if-eq-ok (not (schema == "codex-worker.claude-callback/v1"))
        "unsupported callback schema" _ h in
    let (c₁, h₁) =
      raise_if-eq-ok
        (not (contains event ("turn_terminal" ∷ "turn_terminal_reference" ∷ "worker_message" ∷ [])))
        "unsupported callback event" _ h₀ in
    let (c₂, h₂) = raise_if-eq-ok (event_id == "") "event_id must be a non-empty string" _ h₁ in
    let (c₃, h₃) = raise_if-eq-ok (first == "") "emitted_at must be a non-empty string" _ h₂ in
    let (c₄, h₄) =
      raise_if-eq-ok (not (contains priority ("now" ∷ "next" ∷ "later" ∷ [])))
        "unsupported callback priority" _ h₃ in
    let (c₅, h₅) =
      raise_if-eq-ok (not (are_strict_fields payload)) "payload must be JSON-compatible" _ h₄ in
    let same : record {
      schema = schema;
      event = event;
      event_id = event_id;
      emitted_at = first;
      priority = priority;
      worker = worker;
      payload = payload;
    }
        ≡ built =
      ok_inj h₅ in
    (
      rw (c₀, c₁, c₂, dated, c₄, c₅) (ap (λ (e : CallbackEvent). ok (emitted at e)) same),
      ap (λ (e : CallbackEvent). e.event_id) (sym same),
    )

build_terminal_event-at :
    (digest : List String → String) (completion : CompletionResponse) (first at kind : String)
    (artifact : Option CallbackArtifact) {built : CallbackEvent}
    → (at == "") ≡ false
    → build_terminal_event digest completion first kind artifact ≡ ok built
    → (build_terminal_event digest completion at kind artifact ≡ ok (emitted at built))
      × (built.event_id
          ≡ terminal_event_id digest completion.worker.session_id completion.turn.turn_id kind)
unfolding build_terminal_event
build_terminal_event-at digest completion first at kind artifact dated h =
    let named =
      terminal_event_id digest completion.worker.session_id completion.turn.turn_id kind in
    let (c₀, h₀) =
      raise_if-eq-ok (not (is_terminal completion.turn.status))
        "callback requires a terminal completion" _ h in
    let (c₁, h₁) =
      raise_if-eq-ok (not (contains kind ("turn_terminal" ∷ "turn_terminal_reference" ∷ [])))
        "unsupported terminal callback kind" _ h₀ in
    let (payload, read, h₂) =
      >>=-eq-ok (terminal_payload completion kind artifact)
        (callback_event "codex-worker.claude-callback/v1" kind named first "next" completion.worker)
        h₁ in
    let (again, same) =
      callback_event-at "codex-worker.claude-callback/v1" kind named first at "next"
        completion.worker payload dated h₂ in
    (rw (c₀, c₁, read) again, same)

-- The ids of the two events of a completion.
abbrev pub EventId : CallbackPort → CompletionResponse → String → Type 0
EventId port completion event_id =
    let id = terminal_event_id port.digest completion.worker.session_id completion.turn.turn_id in
    (event_id ≡ id "turn_terminal") ⊎ (event_id ≡ id "turn_terminal_reference")

-- The event of a completion, at another time.
module _ (port : CallbackPort) (completion : CompletionResponse) (first at : String)
    (binding : CallbackBinding)
    (timeless : (event : CallbackEvent)
      → port.encode_user_line binding (emitted at event) ≡ port.encode_user_line binding event)
    (dated : (at == "") ≡ false) where
  pub sendable_event-at :
      {event : CallbackEvent}
      → sendable_event port first binding completion ≡ ok event
      → (sendable_event port at binding completion ≡ ok (emitted at event))
        × EventId port completion event.event_id
  unfolding sendable_event
  sendable_event-at {event} h =
      let (e, built, h₁) =
        >>=-eq-ok
          (raises "ValueError"
            (build_terminal_event port.digest completion first "turn_terminal" none))
          _ h in
      let (again, named) =
        build_terminal_event-at port.digest completion first at "turn_terminal" none dated (
          raises-eq-ok "ValueError"
            (build_terminal_event port.digest completion first "turn_terminal" none) built) in
      elim (Option-cases (port.encode_user_line binding e)) [
        | inl fits ↦
            let same : e ≡ event = cc (rw fits at h₁) in
            (
              rw (again, timeless e, fits, sendable_event)
                  (ap (λ (x : CallbackEvent). ok (emitted at x)) same),
              inl (rw (← same) named),
            )
        | inr (f, long) ↦ elim (Bool-cases (is_too_large f)) [
          | inr other ↦ cc (rw (long, other) at h₁)
          | inl large ↦
              let reference_id =
                terminal_event_id port.digest completion.worker.session_id completion.turn.turn_id
                  "turn_terminal_reference" in
              let (artifact, published, h₂) =
                >>=-eq-ok (port.publish_artifact reference_id completion) _
                  (rw (long, large) at h₁) in
              let build =
                build_terminal_event port.digest completion first "turn_terminal_reference"
                  (some artifact) in
              let (reference, referred, h₃) = >>=-eq-ok (raises "ValueError" build) _ h₂ in
              let (again', named') =
                build_terminal_event-at port.digest completion first at "turn_terminal_reference"
                  (some artifact) dated (raises-eq-ok "ValueError" build referred) in
              let (passed, checked, h₄) =
                >>=-eq-ok (check (port.encode_user_line binding reference)) _ h₃ in
              let same : reference ≡ event = ok_inj h₄ in
              (
                rw
                    (
                      again,
                      timeless e,
                      long,
                      large,
                      published,
                      again',
                      timeless reference,
                      checked,
                      sendable_event,
                    )
                    (ap (λ (x : CallbackEvent). ok (emitted at x)) same),
                inr (rw (← same) named'),
              )
        ]
      ]
