-- ===== src/Transport/Sections.antt =====
-- The sections of websocket_transport.py that close the connection or send on it.
use superdev.Base.{
  if◌then◌else◌, string_eq, nat_eq, pair_eq, option_string_eq, lookup, String, ◌≡◌, refl, Bool,
  true, false, not, Option, none, some, List, [], ◌∷◌, ◌++◌, arith,
}
use superdev.Json.{Fields}
use superdev.Gateway.{key_eq}
use superdev.Transport.{
  typed_details, transport_error, emit_notification, has_room, transport_notification, fail_pending,
  fail_transport, check_send, transmit, send, CallError, CodexConnection, ConnectionDeps, failed,
}
use superdev.Transport.Serving.{queue_server_request, fail_receive}
use superdev.Transport.Correlation.{
  Follows-refl, Follows-trans, lookup-put_all, awaiting-some, IsCorrelated, Follows,
}

-- What is changed elsewhere than in the queues.
pub aside :
    (diagnostics : List String) (notifications : List Fields)
    (approval_queue : List (Option Fields)) (c : CodexConnection)
    → Follows c (record c {
      diagnostics = diagnostics;
      notifications = notifications;
      approval_queue = approval_queue;
    })
aside diagnostics notifications approval_queue c = record {
  correlated = λ p. record { drawn = p.drawn; waiting = p.waiting; own = p.own; ended = p.ended };
  final = λ h. (h, refl);
}

-- A test in the code.
pub branch :
    {c x y : CodexConnection} (b : Bool)
    → (b ≡ true → Follows c x)
    → (b ≡ false → Follows c y)
    → Follows c (if b then x else y)
branch true f g = f refl
branch false f g = g refl

-- A step with an outcome.
pub record FollowsTo {A : Type 0} (c : CodexConnection) (r : CodexConnection × A) : Type 0 where
  pub follows : Follows c r.0

pub branch_pair :
    {A : Type 0} {c : CodexConnection} {x y : CodexConnection × A} (b : Bool)
    → (b ≡ true → FollowsTo c x)
    → (b ≡ false → FollowsTo c y)
    → FollowsTo c (if b then x else y)
branch_pair true f g = f refl
branch_pair false f g = g refl

pub with_outcome :
    {A : Type 0} {c c' : CodexConnection} {a : A} → Follows c c' → FollowsTo c (c', a)
with_outcome p = record { follows = p }

module _ (deps : ConnectionDeps) where
  pub emit_notification-Follows :
      (message : Fields) (c : CodexConnection) → Follows c (emit_notification deps message c)
  unfolding emit_notification
  emit_notification-Follows message c = aside _ _ c.approval_queue c

  failed-IsCorrelated :
      (error : CallError) (c : CodexConnection)
      → IsCorrelated c
      → IsCorrelated (fail_pending error c)
  unfolding fail_pending
  failed-IsCorrelated error c p = record {
    drawn = λ j h. ground (
      arith,
      lookup-put_all c.pending j (failed error) c.queues,
      p.drawn j,
      awaiting-some (lookup j c.queues),
    );
    waiting = λ j. ground (arith, lookup-put_all c.pending j (failed error) c.queues, p.waiting j);
    own = λ j m h. ground (arith, lookup-put_all c.pending j (failed error) c.queues, p.own j m);
    ended = λ h j. refl;
  }

  pub fail_transport-Follows :
      (error : CallError) (c : CodexConnection) → Follows c (fail_transport deps error c)
  unfolding fail_transport
  fail_transport-Follows error c =
      branch c.closed (λ closed. Follows-refl c)
        (λ opened. record {
          correlated = λ p.
              (emit_notification-Follows (transport_notification error)
                  (fail_pending error c)).correlated
                (failed-IsCorrelated error c p);
          final = λ h. absurd (cc (h, opened));
        })

  pub transmit-Follows :
      (message : Fields) (c : CodexConnection) → FollowsTo c (transmit deps message c)
  unfolding transmit
  transmit-Follows message c = by_outcome (deps.send_raises message)
    where
      by_outcome :
          (raised : Option String)
          → FollowsTo c (elim raised as (λ _. CodexConnection × Option CallError) [
            | none ↦ (record c { sent = c.sent ++ (message ∷ []) }, none)
            | some type_name ↦
                let error =
                  transport_error (typed_details "Codex WebSocket send failed" type_name) in
                (fail_transport deps error c, some error)
          ])
      by_outcome none = with_outcome (record {
        correlated =
            λ p. record { drawn = p.drawn; waiting = p.waiting; own = p.own; ended = p.ended };
        final = λ h. (h, refl);
      })
      by_outcome (some type_name) = with_outcome (fail_transport-Follows _ c)

  pub send-Follows :
      (meanwhile : CodexConnection → CodexConnection) (message : Fields) (c : CodexConnection)
      → Follows c (meanwhile c)
      → FollowsTo c (send deps meanwhile message c)
  unfolding send
  send-Follows meanwhile message c others = by_check (check_send deps message c)
    where
      by_check :
          (refused : Option CallError)
          → FollowsTo c (elim refused as (λ _. CodexConnection × Option CallError) [
            | some error ↦ (c, some error)
            | none ↦ transmit deps message (meanwhile c)
          ])
      by_check (some error) = with_outcome (Follows-refl c)
      by_check none = record {
        follows = Follows-trans others (transmit-Follows message (meanwhile c)).follows;
      }

  pub queue_server_request-Follows :
      (message : Fields) (c : CodexConnection) → Follows c (queue_server_request deps message c)
  unfolding queue_server_request
  queue_server_request-Follows message c =
      branch (has_room c.approval_queue) (λ _. aside _ _ _ c) (λ _. fail_transport-Follows _ c)

  pub fail_receive-Follows :
      (type_name : String) (c : CodexConnection) → Follows c (fail_receive deps type_name c)
  unfolding fail_receive
  fail_receive-Follows type_name c =
      branch (not c.connected) (λ _. Follows-refl c) (λ _. fail_transport-Follows _ c)
