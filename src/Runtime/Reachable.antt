-- ===== src/Runtime/Reachable.antt =====
-- Every method of runtime.py that changes the store, as a step, in any order.
use mathlib.Core.Path.{subst}
use superdev.Base.{
  string_eq, ◌==◌, nat_eq, pair_eq, option_string_eq, Bool-cases, ok_inj, Ensures-eq-ok, ok, ℕ,
  String, ◌≡◌, inl, inr,
}
use superdev.Json.{Json}
use superdev.Models.{ErrorDetail, TurnSnapshot, RuntimeStatus, SessionRecord}
use superdev.Runtime.{runtime_store, add_terminal_observer, RuntimeStore}
use superdev.Runtime.Starts.{attach, reserve_start, cancel_start, reconcile_start}
use superdev.Runtime.Notify.{detach_all, on_notification}
use superdev.Runtime.Reconcile.{reconcile_thread}
use superdev.Runtime.Reads.{release_terminal_snapshot}
use superdev.Runtime.Store.{
  reserve_start-IsConsistent, cancel_start-IsConsistent, release_terminal_snapshot-IsConsistent,
  reconcile_start-IsConsistent, attach-IsConsistent, IsConsistent,
}
use superdev.Runtime.Publication.{
  detach_all-IsConsistent, on_notification-IsConsistent, reconcile_thread-IsConsistent,
}

module _ (react : ℕ → String → TurnSnapshot → RuntimeStore → RuntimeStore)
    (str : Json → String) where
  pub data RuntimeStep : RuntimeStore → RuntimeStore → Type 0 where
    attached :
        {s s' : RuntimeStore} (session : SessionRecord)
        → attach session s ≡ ok s'
        → RuntimeStep s s'
    observed : {s : RuntimeStore} (o : ℕ) → RuntimeStep s (add_terminal_observer o s)
    start_reserved :
        {s s' : RuntimeStore} (k : String) → reserve_start k s ≡ ok s' → RuntimeStep s s'
    start_cancelled :
        {s s' : RuntimeStore} (k : String) → cancel_start k s ≡ ok s' → RuntimeStep s s'
    start_answered :
        {s : RuntimeStore} (k returned : String) → RuntimeStep s (reconcile_start k returned s).0
    notified :
        {s s' : RuntimeStore} (message : Json)
        → on_notification str react message s ≡ ok s'
        → RuntimeStep s s'
    detached : {s : RuntimeStore} (reason : ErrorDetail) → RuntimeStep s (detach_all react reason s)
    read_again :
        {s : RuntimeStore} {r : RuntimeStore × RuntimeStatus} (thread : Json)
        → reconcile_thread react thread s ≡ ok r
        → RuntimeStep s r.0
    snapshot_released :
        {s s' : RuntimeStore} (k t : String)
        → release_terminal_snapshot k t s ≡ ok s'
        → RuntimeStep s s'

  pub data RuntimeSteps : RuntimeStore → RuntimeStore → Type 0 where
    no_step : {s : RuntimeStore} → RuntimeSteps s s
    one_more :
        {s s' s'' : RuntimeStore} → RuntimeStep s s' → RuntimeSteps s' s'' → RuntimeSteps s s''

  module _
      (polite : (o : ℕ) (k : String) (t : TurnSnapshot) (s : RuntimeStore)
        → IsConsistent s
        → IsConsistent (react o k t s)) where
    RuntimeStep-IsConsistent :
        {s s' : RuntimeStore} → RuntimeStep s s' → IsConsistent s → IsConsistent s'
    unfolding add_terminal_observer
    RuntimeStep-IsConsistent (attached session h) c = attach-IsConsistent c session h
    RuntimeStep-IsConsistent (observed o) c = record {
      valid = c.valid;
      keyed = c.keyed;
      routed = c.routed;
      owned = c.owned;
    }
    RuntimeStep-IsConsistent (start_reserved k h) c = reserve_start-IsConsistent c k h
    RuntimeStep-IsConsistent (start_cancelled k h) c = cancel_start-IsConsistent c k h
    RuntimeStep-IsConsistent (start_answered k returned) c =
        reconcile_start-IsConsistent c k returned
    RuntimeStep-IsConsistent {s} (notified message h) c =
        Ensures-eq-ok IsConsistent (on_notification str react message s)
          (on_notification-IsConsistent react polite str message c) h
    RuntimeStep-IsConsistent {s} (detached reason) c =
        detach_all-IsConsistent react polite str reason s c
    RuntimeStep-IsConsistent {s} (read_again thread h) c =
        Ensures-eq-ok (λ p. IsConsistent p.0) (reconcile_thread react thread s)
          (reconcile_thread-IsConsistent react polite str thread c) h
    RuntimeStep-IsConsistent (snapshot_released k t h) c =
        release_terminal_snapshot-IsConsistent c k t h

    steps-IsConsistent :
        {s s' : RuntimeStore} → RuntimeSteps s s' → IsConsistent s → IsConsistent s'
    steps-IsConsistent no_step c = c
    steps-IsConsistent (one_more first rest) c =
        steps-IsConsistent rest (RuntimeStep-IsConsistent first c)

    runtime_store-IsConsistent :
        (limit : ℕ) {s : RuntimeStore} → runtime_store limit ≡ ok s → IsConsistent s
    unfolding runtime_store
    runtime_store-IsConsistent limit h = elim (Bool-cases (limit == 0)) [
      | inl bad ↦ cc (rw (bad, runtime_store) at h)
      | inr good ↦
          subst (λ s. IsConsistent s) (ok_inj (rw (good, runtime_store) at h))
            (record {
              valid = λ k r h. cc h;
              keyed = λ k r h. cc h;
              routed = λ k r h. cc h;
              owned = λ t k h. cc h;
            })
    ]

    -- Whatever methods are called on a new store, in whatever order, with observers that keep the
    -- store consistent themselves: each session is valid and stands under its own id, and a thread
    -- leads to the one session that has it.
    pub reached-IsConsistent :
        (limit : ℕ) {s s' : RuntimeStore}
        → runtime_store limit ≡ ok s
        → RuntimeSteps s s'
        → IsConsistent s'
    reached-IsConsistent limit new steps =
        steps-IsConsistent steps (runtime_store-IsConsistent limit new)
