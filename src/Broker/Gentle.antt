-- ===== src/Broker/Gentle.antt =====
-- What a maintenance of broker.py promises to the turns that are running.
use superdev.Base.{
  ltb, string_eq, nat_eq, pair_eq, option_string_eq, Bool-cases, Option-cases, length, contains,
  Result-cases, Result, ok, err, String, ◌≡◌, refl, sym, ap, ◌∙◌, ◌⊎◌, inl, inr, true, false,
  Option, none, some, List, [], ◌∷◌, arith,
}
use superdev.Models.Maintenance.{item_threads, ActiveThreadItem, ActiveInventory}
use superdev.Gateway.{key_eq, issue_lease, end_drain, DrainLease, ServiceMaintenanceGate}
use superdev.Gateway.Draining.{issue_lease-effect}
use superdev.Broker.Inventory.{
  ListedThread, InventoryError, AppServer, upstream, invalid, attribute_error,
}
use superdev.Broker.Listing.{is_active_in, list_active_threads_complete, Pages}
use superdev.Broker.Maintenance.{
  unavailable, impact_of, take_inventory, reports, maintain_inventory, maintain_leased, maintain,
  MaintenanceHost, MaintenanceOutcome, inventory_failed,
}

maintain_inventory-idle :
    (host : MaintenanceHost) (action : String) (listener : Option String) (lease : DrainLease)
    (g : ServiceMaintenanceGate) (inventory : ActiveInventory)
    → (maintain_inventory host action listener false lease g inventory).terminated ≡ true
    → ltb 0 (length inventory.items) ≡ false
unfolding maintain_inventory
maintain_inventory-idle host action listener lease g inventory h =
    elim (Result-cases (impact_of inventory host.records)) [
      | inr (why, e) ↦ cc (rw (e, maintain_inventory) at h)
      | inl (workers, e) ↦ elim (Bool-cases (ltb 0 (length inventory.items))) [
        | inl busy ↦ cc (rw (e, busy, maintain_inventory) at h)
        | inr idle ↦ idle
      ]
    ]

no_items :
    (items : List ActiveThreadItem)
    → ltb 0 (length items) ≡ false
    → (id : String) → contains id (item_threads items) ≡ false
no_items [] h id = refl
no_items (i ∷ is) h id = ground (arith, h)

-- What the app server lists has no active thread.
abbrev pub NoneActive : AppServer → Type 0
NoneActive server =
    (threads : List ListedThread) × Pages server 0 none threads
    × ((id : String) → is_active_in id threads ≡ false)

taken-NoneActive :
    (host : MaintenanceHost) (inventory : ActiveInventory)
    → take_inventory false host ≡ ok inventory
    → ltb 0 (length inventory.items) ≡ false
    → NoneActive host.server
unfolding take_inventory
taken-NoneActive host inventory taken idle =
    let (threads, pages, same, _) =
      list_active_threads_complete host.server host.list_looks host.read_looks host.records taken in
    (threads, pages, λ id. sym (same id) ∙ no_items inventory.items idle id)

maintain_leased-gentle :
    (host : MaintenanceHost) (action : String) (listener : Option String) (lease : DrainLease)
    (g : ServiceMaintenanceGate)
    → (maintain_leased host action listener false lease g).terminated ≡ true
    → (host.stopping ≡ true) ⊎ NoneActive host.server
unfolding maintain_leased
maintain_leased-gentle host action listener lease g h = elim (Bool-cases host.stopping) [
  | inl stopping ↦ inl stopping
  | inr running ↦
      inr (by_inventory (take_inventory false host) refl (rw (running, maintain_leased) at h))
]
  where
    by_inventory :
        (r : Result InventoryError ActiveInventory)
        → take_inventory false host ≡ r
        → (elim r as (λ _. MaintenanceOutcome) [
          | err (upstream error) ↦
              reports (unavailable host.is_public action "refused" false listener)
          | err error ↦ record { terminated = false; result = err (inventory_failed error) }
          | ok inventory ↦ maintain_inventory host action listener false lease g inventory
        ]).terminated
          ≡ true
        → NoneActive host.server
    by_inventory (ok inventory) e t =
        taken-NoneActive host inventory e
          (maintain_inventory-idle host action listener lease g inventory t)
    by_inventory (err (upstream error)) e t = cc
    by_inventory (err (invalid why)) e t = cc
    by_inventory (err attribute_error) e t = cc

-- A maintenance that is not forced tears the service down only when no mutation was active at the
-- gate and, unless the service is stopping already, no thread was active on any of the pages that
-- the app server gave; and it leaves the gate open again.
pub maintain-gentle :
    (host : MaintenanceHost) (action : String) (listener : Option String)
    (g : ServiceMaintenanceGate) {g' : ServiceMaintenanceGate} {outcome : MaintenanceOutcome}
    → maintain host action listener false g ≡ some (g', outcome)
    → outcome.terminated ≡ true
    → (g.active_mutations ≡ 0)
      × ((host.stopping ≡ true) ⊎ NoneActive host.server)
      × (g'.draining ≡ false)
unfolding maintain end_drain
maintain-gentle host action listener g {g'} {outcome} h t =
    elim (Option-cases (issue_lease false g)) [
      | inl waits ↦ cc (rw (waits, maintain) at h)
      | inr ((drained, lease), issued) ↦
          let e : ◌≡◌ {A = ServiceMaintenanceGate × MaintenanceOutcome}
              (end_drain lease drained, maintain_leased host action listener false lease drained)
              (g', outcome) =
            cc (rw (issued, maintain) at h) in
          (
            (issue_lease-effect false g issued).0 refl,
            maintain_leased-gentle host action listener lease drained
                (ap (λ (p : ServiceMaintenanceGate × MaintenanceOutcome). p.1.terminated) e ∙ t),
            ap (λ (p : ServiceMaintenanceGate × MaintenanceOutcome). p.0.draining) (sym e),
          )
    ]
