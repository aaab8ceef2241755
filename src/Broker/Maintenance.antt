-- ===== src/Broker/Maintenance.antt =====
-- broker.py: `MaintenanceCoordinator`, from a drained gate to the teardown of what the service owns;
-- and `terminate_owned` of service.py.
use superdev.Base.{
  ltb, if◌then◌else◌, string_eq, ◌==◌, nat_eq, pair_eq, option_string_eq, length, keep, contains,
  ◌>>=◌, Result, ok, err, ℕ, String, Bool, true, false, not, ◌&&◌, Option, none, some, List, [],
  ◌∷◌,
}
use superdev.Models.{SessionRecord}
use superdev.Models.Maintenance.{
  is_below, worker_impact, maintenance_result, refused, completed, ActiveThreadItem,
  ActiveInventory, WorkerImpact, MaintenanceResult,
}
use superdev.Gateway.{
  key_eq, issue_lease, end_drain, authorize, GateError, DrainLease, ServiceMaintenanceGate,
}
use superdev.Transport.{call_error}
use superdev.Broker.Inventory.{list_active_threads, InventoryError, AppServer, upstream}

pub data MaintenanceError : Type 0 where
  value_error : String → MaintenanceError
  teardown_incomplete : String → MaintenanceError
  inventory_failed : InventoryError → MaintenanceError
  not_authorized : GateError → MaintenanceError

-- What a maintenance finds: the service and the app server, with the looks at the clock before the
-- deadline of the inventory; whether the thread of a forced inventory is still alive at its own
-- deadline; the records of the registry; and the cause of an `OwnedTeardownError`, if the teardown
-- raises it.
pub record MaintenanceHost : Type 0 where
  pub is_public : String → Bool
  pub stopping : Bool
  pub server : AppServer
  pub list_looks : ℕ
  pub read_looks : ℕ
  pub times_out : Bool
  pub records : List SessionRecord
  pub teardown_error : Option String

-- What a maintenance does: whether it tears the service down, and what it returns or raises.
pub record MaintenanceOutcome : Type 0 where
  pub terminated : Bool
  pub result : Result MaintenanceError MaintenanceResult

-- `MaintenanceResult.unavailable`
unfoldable pub unavailable :
    (String → Bool) → String → String → Bool → Option String → Result String MaintenanceResult
unfolding maintenance_result
unavailable is_public action status forced listener = maintenance_result is_public (record {
  action = action;
  status = status;
  forced = forced;
  listener = listener;
  inventory = none;
  workers = none;
  durable_state = "preserved";
  impact_unavailable_reason = some "upstream_inventory_unavailable";
})

-- `sorted` of a set of names
abbrev pub place_name : String → List String → List String
place_name n [] = n ∷ []
place_name n (m ∷ ms) =
    let rest = place_name n ms in
    if n == m then m ∷ ms else if is_below n m then n ∷ m ∷ ms else m ∷ rest

unfoldable pub sorted_set : List String → List String
sorted_set [] = []
sorted_set (n ∷ ns) = place_name n (sorted_set ns)

-- `sorted` of a list of names
abbrev pub insert_name : String → List String → List String
insert_name n [] = n ∷ []
insert_name n (m ∷ ms) =
    let rest = insert_name n ms in if is_below m n then m ∷ rest else n ∷ m ∷ ms

unfoldable pub sorted_names : List String → List String
sorted_names [] = []
sorted_names (n ∷ ns) = insert_name n (sorted_names ns)

abbrev pub present : List (Option String) → List String
present [] = []
present (none ∷ names) = present names
present (some n ∷ names) = n ∷ present names

abbrev pub record_names : List SessionRecord → List (Option String)
record_names [] = []
record_names (r ∷ rs) = r.name ∷ record_names rs

abbrev pub item_workers : List ActiveThreadItem → List (Option String)
item_workers [] = []
item_workers (i ∷ is) = i.worker ∷ item_workers is

-- The impact on the workers, from the inventory and the registry
unfoldable pub impact_of : ActiveInventory → List SessionRecord → Result String WorkerImpact
unfolding sorted_set worker_impact
impact_of inventory records =
    let all_names = present (record_names records) in
    let active_names = present (item_workers inventory.items) in
    worker_impact (record {
      active_names = sorted_set active_names;
      idle_names = sorted_set (keep (λ n. not (contains n active_names)) all_names);
    })

-- `_bounded_force_inventory`, and the plain inventory
unfoldable pub take_inventory : Bool → MaintenanceHost → Result InventoryError ActiveInventory
unfolding list_active_threads
take_inventory force host =
    if force && host.times_out
    then err (upstream (call_error "inventory_timeout" "thread/list" none))
    else list_active_threads host.server host.list_looks host.read_looks host.records

abbrev pub as_value {ℓ} : {A : Type ℓ} → Result String A → Result MaintenanceError A
as_value (ok a) = ok a
as_value (err why) = err (value_error why)

abbrev pub reports : Result String MaintenanceResult → MaintenanceOutcome
reports result = record { terminated = false; result = as_value result }

-- `_terminate_owned`, with `terminate_owned` of the service, and what is returned after it
unfoldable pub terminate :
    MaintenanceHost
    → DrainLease
    → ServiceMaintenanceGate
    → Result String MaintenanceResult
    → MaintenanceOutcome
unfolding authorize
terminate host lease g result = elim (authorize lease g) [
  | err error ↦ record { terminated = false; result = err (not_authorized error) }
  | ok _ ↦ record {
    terminated = true;
    result = elim host.teardown_error [
      | some cause ↦ err (teardown_incomplete cause)
      | none ↦ as_value result
    ];
  }
]

-- The maintenance of an inventory that has been taken
unfoldable pub maintain_inventory :
    MaintenanceHost
    → String
    → Option String
    → Bool
    → DrainLease
    → ServiceMaintenanceGate
    → ActiveInventory
    → MaintenanceOutcome
unfolding terminate impact_of refused completed
maintain_inventory host action listener force lease g inventory =
    elim (impact_of inventory host.records) [
      | err why ↦ reports (err why)
      | ok workers ↦
          if ltb 0 (length inventory.items) && not force
          then reports (refused host.is_public inventory action listener (some workers))
          else terminate host lease g
              (completed host.is_public action inventory force listener (some workers))
    ]

-- The body of `_maintain` under its lease
unfoldable pub maintain_leased :
    MaintenanceHost
    → String
    → Option String
    → Bool
    → DrainLease
    → ServiceMaintenanceGate
    → MaintenanceOutcome
unfolding terminate take_inventory unavailable maintain_inventory completed worker_impact
    sorted_names
maintain_leased host action listener force lease g =
    if force && not (g.active_mutations == 0)
    then terminate host lease g (unavailable host.is_public action "completed" true listener)
    else if host.stopping
    then terminate host lease g (
        worker_impact (record {
          active_names = [];
          idle_names = sorted_names (present (record_names host.records));
        })
        >>= λ workers.
            completed host.is_public action (record { items = [] }) force listener (some workers))
    else elim (take_inventory force host) [
      | err (upstream error) ↦
          if force
          then terminate host lease g (unavailable host.is_public action "completed" true listener)
          else reports (unavailable host.is_public action "refused" false listener)
      | err error ↦ record { terminated = false; result = err (inventory_failed error) }
      | ok inventory ↦ maintain_inventory host action listener force lease g inventory
    ]

-- `_maintain` once it has claimed the drain: `none` while it waits for mutations. The gate after it
-- has ended the drain, on whatever path. No mutation leaves the gate meanwhile.
unfoldable pub maintain :
    MaintenanceHost
    → String
    → Option String
    → Bool
    → ServiceMaintenanceGate
    → Option (ServiceMaintenanceGate × MaintenanceOutcome)
unfolding issue_lease maintain_leased end_drain
maintain host action listener force g = elim (issue_lease force g) [
  | none ↦ none
  | some (drained, lease) ↦
      some (end_drain lease drained, maintain_leased host action listener force lease drained)
]

-- `stop`
unfoldable pub stop_service :
    MaintenanceHost
    → Bool
    → ServiceMaintenanceGate
    → Option (ServiceMaintenanceGate × MaintenanceOutcome)
unfolding maintain
stop_service host force g = maintain host "stop" none force g

-- `restart`: a listener that is not public is refused before the gate is drained.
unfoldable pub restart_service :
    MaintenanceHost
    → String
    → Bool
    → ServiceMaintenanceGate
    → Result String (Option (ServiceMaintenanceGate × MaintenanceOutcome))
unfolding maintain
restart_service host listener force g =
    if not (host.is_public listener)
    then err "invalid listener"
    else ok (maintain host "restart" (some listener) force g)
