-- ===== src/Models/Maintenance.antt =====
-- codex_worker/models.py: the inventory of the active threads, the impact on the workers, and the
-- result of a maintenance action. A constructor that raises `ValueError` returns its message.
use Prim.Native.String.{compare}
use Prim.Native.Nat.{Ordering}
use superdev.Base.{
  ltb, leb, if◌then◌else◌, string_eq, ◌==◌, nat_eq, pair_eq, option_string_eq, Bool-cases, is_some,
  get_or, length, any, all, contains, all_distinct, raise_if, ◌>>◌, Result, ok, err, ℕ, String, ◌≡◌,
  refl, inl, inr, Bool, true, false, not, ◌&&◌, ◌||◌, Option, none, some, List, [], ◌∷◌,
}
use superdev.Models.Recovery.{codes}

pub record ActiveThreadItem : Type 0 where
  pub thread_id : String
  pub origin : String
  pub worker : Option String
  pub session_id : Option String
  pub turn_id : String
  pub active_flags : List String

abbrev pub is_blank : Option String → Bool
is_blank none = false
is_blank (some s) = s == ""

-- `[A-Za-z0-9][A-Za-z0-9._-]{0,127}` on the code points of a text
abbrev pub is_name_char : ℕ → Bool
is_name_char c = leb 48 c && leb c 57 || leb 65 c && leb c 90 || leb 97 c && leb c 122

abbrev pub is_worker_codes : List ℕ → Bool
is_worker_codes [] = false
is_worker_codes (c ∷ cs) =
    is_name_char c
    && all (λ d. is_name_char d || contains d (46 ∷ 95 ∷ 45 ∷ [])) cs
    && leb (length cs) 127

abbrev pub is_bad_worker : Option String → Bool
is_bad_worker none = false
is_bad_worker (some name) = not (is_worker_codes (codes name))

-- `ActiveThreadItem.__post_init__`
unfoldable pub active_thread_item : ActiveThreadItem → Result String ActiveThreadItem
active_thread_item i = do
  raise_if (i.thread_id == "") "active thread_id must be non-empty"
  raise_if (not (contains i.origin ("worker" ∷ "unmapped_tui" ∷ []))) "active origin is invalid"
  raise_if (is_bad_worker i.worker) "active worker must be non-empty when present"
  raise_if (is_blank i.session_id) "active session_id must be non-empty when present"
  raise_if (i.turn_id == "") "active turn_id must be non-empty"
  raise_if (any (λ f. f == "") i.active_flags) "active flags must be non-empty strings"
  raise_if (i.origin == "unmapped_tui" && (is_some i.worker || is_some i.session_id))
      "unmapped TUI activity cannot carry worker identity"
  raise_if (i.origin == "worker" && not (is_some i.session_id))
      "worker activity requires session identity"
  ok i

pub record ActiveInventory : Type 0 where
  pub items : List ActiveThreadItem

abbrev pub item_threads : List ActiveThreadItem → List String
item_threads [] = []
item_threads (i ∷ is) = i.thread_id ∷ item_threads is

-- `ActiveInventory.__post_init__`
unfoldable pub active_inventory : List ActiveThreadItem → Result String ActiveInventory
active_inventory is =
    if all_distinct (item_threads is)
    then ok (record { items = is })
    else err "inventory thread IDs must be unique"

abbrev pub is_below : String → String → Bool
is_below a b = elim (compare a b) [ Ordering.lt ↦ true | _ ↦ false ]

-- `list(values) == sorted(set(values))`
abbrev pub is_sorted_set : List String → Bool
is_sorted_set [] = true
is_sorted_set (a ∷ []) = true
is_sorted_set (a ∷ b ∷ bs) = is_below a b && is_sorted_set (b ∷ bs)

pub record WorkerImpact : Type 0 where
  pub active_names : List String
  pub idle_names : List String

-- `WorkerImpact.__post_init__`
unfoldable pub worker_impact : WorkerImpact → Result String WorkerImpact
worker_impact w = do
  raise_if (contains "" w.active_names) "worker impact names must be non-empty strings"
  raise_if (not (is_sorted_set w.active_names)) "worker impact names must be unique and sorted"
  raise_if (contains "" w.idle_names) "worker impact names must be non-empty strings"
  raise_if (not (is_sorted_set w.idle_names)) "worker impact names must be unique and sorted"
  raise_if (any (λ n. contains n w.idle_names) w.active_names)
      "active and idle worker names must be disjoint"
  ok w

pub record MaintenanceResult : Type 0 where
  pub action : String
  pub status : String
  pub forced : Bool
  pub listener : Option String
  pub inventory : Option ActiveInventory
  pub workers : Option WorkerImpact
  pub durable_state : String
  pub impact_unavailable_reason : Option String

abbrev pub has_items : Option ActiveInventory → Bool
has_items none = false
has_items (some v) = ltb 0 (length v.items)

-- The part of the checks that depends on whether the impact is known.
abbrev pub check_impact : MaintenanceResult → Result String (Unit {0})
check_impact m = elim m.impact_unavailable_reason [
  | none ↦
      raise_if (not (is_some m.inventory)) "maintenance inventory must be ActiveInventory"
      >> raise_if (not (is_some m.workers)) "maintenance workers must be WorkerImpact"
  | some reason ↦
      raise_if (not (reason == "upstream_inventory_unavailable"))
        "maintenance impact unavailable reason is invalid"
      >> raise_if (is_some m.inventory || is_some m.workers)
          "unavailable maintenance impact cannot carry inventory"
      >> raise_if (m.status == "completed" && not m.forced)
          "unavailable maintenance completion must be forced"
]

abbrev pub same_bool : Bool → Bool → Bool
same_bool true b = b
same_bool false b = not b

abbrev pub is_listener : (String → Bool) → Option String → Bool
is_listener is_public none = true
is_listener is_public (some l) = is_public l

-- `MaintenanceResult.__post_init__`; `is_public` is whether `validate_public_listener` of
-- service_domain.py returns.
unfoldable pub maintenance_result :
    (String → Bool) → MaintenanceResult → Result String MaintenanceResult
maintenance_result is_public m = do
  raise_if (not (contains m.action ("stop" ∷ "restart" ∷ []))) "maintenance action is invalid"
  raise_if (not (contains m.status ("refused" ∷ "completed" ∷ []))) "maintenance status is invalid"
  raise_if (is_blank m.listener) "maintenance listener must be non-empty when present"
  raise_if (same_bool (m.action == "stop") (is_some m.listener))
      "only restart maintenance carries a listener"
  raise_if (not (is_listener is_public m.listener)) "invalid listener"
  check_impact m
  raise_if (m.status == "refused" && m.forced) "maintenance refusal cannot be forced"
  raise_if
      (m.status == "refused"
        && not (is_some m.impact_unavailable_reason)
        && not (has_items m.inventory))
      "maintenance refusal requires active or unavailable impact"
  raise_if
      (m.status == "completed"
        && not (is_some m.impact_unavailable_reason)
        && has_items m.inventory
        && not m.forced)
      "active maintenance completion must be forced"
  raise_if (not (m.durable_state == "preserved")) "maintenance must preserve durable state"
  ok m

abbrev no_workers : WorkerImpact
no_workers = record { active_names = []; idle_names = [] }

-- `MaintenanceResult.refused`
unfoldable pub refused :
    (String → Bool)
    → ActiveInventory
    → String
    → Option String
    → Option WorkerImpact
    → Result String MaintenanceResult
refused is_public inventory action listener workers = maintenance_result is_public (record {
  action = action;
  status = "refused";
  forced = false;
  listener = listener;
  inventory = some inventory;
  workers = some (get_or workers no_workers);
  durable_state = "preserved";
  impact_unavailable_reason = none;
})

-- `MaintenanceResult.completed`
unfoldable pub completed :
    (String → Bool)
    → String
    → ActiveInventory
    → Bool
    → Option String
    → Option WorkerImpact
    → Result String MaintenanceResult
completed is_public action inventory forced listener workers =
    maintenance_result is_public (record {
      action = action;
      status = "completed";
      forced = forced;
      listener = listener;
      inventory = some inventory;
      workers = some (get_or workers no_workers);
      durable_state = "preserved";
      impact_unavailable_reason = none;
    })

-- Whether a constructor returns.
abbrev pub is_ok {ℓ} : {A : Type ℓ} → Result String A → Bool
is_ok (ok a) = true
is_ok (err m) = false

-- A stop of active threads is either refused or forced: the refusal of a stop can be built exactly
-- when the inventory has items, its completion without force exactly when it has none, and a forced
-- completion always.
pub stop-decided :
    (is_public : String → Bool) (inventory : ActiveInventory) (workers : Option WorkerImpact)
    → (is_ok (refused is_public inventory "stop" none workers) ≡ ltb 0 (length inventory.items))
      × (is_ok (completed is_public "stop" inventory false none workers)
          ≡ not (ltb 0 (length inventory.items)))
      × (is_ok (completed is_public "stop" inventory true none workers) ≡ true)
unfolding refused completed maintenance_result
stop-decided is_public inventory workers = elim (Bool-cases (ltb 0 (length inventory.items))) [
  | inl busy ↦ rw busy (refl, refl, refl)
  | inr idle ↦ rw idle (refl, refl, refl)
]
