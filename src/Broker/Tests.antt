-- ===== src/Broker/Tests.antt =====
-- broker.py: a maintenance with two pages of threads.
use superdev.Base.{
  if◌then◌else◌, string_eq, ◌==◌, nat_eq, pair_eq, option_string_eq, contains, all_distinct, ok,
  err, String, ◌≡◌, refl, ◌⊎◌, Bool, true, false, Option, none, some, List, [], ◌∷◌,
}
use superdev.Json.{Json, Items, null, bool, text, arr, obj, nil, cons, done, field}
use superdev.Models.{SessionRecord}
use superdev.Transport.{call_error}
use superdev.Models.Maintenance.{ActiveInventory}
use superdev.Gateway.{key_eq, new_gate, ServiceMaintenanceGate}
use superdev.Broker.Inventory.{
  page_error, ListedThread, inventory_page, collect, list_pages, list_active_threads, AppServer,
}
use superdev.Broker.Listing.{is_active_in, list_active_threads_complete, Pages}
use superdev.Broker.Maintenance.{maintain, stop_service, MaintenanceHost, MaintenanceOutcome}
use superdev.Broker.Gentle.{NoneActive, maintain-gentle}
use superdev.Broker.Starting.{start_turn, StartHost, model_selection}
use superdev.Broker.Reserving.{AreReleased, start_turn-releases}
use superdev.Runtime.{new_runtime, RuntimeStore}

abbrev idle_thread : String → Json
idle_thread id =
    obj (field "id" (text id) (field "status" (obj (field "type" (text "idle") done)) done))

abbrev active_thread : String → Json
active_thread id = obj (
    field "id" (text id) (
      field "status" (obj (field "type" (text "active") (field "activeFlags" (arr nil) done)))
        done))

abbrev page : Items → Json → Json
page threads next =
    obj (field "data" (arr threads) (field "nextCursor" next (field "backwardsCursor" null done)))

abbrev read_thread_answer : String → Json
read_thread_answer id = obj (
    field "thread"
      (obj (
        field "id" (text id) (
          field "status" (obj (field "type" (text "active") done)) (
            field "turns"
              (arr (
                cons (obj (field "id" (text "turn-1") (field "status" (text "inProgress") done)))
                  nil))
              done))))
      done)

-- Two pages, of which the second has `last`.
abbrev pages_with : Json → AppServer
pages_with last = record {
  thread_list = λ page_number cursor.
      if page_number == 0
      then ok (page (cons (idle_thread "thread-1") nil) (text "next"))
      else ok (page (cons last nil) null);
  thread_read = λ id. ok (read_thread_answer id);
}

abbrev host_of : AppServer → MaintenanceHost
host_of server = record {
  is_public = λ l. true;
  stopping = false;
  server = server;
  list_looks = 5;
  read_looks = 5;
  times_out = false;
  records = [];
  teardown_error = none;
}

abbrev claimed : ServiceMaintenanceGate
claimed = record (new_gate 1) { draining = true }

abbrev busy_inventory : ActiveInventory
busy_inventory = record {
  items =
      record {
        thread_id = "thread-2";
        origin = "unmapped_tui";
        worker = none;
        session_id = none;
        turn_id = "turn-1";
        active_flags = [];
      }
      ∷ [];
}

listed : list_active_threads (pages_with (active_thread "thread-2")) 5 5 [] ≡ ok busy_inventory
unfolding list_active_threads inventory_page collect
listed = refl

list_active_threads_complete_example :
    (threads : List ListedThread) × Pages (pages_with (active_thread "thread-2")) 0 none threads
    × ((id : String) → contains {A = String} id ("thread-2" ∷ []) ≡ is_active_in id threads)
    × (all_distinct {A = String} ("thread-2" ∷ []) ≡ true)
list_active_threads_complete_example =
    list_active_threads_complete (pages_with (active_thread "thread-2")) 5 5 [] listed

abbrev outcome_of : Option (ServiceMaintenanceGate × MaintenanceOutcome) → Option Bool
outcome_of none = none
outcome_of (some (g, o)) = some o.terminated

abbrev gate_after : Option (ServiceMaintenanceGate × MaintenanceOutcome) → ServiceMaintenanceGate
gate_after none = claimed
gate_after (some (g, o)) = g

abbrev quiet_stop : Option (ServiceMaintenanceGate × MaintenanceOutcome)
quiet_stop = maintain (host_of (pages_with (idle_thread "thread-2"))) "stop" none false claimed

maintain-gentle_example :
    (claimed.active_mutations ≡ 0)
    × ((false ≡ true) ⊎ NoneActive (pages_with (idle_thread "thread-2")))
    × ((gate_after quiet_stop).draining ≡ false)
unfolding maintain inventory_page collect
maintain-gentle_example =
    maintain-gentle (host_of (pages_with (idle_thread "thread-2"))) "stop" none claimed refl refl

quiet_stop_terminates : outcome_of quiet_stop ≡ some true
unfolding maintain inventory_page collect
quiet_stop_terminates = refl

busy_stop_refused :
    outcome_of (stop_service (host_of (pages_with (active_thread "thread-2"))) false claimed)
    ≡ some false
unfolding stop_service inventory_page collect
busy_stop_refused = refl

busy_stop_forced :
    outcome_of (stop_service (host_of (pages_with (active_thread "thread-2"))) true claimed)
    ≡ some true
unfolding stop_service inventory_page collect
busy_stop_forced = refl

-- A server that gives the same cursor again.
stuck_cursor :
    list_pages
      (record {
        thread_list = λ page_number cursor. ok (page nil (text "next"));
        thread_read = λ id. ok null;
      })
      5
      0
      none
      []
      []
    ≡ err (page_error "thread inventory cursor did not progress")
unfolding list_pages inventory_page
stuck_cursor = refl

abbrev some_session : SessionRecord
some_session = record {
  session_id = "s1";
  thread_id = "t1";
  cwd = "/work";
  created_at = "now";
  updated_at = "now";
  name = none;
  model = none;
  effort = none;
  tier = none;
  access = none;
  config = none;
}

abbrev one_runtime : RuntimeStore
one_runtime = record {
  event_limit = 2;
  sessions = ("s1", new_runtime some_session) ∷ [];
  thread_sessions = ("t1", "s1") ∷ [];
  terminal_observers = [];
}

abbrev listed_model : Json
listed_model = obj (
    field "id" (text "big") (
      field "is_default" (bool true)
        (field "supported_efforts" (arr (cons (text "high") nil)) done)))

-- The app server takes the turn when it names the right model, and fails otherwise.
abbrev starter : StartHost
starter = record {
  list_models = ok (listed_model ∷ []);
  start_turn = λ model effort.
      if model == some "big" then ok "turn-1" else err (call_error "timeout" "turn/start" none);
  meanwhile = λ s. s;
}

start_turn-releases_example :
    ((start_turn starter some_session "go" (some "small") none one_runtime).0 ≡ one_runtime)
    ⊎ AreReleased "s1" (start_turn starter some_session "go" (some "small") none one_runtime).0
start_turn-releases_example =
    start_turn-releases starter some_session "go" (some "small") none one_runtime

-- An effort alone goes to the default model, which is then named to the app server.
default_model_started :
    (start_turn starter some_session "go" none (some "high") one_runtime).1 ≡ ok "turn-1"
unfolding start_turn new_runtime
default_model_started = refl

bad_effort_refused :
    (start_turn starter some_session "go" none (some "low") one_runtime).1
    ≡ err (model_selection "effort is not supported by selected live model")
unfolding start_turn new_runtime
bad_effort_refused = refl

-- The app server fails: the reservation is given up, so that the next start is not refused.
failed_start_again :
    (start_turn starter some_session "go" none
      (some "high")
      (start_turn starter some_session "go" none none one_runtime).0).1
    ≡ ok "turn-1"
unfolding start_turn new_runtime
failed_start_again = refl
