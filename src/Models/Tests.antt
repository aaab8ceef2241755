-- ===== src/Models/Tests.antt =====
-- models.py on concrete values.
use superdev.Base.{
  string_eq, nat_eq, pair_eq, option_string_eq, ok, err, ◌≡◌, refl, true, false, none, some, [],
  ◌∷◌,
}
use superdev.Models.{SessionRecord}
use superdev.Models.Config.{is_thread_config}
use superdev.Models.Wire.{session_to_dict, session_from_dict, session_from_dict-session_to_dict}
use superdev.Json.{Fields, null, text, obj, done, field}
use superdev.Models.Maintenance.{
  active_thread_item, active_inventory, worker_impact, refused, completed, is_ok, stop-decided,
  ActiveInventory,
}

abbrev busy_inventory : ActiveInventory
busy_inventory = record {
  items =
      record {
        thread_id = "t1";
        origin = "worker";
        worker = some "worker";
        session_id = some "s1";
        turn_id = "u1";
        active_flags = [];
      }
      ∷ [];
}

busy_inventory_built : active_inventory busy_inventory.items ≡ ok busy_inventory
unfolding active_inventory
busy_inventory_built = refl

unmapped_with_session :
    active_thread_item (record {
      thread_id = "t1";
      origin = "unmapped_tui";
      worker = none;
      session_id = some "s1";
      turn_id = "u1";
      active_flags = [];
    })
    ≡ err "unmapped TUI activity cannot carry worker identity"
unfolding active_thread_item
unmapped_with_session = refl

names_out_of_order :
    worker_impact (record { active_names = "b" ∷ "a" ∷ []; idle_names = [] })
    ≡ err "worker impact names must be unique and sorted"
unfolding worker_impact
names_out_of_order = refl

stop-decided_example :
    (is_ok (refused (λ l. true) busy_inventory "stop" none none) ≡ true)
    × (is_ok (completed (λ l. true) "stop" busy_inventory false none none) ≡ false)
    × (is_ok (completed (λ l. true) "stop" busy_inventory true none none) ≡ true)
stop-decided_example = stop-decided (λ l. true) busy_inventory none

-- A record of the first version: no tier, no access and no config.
abbrev old_object : Fields
old_object = field "session_id" (text "s1") (
    field "thread_id" (text "t1") (
      field "cwd" (text "/work") (
        field "created_at" (text "now") (
          field "updated_at" (text "now") (
            field "name" (text "worker-1")
              (field "model" null (field "effort" (text "high") done)))))))

abbrev old_record : SessionRecord
old_record = record {
  session_id = "s1";
  thread_id = "t1";
  cwd = "/work";
  created_at = "now";
  updated_at = "now";
  name = some "worker-1";
  model = none;
  effort = some "high";
  tier = none;
  access = none;
  config = none;
}

old_object_read : session_from_dict (obj old_object) ≡ ok old_record
unfolding session_from_dict is_thread_config
old_object_read = refl

session_from_dict-session_to_dict_example :
    session_from_dict (obj (session_to_dict old_record)) ≡ ok old_record
session_from_dict-session_to_dict_example =
    session_from_dict-session_to_dict (obj old_object) old_record old_object_read
