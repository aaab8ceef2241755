-- ===== src/Registry/Tests.antt =====
-- registry.py on a concrete registry.
use superdev.Base.{
  ◌==◌, nat_eq, string_eq, pair_eq, option_string_eq, ok, err, ◌≡◌, refl, true, not, Option, none,
  some, [], ◌∷◌,
}
use superdev.Models.{SessionRecord, session_selector, thread_selector}
use superdev.Models.Config.{is_thread_config}
use superdev.Registry.{
  is_worker_name, are_unique, try_resolve, resolve, check_creation, created_record, create,
  update_annotations, Host, Creation, registry_conflict,
}
use superdev.Registry.Identity.{try_resolve-returns}
use superdev.Registry.Creating.{create-keeps_unique}
use superdev.Registry.Updating.{SameIdentities, update_annotations-keeps_identities}

abbrev plain_host : Host
plain_host = record { canonical_dir = λ path. some path; is_uuid = λ s. not (s == "") }

abbrev first_creation : Creation
first_creation = record {
  thread_id = "t1";
  cwd = "/work";
  name = some "worker";
  tier = none;
  model = some "m";
  effort = none;
  access = some "full";
  session_id = none;
  config = none;
}

abbrev first_record : SessionRecord
first_record = created_record "id-1" "/work" "now" first_creation

create_runs :
    create plain_host "id-1" "now" first_creation [] ≡ ok (first_record ∷ [], first_record)
unfolding create check_creation is_worker_name is_thread_config
create_runs = refl

-- The same name again.
clash_runs :
    create plain_host "id-2" "now" (record first_creation { thread_id = "t2" }) (first_record ∷ [])
    ≡ err (registry_conflict "duplicate session, thread, or worker name identifier")
unfolding create check_creation is_worker_name is_thread_config
clash_runs = refl

nothing_unique : are_unique [] ≡ true
unfolding are_unique
nothing_unique = refl

first_unique : are_unique (first_record ∷ []) ≡ true
unfolding are_unique
first_unique = refl

create-keeps_unique_example :
    (are_unique (first_record ∷ []) ≡ true)
    × (resolve (session_selector "id-1") (first_record ∷ []) ≡ ok first_record)
    × (resolve (thread_selector "t1") (first_record ∷ []) ≡ ok first_record)
create-keeps_unique_example =
    create-keeps_unique plain_host "id-1" "now" first_creation [] (first_record ∷ []) first_record
      nothing_unique create_runs

try_resolve-returns_example :
    (o : Option SessionRecord) × (try_resolve (session_selector "id-1") (first_record ∷ []) ≡ ok o)
try_resolve-returns_example =
    try_resolve-returns (session_selector "id-1") (first_record ∷ []) first_unique

abbrev tuned_record : SessionRecord
tuned_record = record first_record { updated_at = "later"; model = some "m2" }

update_runs :
    update_annotations "later" "id-1" (some "m2") none (first_record ∷ [])
    ≡ ok (tuned_record ∷ [], tuned_record)
unfolding update_annotations resolve try_resolve
update_runs = refl

update_annotations-keeps_identities_example :
    SameIdentities (tuned_record ∷ []) (first_record ∷ []) × (are_unique (tuned_record ∷ []) ≡ true)
update_annotations-keeps_identities_example =
    update_annotations-keeps_identities "later" "id-1" (some "m2") none (first_record ∷ [])
      (tuned_record ∷ []) tuned_record first_unique update_runs
