-- ===== src/Registry.antt =====
-- codex_worker/registry.py: the registry of the sessions. A write replaces the whole file; a call
-- that raises leaves the file and the records as they were.
pub mod Identity
pub mod Creating
pub mod Updating
mod Tests
use package.text.Mathlib.Text.{starts_with}
use superdev.Base.{
  if◌then◌else◌, string_eq, ◌==◌, nat_eq, pair_eq, option_string_eq, is_some, get_or, keep, any,
  contains, all_distinct, ◌>>=◌, raise_if, ◌>>◌, map_result, Result, ok, err, String, Bool, false,
  not, ◌&&◌, ◌||◌, Option, none, some, List, [], ◌∷◌, ◌++◌,
}
use superdev.Json.{Fields}
use superdev.Models.{SessionRecord, IdentifierSelector, session_selector, thread_selector}
use superdev.Models.Maintenance.{is_worker_codes}
use superdev.Models.Recovery.{codes}
use superdev.Models.Config.{is_thread_config}

pub data RegistryError : Type 0 where
  registry_error registry_conflict : String → RegistryError

-- What the registry asks of its surroundings: the canonical path of a directory that exists, and
-- whether a text is a UUID.
pub record Host : Type 0 where
  pub canonical_dir : String → Option String
  pub is_uuid : String → Bool

-- `_WORKER_NAME_RE.fullmatch(name)`
unfoldable pub is_worker_name : String → Bool
is_worker_name name = is_worker_codes (codes name)

abbrev pub is_empty : Option String → Bool
is_empty none = false
is_empty (some s) = s == ""

abbrev pub is_policy : Option String → Option String → Bool
is_policy tier access =
    contains tier (none ∷ some "medium" ∷ some "very-smart" ∷ [])
    && contains access (none ∷ some "full" ∷ some "read_only" ∷ [])

abbrev pub is_bad_name : Option String → Bool
is_bad_name none = false
is_bad_name (some name) = not (is_worker_name name)

-- `[r.name for r in records if r.name is not None]`
abbrev pub names_of : List SessionRecord → List String
names_of [] = []
names_of (r ∷ rs) = let rest = names_of rs in elim r.name [ none ↦ rest | some n ↦ n ∷ rest ]

abbrev pub session_ids : List SessionRecord → List String
session_ids [] = []
session_ids (r ∷ rs) = r.session_id ∷ session_ids rs

abbrev pub thread_ids : List SessionRecord → List String
thread_ids [] = []
thread_ids (r ∷ rs) = r.thread_id ∷ thread_ids rs

-- `not (len({...}) != len(records) or ...)`, as `_decode` and `replace_all` check it
unfoldable pub are_unique : List SessionRecord → Bool
are_unique rs =
    all_distinct (session_ids rs) && all_distinct (thread_ids rs) && all_distinct (names_of rs)

-- `_record` on a record of the current schema: `to_dict` has all its fields. The time stamps and
-- the ids are texts.
unfoldable pub checked_record : Host → SessionRecord → Result RegistryError SessionRecord
checked_record host r = do
  raise_if (contains "" (r.session_id ∷ r.thread_id ∷ r.cwd ∷ r.created_at ∷ r.updated_at ∷ []))
      (registry_error "session record required fields must be strings")
  raise_if (is_bad_name r.name) (registry_error "worker name is invalid")
  raise_if (not (is_policy r.tier r.access)) (registry_error "common policy is invalid")
  raise_if (not (starts_with r.cwd "/")) (registry_error "cwd must be absolute")
  raise_if (not (host.is_uuid r.session_id)) (registry_error "session_id must be a UUID")
  elim (host.canonical_dir r.cwd) [
    | none ↦ err (registry_error "cwd must be an existing directory")
    | some cwd ↦ do
      raise_if (not (is_thread_config r.config)) (registry_error "invalid config")
      ok (record r { cwd = cwd })
  ]

-- `replace_all`: the new records
unfoldable pub replace_all : Host → List SessionRecord → Result RegistryError (List SessionRecord)
replace_all host rs = do
  validated ← map_result (checked_record host) rs
  raise_if (not (are_unique validated))
      (registry_conflict "duplicate session, thread, or worker name identifier")
  ok validated

abbrev pub selects : IdentifierSelector → SessionRecord → Bool
selects (session_selector s) r = r.session_id == s
selects (thread_selector t) r = r.thread_id == t

abbrev pub only_match : List SessionRecord → Result RegistryError (Option SessionRecord)
only_match [] = ok none
only_match (r ∷ []) = ok (some r)
only_match (r ∷ q ∷ rs) = err (registry_conflict "identifier resolves ambiguously")

unfoldable pub try_resolve :
    IdentifierSelector → List SessionRecord → Result RegistryError (Option SessionRecord)
try_resolve selector rs = only_match (keep (selects selector) rs)

unfoldable pub resolve :
    IdentifierSelector → List SessionRecord → Result RegistryError SessionRecord
resolve selector rs = try_resolve selector rs >>= λ found. elim found [
  | none ↦ err (registry_error "unknown session")
  | some r ↦ ok r
]

abbrev pub is_named : String → SessionRecord → Bool
is_named name r = r.name == some name

abbrev pub only_named : List SessionRecord → Result RegistryError SessionRecord
only_named [] = err (registry_error "unknown worker name")
only_named (r ∷ []) = ok r
only_named (r ∷ q ∷ rs) = err (registry_conflict "worker name resolves ambiguously")

-- `resolve_name`; `conflicted` is what `_migration_conflict` answers for a name
unfoldable pub resolve_name :
    (String → Bool) → String → List SessionRecord → Result RegistryError SessionRecord
resolve_name conflicted name rs = do
  raise_if (name == "") (registry_error "name must be a non-empty string")
  raise_if (conflicted name) (registry_conflict "legacy worker name is conflicted")
  only_named (keep (is_named name) rs)

-- What `_create` is asked for; without a session id it takes a fresh one.
pub record Creation : Type 0 where
  pub thread_id : String
  pub cwd : String
  pub name : Option String
  pub tier : Option String
  pub model : Option String
  pub effort : Option String
  pub access : Option String
  pub session_id : Option String
  pub config : Option Fields

-- The test of `_create` on a record that is there.
abbrev pub clashes : String → Creation → SessionRecord → Bool
clashes sid c r =
    r.session_id == sid || r.thread_id == c.thread_id || is_some c.name && r.name == c.name

-- The checks of `_create` before it takes the lock: the canonical directory, and the session id;
-- `fresh` is what `uuid4` gives.
unfoldable pub check_creation : Host → String → Creation → Result RegistryError (String × String)
check_creation host fresh c = do
  raise_if (c.thread_id == "") (registry_error "thread_id must be a non-empty string")
  raise_if (c.cwd == "") (registry_error "cwd must be a non-empty string")
  raise_if (not (starts_with c.cwd "/")) (registry_error "cwd must be absolute")
  elim (host.canonical_dir c.cwd) [
    | none ↦ err (registry_error "cwd must be an existing directory")
    | some cwd ↦ do
      raise_if (any is_empty (c.name ∷ c.tier ∷ c.model ∷ c.effort ∷ c.access ∷ []))
          (registry_error "must be a non-empty string or null")
      raise_if (is_bad_name c.name)
          (registry_error "name must match [A-Za-z0-9][A-Za-z0-9._-]{0,127}")
      raise_if (not (is_policy c.tier c.access)) (registry_error "common policy is invalid")
      raise_if (not (is_thread_config c.config)) (registry_error "invalid config")
      raise_if (is_empty c.session_id) (registry_error "session_id must be a non-empty UUID")
      raise_if (not (host.is_uuid (get_or c.session_id fresh)))
          (registry_error "session_id must be a UUID")
      ok (cwd, get_or c.session_id fresh)
  ]

abbrev pub created_record : String → String → String → Creation → SessionRecord
created_record sid cwd now c = record {
  session_id = sid;
  thread_id = c.thread_id;
  cwd = cwd;
  created_at = now;
  updated_at = now;
  name = c.name;
  model = c.model;
  effort = c.effort;
  tier = c.tier;
  access = c.access;
  config = c.config;
}

-- `_create`: the new records and the new one
unfoldable pub create :
    Host
    → String
    → String
    → Creation
    → List SessionRecord
    → Result RegistryError (List SessionRecord × SessionRecord)
create host fresh now c rs = check_creation host fresh c >>= λ (cwd, sid).
    if any (clashes sid c) rs
    then err (registry_conflict "duplicate session, thread, or worker name identifier")
    else ok (rs ++ (created_record sid cwd now c ∷ []), created_record sid cwd now c)

abbrev pub replace_by : String → SessionRecord → List SessionRecord → List SessionRecord
replace_by session_id updated [] = []
replace_by session_id updated (r ∷ rs) =
    (if r.session_id == session_id then updated else r) ∷ replace_by session_id updated rs

unfoldable pub update_annotations :
    String
    → String
    → Option String
    → Option String
    → List SessionRecord
    → Result RegistryError (List SessionRecord × SessionRecord)
update_annotations now session_id model effort rs = do
  raise_if (session_id == "") (registry_error "session_id must be a non-empty UUID")
  raise_if (any is_empty (model ∷ effort ∷ []))
      (registry_error "must be a non-empty string or null")
  current ← resolve (session_selector session_id) rs
  let updated = record current { updated_at = now; model = model; effort = effort }
  ok (replace_by session_id updated rs, updated)
