-- ===== src/Json.antt =====
-- The values that Python's `json` module reads and writes, with the accessors that the program
-- uses on them. A Python dict of JSON values is a `Fields`.
use superdev.Base.{
  if◌then◌else◌, ◌==◌, nat_eq, string_eq, pair_eq, option_string_eq, get_or, contains, ℕ, String,
  Bool, true, false, Option, none, some, List, [], ◌∷◌,
}

-- A Python int that JSON can carry: `negative n` is -(n + 1).
pub data Integer : Type 0 where
  natural : ℕ → Integer
  negative : ℕ → Integer

-- A float is its IEEE 754 bit pattern.
mutual
  pub data Json : Type 0 where
    null : Json
    bool : Bool → Json
    int : Integer → Json
    float : ℕ → Json
    text : String → Json
    arr : Items → Json
    obj : Fields → Json

  pub data Items : Type 0 where
    nil : Items
    cons : Json → Items → Items

  pub data Fields : Type 0 where
    done : Fields
    field : String → Json → Fields → Fields

-- `value.get(key)` with a missing key told apart
abbrev pub get_field : String → Fields → Option Json
get_field k done = none
get_field k (field j v fs) = let rest = get_field k fs in if k == j then some v else rest

-- `value.get(key)`: a missing key reads as `None`
abbrev pub get : String → Fields → Json
get k fs = get_or (get_field k fs) null

-- `set(value)`
abbrev pub field_names : Fields → List String
field_names done = []
field_names (field k v fs) = k ∷ field_names fs

-- `{key: item for key, item in value.items() if key not in names}`
abbrev pub without : List String → Fields → Fields
without names done = done
without names (field k v fs) =
    let rest = without names fs in if contains k names then rest else field k v rest

abbrev pub item_list : Items → List Json
item_list nil = []
item_list (cons v vs) = v ∷ item_list vs

-- `isinstance(value, str)`
abbrev pub as_text : Json → Option String
as_text (text s) = some s
as_text _ = none

-- `isinstance(value, dict)`
abbrev pub as_object : Json → Option Fields
as_object (obj fs) = some fs
as_object _ = none

-- `isinstance(value, list)`
abbrev pub as_list : Json → Option (List Json)
as_list (arr vs) = some (item_list vs)
as_list _ = none

-- `value is None`
abbrev pub is_null : Json → Bool
is_null null = true
is_null _ = false
