-- ===== src/Models/Config.antt =====
-- Creation-time config overrides: `_validate_config_value` and `validate_thread_config`.
use superdev.Base.{
  ◌==◌, nat_eq, string_eq, pair_eq, option_string_eq, ℕ, ◌/◌, ◌%◌, ◌^◌, String, Bool, true, false,
  not, ◌&&◌, Option, none, some, List, [], ◌∷◌,
}
use superdev.Json.{
  Json, Items, Fields, null, bool, int, float, text, arr, obj, nil, cons, done, field,
}
use superdev.Models.Recovery.{is_space, codes}

-- `math.isfinite` on a bit pattern: the eleven exponent bits are not all ones.
abbrev pub is_finite : ℕ → Bool
is_finite bits = not (bits / 2 ^ 52 % 2048 == 2047)

unfoldable mutual
  pub is_config_value : Json → Bool
  is_config_value null = false
  is_config_value (bool b) = true
  is_config_value (int n) = true
  is_config_value (float bits) = is_finite bits
  is_config_value (text s) = true
  is_config_value (arr vs) = are_config_items vs
  is_config_value (obj fs) = are_named_fields fs && are_config_fields fs

  pub are_config_items : Items → Bool
  are_config_items nil = true
  are_config_items (cons v vs) = is_config_value v && are_config_items vs

  -- `all(isinstance(key, str) and key for key in value)`
  pub are_named_fields : Fields → Bool
  are_named_fields done = true
  are_named_fields (field k v fs) = not (k == "") && are_named_fields fs

  pub are_config_fields : Fields → Bool
  are_config_fields done = true
  are_config_fields (field k v fs) = is_config_value v && are_config_fields fs

-- `key == key.strip()`: neither the first nor the last character is white space
first_is_space : List ℕ → Bool
first_is_space [] = false
first_is_space (c ∷ cs) = is_space c

last_is_space : List ℕ → Bool
last_is_space [] = false
last_is_space (c ∷ []) = is_space c
last_is_space (c ∷ d ∷ cs) = last_is_space (d ∷ cs)

pub is_config_key : String → Bool
unfolding first_is_space last_is_space
is_config_key key =
    not (key == "") && not (first_is_space (codes key)) && not (last_is_space (codes key))

are_config_entries : Fields → Bool
are_config_entries done = true
are_config_entries (field k v fs) = is_config_key k && is_config_value v && are_config_entries fs

-- The result is whether the call returns: it raises `ValueError` otherwise.
unfoldable pub is_thread_config : Option Fields → Bool
unfolding are_config_entries is_config_key is_config_value
is_thread_config none = true
is_thread_config (some done) = false
is_thread_config (some (field k v fs)) = are_config_entries (field k v fs)
