-- ===== src/PathSecurity/Tests.antt =====
-- path_security.py on a concrete path.
use superdev.Base.{
  string_eq, nat_eq, pair_eq, option_string_eq, all, ◌≡◌, refl, true, false, none, some, [], ◌∷◌,
}
use superdev.PathSecurity.{
  unsafe_below, unsafe_ancestor, is_accepted, is_own, below_own, unsafe_ancestor_sound, Component,
}

abbrev root_dir : Component
root_dir = record {
  path = "/home";
  found = some (record { is_link = false; is_dir = true; mode = 493; owner = 0 });
  target = none;
  at_root = true;
}

abbrev own_dir : Component
own_dir = record root_dir {
  path = "/home/user";
  found = some (record { is_link = false; is_dir = true; mode = 448; owner = 1000 });
}

-- A directory of another user below the user's own one is reported.
foreign_reported : unsafe_ancestor 1001 (root_dir ∷ own_dir ∷ []) ≡ some "/home/user"
unfolding unsafe_below
foreign_reported = refl

own_path : unsafe_ancestor 1000 (root_dir ∷ own_dir ∷ []) ≡ none
unfolding unsafe_below
own_path = refl

unsafe_ancestor_sound_example :
    (all (is_accepted 1000) (root_dir ∷ own_dir ∷ []) ≡ true)
    × (all (is_own 1000) (below_own 1000 (root_dir ∷ own_dir ∷ [])) ≡ true)
unsafe_ancestor_sound_example = unsafe_ancestor_sound 1000 (root_dir ∷ own_dir ∷ []) own_path
